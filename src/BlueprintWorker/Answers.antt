-- ===== src/BlueprintWorker/Answers.antt =====
-- What the steps of the worker say to callers, and rules for blocks of them.
use mathlib.Core.List.{append-nil}
use e_pem.Prelude.{
  String, ◌≡◌, refl, sym, ap, ◌∙◌, Option, none, some, List, [], ◌∷◌, ◌++◌, map, arith,
}
use e_pem.Result.{Error, Result, ok, err}
use e_pem.Exec.{Exec, after, ◌>>=◌, try_except, or_handle}
use e_pem.BlueprintWorker.{BlueprintWorker}

-- the callback of a message, if it has one
abbrev pub told : Option String → List String
told none = []
told (some name) = name ∷ []

-- the callbacks that were called so far
abbrev pub callers : {R : Type 0} → BlueprintWorker R → List String
callers self = map (λ a. a.0) self.answered

abbrev pub said : {A : Type 0} → Result A → List String → List String
said (ok a) names = names
said (err e) names = []

-- `m` calls the callbacks `names` if it returns, and none if it raises.
pub record Says {R A : Type 0} (names : List String) (m : Exec (BlueprintWorker R) A) : Type 0 where
  pub at : (s : BlueprintWorker R) → callers (m s).1 ≡ callers s ++ said (m s).0 names

-- `m` returns and calls the callbacks `names`.
pub record Answers {R A : Type 0} (names : List String) (m : Exec (BlueprintWorker R) A)
    : Type 0 where
  pub returns : (s : BlueprintWorker R) → (a : A) × ((m s).0 ≡ ok a)
  pub at : (s : BlueprintWorker R) → callers (m s).1 ≡ callers s ++ names

module _ {R A : Type 0} where
  quiet : (s : BlueprintWorker R) (r : Result A) → callers s ≡ callers s ++ said r []
  quiet s (ok a) = sym (append-nil (callers s))
  quiet s (err e) = sym (append-nil (callers s))

  pub Says-of_same :
      (m : Exec (BlueprintWorker R) A)
      → ((s : BlueprintWorker R) → (m s).1.answered ≡ s.answered)
      → Says [] m
  Says-of_same m same = record { at = λ s. ap (λ l. map (λ a. a.0) l) (same s) ∙ quiet s (m s).0 }

  pub Says-of_Answers :
      (names : List String) (m : Exec (BlueprintWorker R) A) → Answers names m → Says names m
  Says-of_Answers names m h = record { at = λ s. let (a, e) = h.returns s in rw e (h.at s) }

module _ {R A B : Type 0} where
  after-Says :
      (names : List String) (r : Result A) (f : A → Exec (BlueprintWorker R) B)
      (s t : BlueprintWorker R)
      → callers t ≡ callers s ++ said r []
      → ((a : A) → Says names (f a))
      → callers (after r f t).1 ≡ callers s ++ said (after r f t).0 names
  after-Says names (ok a) f s t e h =
      (h a).at t ∙ ap (λ l. l ++ said (f a t).0 names) (e ∙ append-nil (callers s))
  after-Says names (err x) f s t e h = e

  -- steps that say nothing, then the rest
  pub Says-bind :
      (names : List String) (m : Exec (BlueprintWorker R) A) (f : A → Exec (BlueprintWorker R) B)
      → Says [] m
      → ((a : A) → Says names (f a))
      → Says names (m >>= f)
  unfolding ◌>>=◌
  Says-bind names m f h k = record { at = λ s. after-Says names (m s).0 f s (m s).1 (h.at s) k }

  after-Answers :
      (names : List String) (r : Result A) (a : A) (f : A → Exec (BlueprintWorker R) B)
      (s t : BlueprintWorker R)
      → r ≡ ok a
      → callers t ≡ callers s ++ names
      → ((a : A) → Answers [] (f a))
      → ((b : B) × ((after r f t).0 ≡ ok b)) × (callers (after r f t).1 ≡ callers s ++ names)
  after-Answers names (ok x) a f s t e said_so h =
      ((h x).returns t, (h x).at t ∙ append-nil (callers t) ∙ said_so)
  after-Answers names (err x) a f s t e said_so h = absurd (ground (arith, e))

  after-sure :
      (names : List String) (r : Result A) (a : A) (f : A → Exec (BlueprintWorker R) B)
      (s t : BlueprintWorker R)
      → r ≡ ok a
      → callers t ≡ callers s ++ []
      → ((a : A) → Answers names (f a))
      → ((b : B) × ((after r f t).0 ≡ ok b)) × (callers (after r f t).1 ≡ callers s ++ names)
  after-sure names (ok x) a f s t e said_so h =
      ((h x).returns t, (h x).at t ∙ ap (λ l. l ++ names) (said_so ∙ append-nil (callers s)))
  after-sure names (err x) a f s t e said_so h = absurd (ground (arith, e))

  -- an answer, then steps that neither fail nor speak
  pub Answers-then :
      (names : List String) (m : Exec (BlueprintWorker R) A) (f : A → Exec (BlueprintWorker R) B)
      → Answers names m
      → ((a : A) → Answers [] (f a))
      → Answers names (m >>= f)
  unfolding ◌>>=◌
  Answers-then names m f h k = record {
    returns =
        λ s. (after-Answers names (m s).0 (h.returns s).0 f s (m s).1 (h.returns s).1 (h.at s) k).0;
    at =
        λ s. (after-Answers names (m s).0 (h.returns s).0 f s (m s).1 (h.returns s).1 (h.at s) k).1;
  }

  -- steps that neither fail nor speak, then an answer
  pub Answers-bind :
      (names : List String) (m : Exec (BlueprintWorker R) A) (f : A → Exec (BlueprintWorker R) B)
      → Answers [] m
      → ((a : A) → Answers names (f a))
      → Answers names (m >>= f)
  unfolding ◌>>=◌
  Answers-bind names m f h k = record {
    returns =
        λ s. (after-sure names (m s).0 (h.returns s).0 f s (m s).1 (h.returns s).1 (h.at s) k).0;
    at = λ s. (after-sure names (m s).0 (h.returns s).0 f s (m s).1 (h.returns s).1 (h.at s) k).1;
  }

module _ {R A : Type 0} where
  handle-Answers :
      (names : List String) (r : Result A) (handler : Error → Exec (BlueprintWorker R) A)
      (s t : BlueprintWorker R)
      → callers t ≡ callers s ++ said r names
      → ((e : Error) → Answers names (handler e))
      → ((a : A) × ((or_handle handler (r, t)).0 ≡ ok a))
        × (callers (or_handle handler (r, t)).1 ≡ callers s ++ names)
  handle-Answers names (ok a) handler s t said_so h = ((a, refl), said_so)
  handle-Answers names (err e) handler s t said_so h =
      ((h e).returns t, (h e).at t ∙ ap (λ l. l ++ names) (said_so ∙ append-nil (callers s)))

  -- what fails has said nothing, and the handler says it
  pub Answers-try :
      (names : List String) (m : Exec (BlueprintWorker R) A)
      (handler : Error → Exec (BlueprintWorker R) A)
      → Says names m
      → ((e : Error) → Answers names (handler e))
      → Answers names (try_except m handler)
  unfolding try_except
  Answers-try names m handler h k = record {
    returns = λ s. (handle-Answers names (m s).0 handler s (m s).1 (h.at s) k).0;
    at = λ s. (handle-Answers names (m s).0 handler s (m s).1 (h.at s) k).1;
  }
