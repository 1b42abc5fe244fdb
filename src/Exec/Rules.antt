-- ===== src/Exec/Rules.antt =====
-- Rules for actions: what they keep, and what holds when they return.
use e_pem.Prelude.{◌≡◌, refl, ap, Bool, true, false, List, [], ◌∷◌, arith, if◌then◌else◌}
use e_pem.Result.{Error, Result, ok, err}
use e_pem.Exec.{Exec, after, ◌>>=◌, pure, raise, lift, reads, for_each, try_except, or_handle}

-- `m` keeps `P`, whether it returns or raises.
pub record Keeps {S A : Type 0} (P : S → Type 0) (m : Exec S A) : Type 0 where
  pub at : (s : S) → P s → P (m s).1

-- If `m` returns, `Q` holds of the state that it leaves.
pub record Ensures {S A : Type 0} (Q : S → Type 0) (m : Exec S A) : Type 0 where
  pub at : (s : S) (a : A) → (m s).0 ≡ ok a → Q (m s).1

module _ {S A : Type 0} {P : S → Type 0} where
  pub Keeps-if : (b : Bool) (m n : Exec S A) → Keeps P m → Keeps P n → Keeps P (if b then m else n)
  Keeps-if true m n h k = h
  Keeps-if false m n h k = k

  pub Keeps-reads : (f : S → Result A) → Keeps P (reads f)
  unfolding reads
  Keeps-reads f = record { at = λ self held. held }

  pub Keeps-raise : (e : Error) → Keeps P (raise {A = A} e)
  unfolding raise
  Keeps-raise e = record { at = λ self held. held }

  pub Keeps-pure : (a : A) → Keeps P (pure a)
  unfolding pure
  Keeps-pure a = record { at = λ self held. held }

  pub Keeps-lift : (r : Result A) → Keeps P (lift r)
  unfolding lift
  Keeps-lift r = record { at = λ self held. held }

module _ {S A B : Type 0} {P : S → Type 0} where
  after-keeps :
      (r : Result A) (f : A → Exec S B) (s : S)
      → ((a : A) → Keeps P (f a))
      → P s
      → P (after r f s).1
  after-keeps (ok a) f s h p = (h a).at s p
  after-keeps (err e) f s h p = p

  -- a step and what follows it
  pub Keeps-bind :
      (step : Exec S A) (rest : A → Exec S B)
      → Keeps P step
      → ((a : A) → Keeps P (rest a))
      → Keeps P (step >>= rest)
  unfolding ◌>>=◌
  Keeps-bind step rest h k = record {
    at = λ s p. after-keeps (step s).0 rest (step s).1 k (h.at s p);
  }

module _ {S A B : Type 0} {P : S → Type 0} where
  pub Keeps-for_each :
      (xs : List A) (body : A → Exec S B)
      → ((a : A) → Keeps P (body a))
      → Keeps P (for_each xs body)
  unfolding for_each
  Keeps-for_each [] body h = Keeps-pure tt
  Keeps-for_each (x ∷ xs) body h =
      Keeps-bind (body x) (λ _. for_each xs body) (h x) (λ _. Keeps-for_each xs body h)

pub ruleset keeps_rules =
    (Keeps-pure, Keeps-raise, Keeps-lift, Keeps-reads, Keeps-if, Keeps-bind, Keeps-for_each)

module _ {S A B : Type 0} {Q : S → Type 0} where
  after-ensures :
      (r : Result A) (f : A → Exec S B) (s : S) (b : B)
      → ((a : A) → Ensures Q (f a))
      → (after r f s).0 ≡ ok b
      → Q (after r f s).1
  after-ensures (ok a) f s b h e = (h a).at s b e
  after-ensures (err x) f s b h e = absurd (ground (arith, e))

  -- What the last step ensures, the block ensures.
  pub Ensures-bind :
      (m : Exec S A) (f : A → Exec S B) → ((a : A) → Ensures Q (f a)) → Ensures Q (m >>= f)
  unfolding ◌>>=◌
  Ensures-bind m f h = record { at = λ s b e. after-ensures (m s).0 f (m s).1 b h e }

  after-then-keeps :
      (r : Result A) (f : A → Exec S B) (s : S) (b : B)
      → ((a : A) → r ≡ ok a → Q s)
      → ((a : A) → Keeps Q (f a))
      → (after r f s).0 ≡ ok b
      → Q (after r f s).1
  after-then-keeps (ok a) f s b q k e = (k a).at s (q a refl)
  after-then-keeps (err x) f s b q k e = absurd (ground (arith, e))

  -- What a step ensures and the rest keeps, the block ensures.
  pub Ensures-then :
      (m : Exec S A) (f : A → Exec S B)
      → Ensures Q m
      → ((a : A) → Keeps Q (f a))
      → Ensures Q (m >>= f)
  unfolding ◌>>=◌
  Ensures-then m f h k = record {
    at = λ s b e. after-then-keeps (m s).0 f (m s).1 b (λ a p. h.at s a p) k e;
  }

module _ {S A : Type 0} {Q : S → Type 0} where
  handle-ensures :
      (r : Result A) (handler : Error → Exec S A) (s : S) (a : A)
      → ((x : A) → r ≡ ok x → Q s)
      → ((e : Error) → Ensures Q (handler e))
      → (or_handle handler (r, s)).0 ≡ ok a
      → Q (or_handle handler (r, s)).1
  handle-ensures (ok x) handler s a q h e = q x refl
  handle-ensures (err x) handler s a q h e = (h x).at s a e

  -- what both the block and the handler ensure
  pub Ensures-try :
      (m : Exec S A) (handler : Error → Exec S A)
      → Ensures Q m
      → ((e : Error) → Ensures Q (handler e))
      → Ensures Q (try_except m handler)
  unfolding try_except
  Ensures-try m handler h k = record {
    at = λ s a e. handle-ensures (m s).0 handler (m s).1 a (λ x p. h.at s x p) k e;
  }

-- a step whose result is known
module _ {S A B : Type 0} where
  pub bind_ok :
      (m : Exec S A) (f : A → Exec S B) (s t : S) (a : A) → m s ≡ (ok a, t) → (m >>= f) s ≡ f a t
  unfolding ◌>>=◌
  bind_ok m f s t a e = ap (λ x. after x.0 f x.1) e

  after_err :
      (r : Result A) (f : A → Exec S B) (s : S) (e : Error) → r ≡ err e → after r f s ≡ (err e, s)
  after_err (ok a) f s e h = absurd (ground (arith, h))
  after_err (err x) f s e h = ground arith

  pub bind_err :
      (m : Exec S A) (f : A → Exec S B) (s : S) (e : Error)
      → (m s).0 ≡ err e
      → (m >>= f) s ≡ (err e, (m s).1)
  unfolding ◌>>=◌
  bind_err m f s e h = after_err (m s).0 f (m s).1 e h

  after_inv :
      (r : Result A) (f : A → Exec S B) (s : S) (b : B)
      → (after r f s).0 ≡ ok b
      → (a : A) × (r ≡ ok a) × (after r f s ≡ f a s)
  after_inv (ok a) f s b h = (a, refl, refl)
  after_inv (err e) f s b h = absurd (ground (arith, h))

  -- a block that returned went through its first step
  pub bind_inv :
      (m : Exec S A) (f : A → Exec S B) (s : S) (b : B)
      → ((m >>= f) s).0 ≡ ok b
      → (a : A) × ((m s).0 ≡ ok a) × ((m >>= f) s ≡ f a (m s).1)
  unfolding ◌>>=◌
  bind_inv m f s b h = after_inv (m s).0 f (m s).1 b h

module _ {S A : Type 0} {P : S → Type 0} where
  handle-keeps :
      (r : Result A) (handler : Error → Exec S A) (s : S)
      → ((e : Error) → Keeps P (handler e))
      → P s
      → P (or_handle handler (r, s)).1
  handle-keeps (ok a) handler s h p = p
  handle-keeps (err e) handler s h p = (h e).at s p

  -- a block under `try`, and its handler
  pub Keeps-try :
      (m : Exec S A) (handler : Error → Exec S A)
      → Keeps P m
      → ((e : Error) → Keeps P (handler e))
      → Keeps P (try_except m handler)
  unfolding try_except
  Keeps-try m handler k h = record { at = λ s p. handle-keeps (m s).0 handler (m s).1 h (k.at s p) }
