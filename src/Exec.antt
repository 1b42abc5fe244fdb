-- ===== src/Exec.antt =====
-- Methods that change an object and may raise. What was written before an exception stays written,
-- so the state comes back beside the exception as well.
pub mod Rules
use e_pem.Prelude.{Option, none, some, List, [], ◌∷◌}
use e_pem.Result.{Error, Result, ok, err, value_error}

abbrev pub Exec : Type 0 → Type 0 → Type 0
Exec S A = S → Result A × S

-- what follows a step: the rest of the block, or the exception
abbrev pub after : {S A B : Type 0} → Result A → (A → Exec S B) → Exec S B
after (ok a) f s = f a s
after (err e) f s = (err e, s)

infixl 5 ◌>>=◌ ◌>>◌
unfoldable pub ◌>>=◌ : {S A B : Type 0} → Exec S A → (A → Exec S B) → Exec S B
◌>>=◌ m f s = let (r, s') = m s in after r f s'

abbrev pub ◌>>◌ : {S A B : Type 0} → Exec S A → Exec S B → Exec S B
m >> k = m >>= λ _. k

module _ {S A : Type 0} where
  unfoldable pub pure : A → Exec S A
  pure a s = (ok a, s)

  unfoldable pub raise : Error → Exec S A
  raise e s = (err e, s)

  -- a computation that changes nothing
  unfoldable pub lift : Result A → Exec S A
  lift r s = (r, s)

  -- a value read from the state
  unfoldable pub reads : (S → Result A) → Exec S A
  reads f s = (f s, s)

unfoldable pub modify : {S : Type 0} → (S → S) → Exec S (Unit {0})
modify f s = (ok tt, f s)

-- for x in xs: body(x)
unfoldable pub for_each : {S A B : Type 0} → List A → (A → Exec S B) → Exec S (Unit {0})
unfolding pure
for_each [] body = pure tt
for_each (x ∷ xs) body = body x >>= λ _. for_each xs body

-- try: m; except ValueError: None
abbrev pub caught : {S A : Type 0} → Result A × S → Result (Option A) × S
caught (ok a, s) = (ok (some a), s)
caught (err value_error, s) = (ok none, s)
caught (err e, s) = (err e, s)

unfoldable pub except_value_error : {S A : Type 0} → Exec S A → Exec S (Option A)
except_value_error m s = caught (m s)

abbrev pub or_handle : {S A : Type 0} → (Error → Exec S A) → Result A × S → Result A × S
or_handle handler (ok a, s) = (ok a, s)
or_handle handler (err e, s) = handler e s

-- try: m; except Exception as e: handler(e)
unfoldable pub try_except : {S A : Type 0} → Exec S A → (Error → Exec S A) → Exec S A
try_except m handler s = or_handle handler (m s)
