-- ===== src/PyList.antt =====
-- What the program uses of Python's lists: search, membership, indexing, `pop`, `remove`, item
-- assignment, with the exceptions that they raise. The proofs are in the children.
pub mod Keyed
pub mod Search
pub mod Keys
pub mod Everywhere
use e_pem.Prelude.{
  ℕ, zero, suc, ◌+◌, ◌≡◌, Bool, true, false, Option, none, some, List, [], ◌∷◌, ◌++◌, arith,
  if◌then◌else◌,
}
use e_pem.Result.{Error, Result, ok, err, index_error, value_error}

abbrev pub shift : Option ℕ → Option ℕ
shift none = none
shift (some i) = some (suc i)

-- the index that a search gives, or the exception that the code raises when there is none
unfoldable pub index_or : Error → Option ℕ → Result ℕ
index_or e none = err e
index_or e (some i) = ok i

module _ {ℓ} {A : Type ℓ} where
  abbrev pub length : List A → ℕ
  length [] = 0
  length (x ∷ xs) = suc (length xs)

  abbrev pub All {κ} : (A → Type κ) → List A → Type κ
  All P [] = Unit
  All P (x ∷ xs) = P x × All P xs

  -- any(p(x) for x in l); `y in l` is `contains (λ x. x == y) l`: the item stands on the left.
  unfoldable pub contains : (A → Bool) → List A → Bool
  contains p [] = false
  contains p (x ∷ xs) = if p x then true else contains p xs

  -- next((i for i, x in enumerate(l) if p(x)), None)
  unfoldable pub find_index : (A → Bool) → List A → Option ℕ
  find_index p [] = none
  find_index p (x ∷ xs) = if p x then some 0 else shift (find_index p xs)

  -- next((x for x in l if p(x)), None)
  unfoldable pub find_first : (A → Bool) → List A → Option A
  find_first p [] = none
  find_first p (x ∷ xs) = if p x then some x else find_first p xs

  -- [x for x in l if p(x)]
  unfoldable pub select : (A → Bool) → List A → List A
  select p [] = []
  select p (x ∷ xs) = let rest = select p xs in if p x then x ∷ rest else rest

  -- l[i]
  unfoldable pub get_at : List A → ℕ → Result A
  get_at [] i = err index_error
  get_at (x ∷ xs) zero = ok x
  get_at (x ∷ xs) (suc i) = get_at xs i

  abbrev keep_head : A → Result (List A) → Result (List A)
  keep_head x (ok l) = ok (x ∷ l)
  keep_head x (err e) = err e

  -- l[i] = v
  unfoldable pub set_at : List A → ℕ → A → Result (List A)
  set_at [] i v = err index_error
  set_at (x ∷ xs) zero v = ok (v ∷ xs)
  set_at (x ∷ xs) (suc i) v = keep_head x (set_at xs i v)

  abbrev keep_popped : A → Result (A × List A) → Result (A × List A)
  keep_popped x (ok (a, l)) = ok (a, x ∷ l)
  keep_popped x (err e) = err e

  -- l.pop(i)
  unfoldable pub pop_at : List A → ℕ → Result (A × List A)
  pop_at [] i = err index_error
  pop_at (x ∷ xs) zero = ok (x, xs)
  pop_at (x ∷ xs) (suc i) = keep_popped x (pop_at xs i)

  -- l.remove(y), where `p x` is `x == y`; the list is left alone where Python raises ValueError.
  unfoldable pub remove_first : (A → Bool) → List A → List A
  remove_first p [] = []
  remove_first p (x ∷ xs) = if p x then xs else x ∷ remove_first p xs

  -- a change of the object at l[i]
  unfoldable pub update_at : List A → ℕ → (A → A) → List A
  update_at [] i f = []
  update_at (x ∷ xs) zero f = f x ∷ xs
  update_at (x ∷ xs) (suc i) f = x ∷ update_at xs i f
