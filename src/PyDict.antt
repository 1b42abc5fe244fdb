-- ===== src/PyDict.antt =====
-- What the program uses of Python's dictionaries with text for keys.
use e_pem.Prelude.{
  String, ◌≡◌, refl, Bool, true, false, ◌||◌, Option, none, some, List, [], ◌∷◌, ◌==◌,
  if◌then◌else◌, arith, eq_iff, eq_refl, Bool-cases, inl, inr,
}

module _ {ℓ} {V : Type ℓ} where
  -- d.get(key)
  unfoldable pub lookup : String → List (String × V) → Option V
  lookup key [] = none
  lookup key ((k, v) ∷ d) = if k == key then some v else lookup key d

  -- key in d
  unfoldable pub has : String → List (String × V) → Bool
  has key [] = false
  has key ((k, v) ∷ d) = k == key || has key d

  -- d[key] = value
  unfoldable pub put : String → V → List (String × V) → List (String × V)
  put key value [] = (key, value) ∷ []
  put key value ((k, v) ∷ d) = if k == key then (k, value) ∷ d else (k, v) ∷ put key value d

  -- del d[key], of a key that is there
  unfoldable pub drop_key : String → List (String × V) → List (String × V)
  drop_key key [] = []
  drop_key key ((k, v) ∷ d) = if k == key then d else (k, v) ∷ drop_key key d

  pub has-put :
      (j key : String) (value : V) (d : List (String × V))
      → has j (put key value d) ≡ (key == j || has j d)
  unfolding has put
  has-put j key value [] = refl
  has-put j key value ((k, v) ∷ d) = elim (Bool-cases (k == key)) [
    | inl e ↦ ground (arith, eq_iff k key)
    | inr e ↦ rw e (rw (has-put j key value d) (ground arith))
  ]

  pub lookup-put_same :
      (key : String) (value : V) (d : List (String × V)) → lookup key (put key value d) ≡ some value
  unfolding lookup put
  lookup-put_same key value [] = ground (arith, eq_refl key)
  lookup-put_same key value ((k, v) ∷ d) = ground (arith, lookup-put_same key value d)

  pub lookup-put_other :
      (j key : String) (value : V) (d : List (String × V))
      → (key == j) ≡ false
      → lookup j (put key value d) ≡ lookup j d
  unfolding lookup put
  lookup-put_other j key value [] h = ground arith
  lookup-put_other j key value ((k, v) ∷ d) h =
      ground (arith, lookup-put_other j key value d, eq_iff k key)

  pub has-lookup :
      (j : String) (d : List (String × V)) (v : V) → lookup j d ≡ some v → has j d ≡ true
  unfolding has lookup
  has-lookup j [] v h = absurd (ground arith)
  has-lookup j ((k, w) ∷ d) v h = ground (arith, has-lookup j d v)

  -- a key that is still there after a deletion was there before
  pub lookup-drop_key :
      (j key : String) (d : List (String × V)) (v : V)
      → has j (drop_key key d) ≡ true
      → has j d ≡ true
  unfolding has drop_key
  lookup-drop_key j key [] v h = absurd (ground arith)
  lookup-drop_key j key ((k, w) ∷ d) v h = ground (arith, lookup-drop_key j key d v)

  -- each key once
  abbrev pub IsDict : List (String × V) → Type ℓ
  IsDict [] = Unit
  IsDict ((k, v) ∷ d) = (has k d ≡ false) × IsDict d

  pub IsDict-put :
      (key : String) (value : V) (d : List (String × V)) → IsDict d → IsDict (put key value d)
  unfolding has put
  IsDict-put key value [] u = (refl, tt)
  IsDict-put key value ((k, v) ∷ d) u = elim (Bool-cases (k == key)) [
    | inl e ↦ rw e u
    | inr e ↦ rw e (
      ground (arith, has-put k key value d, eq_iff k key, eq_iff key k),
      IsDict-put key value d u.1,
    )
  ]

  pub has-drop_key :
      (key : String) (d : List (String × V)) → IsDict d → has key (drop_key key d) ≡ false
  unfolding has drop_key
  has-drop_key key [] u = refl
  has-drop_key key ((k, v) ∷ d) u = ground (arith, has-drop_key key d, eq_iff k key)

  pub IsDict-drop_key : (key : String) (d : List (String × V)) → IsDict d → IsDict (drop_key key d)
  unfolding has drop_key
  IsDict-drop_key key [] u = tt
  IsDict-drop_key key ((k, v) ∷ d) u = elim (Bool-cases (k == key)) [
    | inl e ↦ rw e u.1
    | inr e ↦ rw e (ground (arith, lookup-drop_key k key d v), IsDict-drop_key key d u.1)
  ]
