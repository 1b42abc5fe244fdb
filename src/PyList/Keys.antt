-- ===== src/PyList/Keys.antt =====
-- Names that an operation leaves in place keep their uniqueness.
use e_pem.Prelude.{ℕ, zero, suc, String, ◌≡◌, subst, List, [], ◌∷◌, map, arith}
use e_pem.Result.{ok}
use e_pem.PyList.{get_at, set_at, pop_at}
use e_pem.PyList.Keyed.{Lacks, HasUniqueKeys}

module _ {ℓ} {A : Type ℓ} (key : A → String) where
  Lacks-same :
      (k : String) (l l' : List A) → map key l ≡ map key l' → Lacks key k l → Lacks key k l'
  Lacks-same k [] [] e h = tt
  Lacks-same k [] (y ∷ ys) e h = absurd (ground arith)
  Lacks-same k (x ∷ xs) [] e h = absurd (ground arith)
  Lacks-same k (x ∷ xs) (y ∷ ys) e h = (ground arith, Lacks-same k xs ys (ground arith) h.1)

  pub HasUniqueKeys-same :
      (l l' : List A) → map key l ≡ map key l' → HasUniqueKeys key l → HasUniqueKeys key l'
  HasUniqueKeys-same [] [] e u = tt
  HasUniqueKeys-same [] (y ∷ ys) e u = absurd (ground arith)
  HasUniqueKeys-same (x ∷ xs) [] e u = absurd (ground arith)
  HasUniqueKeys-same (x ∷ xs) (y ∷ ys) e u =
      let same : key x ≡ key y = ground arith in
      (
        rw (← same) (Lacks-same (key x) xs ys (ground arith) u.0),
        HasUniqueKeys-same xs ys (ground arith) u.1,
      )

  pub map-set_at :
      (l : List A) (i : ℕ) (x v : A) (l' : List A)
      → get_at l i ≡ ok x
      → key x ≡ key v
      → set_at l i v ≡ ok l'
      → map key l ≡ map key l'
  unfolding get_at set_at
  map-set_at [] i x v l' g e s = absurd (ground arith)
  map-set_at (y ∷ ys) zero x v l' g e s = ground arith
  map-set_at (y ∷ ys) (suc i) x v [] g e s = absurd (ground arith)
  map-set_at (y ∷ ys) (suc i) x v (z ∷ zs) g e s = ground (arith, map-set_at ys i x v zs g e)

  Lacks-pop_at :
      (k : String) (l : List A) (i : ℕ) (x : A) (l' : List A)
      → pop_at l i ≡ ok (x, l')
      → Lacks key k l
      → Lacks key k l'
  unfolding pop_at
  Lacks-pop_at k [] i x l' e h = absurd (ground arith)
  Lacks-pop_at k (y ∷ ys) zero x l' e h =
      subst (Lacks key k) (let same : ys ≡ l' = ground arith in same) h.1
  Lacks-pop_at k (y ∷ ys) (suc i) x [] e h = tt
  Lacks-pop_at k (y ∷ ys) (suc i) x (z ∷ zs) e h =
      (ground arith, Lacks-pop_at k ys i x zs (ground arith) h.1)

  pub HasUniqueKeys-pop_at :
      (l : List A) (i : ℕ) (x : A) (l' : List A)
      → pop_at l i ≡ ok (x, l')
      → HasUniqueKeys key l
      → HasUniqueKeys key l'
  unfolding pop_at
  HasUniqueKeys-pop_at [] i x l' e u = absurd (ground arith)
  HasUniqueKeys-pop_at (y ∷ ys) zero x l' e u =
      subst (HasUniqueKeys key) (let same : ys ≡ l' = ground arith in same) u.1
  HasUniqueKeys-pop_at (y ∷ ys) (suc i) x [] e u = tt
  HasUniqueKeys-pop_at (y ∷ ys) (suc i) x (z ∷ zs) e u =
      let same : y ≡ z = ground arith in
      (
        rw (← same) (Lacks-pop_at (key y) ys i x zs (ground arith) u.0),
        HasUniqueKeys-pop_at ys i x zs (ground arith) u.1,
      )
