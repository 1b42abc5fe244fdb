-- ===== src/PyList/Keyed.antt =====
-- Lists whose items are compared by a name, as the models of the topology are: each name once.
use e_pem.Prelude.{
  String, ◌≡◌, Bool, true, false, Option, none, some, List, [], ◌∷◌, ◌++◌, arith, ◌==◌, eq_iff,
  if◌then◌else◌, refl,
}
use e_pem.PyList.{All, contains, find_first, remove_first, select}
use e_pem.PyList.Search.{replace_first}
use e_pem.PyList.Everywhere.{All-append, All-remove_first, All-select}

module _ {ℓ} {A : Type ℓ} (key : A → String) where
  -- the test `item.name == k`
  abbrev pub named : String → A → Bool
  named k x = key x == k

  abbrev pub Lacks : String → List A → Type 0
  Lacks k = All (λ x. named k x ≡ false)

  abbrev pub HasUniqueKeys : List A → Type 0
  HasUniqueKeys [] = Unit
  HasUniqueKeys (x ∷ xs) = Lacks (key x) xs × HasUniqueKeys xs

  -- the abstract view of such a list: a finite map from names to items
  abbrev pub view : List A → String → Option A
  view l k = find_first (named k) l

  pub not-contains-Lacks : (k : String) (l : List A) → contains (named k) l ≡ false → Lacks k l
  unfolding contains
  not-contains-Lacks k [] h = tt
  not-contains-Lacks k (x ∷ xs) h = ground (arith, not-contains-Lacks k xs)

  pub view-Lacks : (k : String) (l : List A) → Lacks k l → view l k ≡ none
  unfolding find_first
  view-Lacks k [] h = refl
  view-Lacks k (x ∷ xs) h = ground (arith, view-Lacks k xs h.1)

  pub contains-eq_view :
      (k : String) (l : List A)
      → contains (named k) l ≡ (elim (view l k) [ none ↦ false | some x ↦ true ])
  unfolding contains find_first
  contains-eq_view k [] = refl
  contains-eq_view k (x ∷ xs) = ground (arith, contains-eq_view k xs)

  pub view-key : (k : String) (l : List A) (x : A) → view l k ≡ some x → key x ≡ k
  unfolding find_first
  view-key k [] x h = absurd (ground arith)
  view-key k (y ∷ ys) x h = ground (arith, view-key k ys x, eq_iff (key y) k)

  HasUniqueKeys-snoc :
      (l : List A) (x : A) → HasUniqueKeys l → Lacks (key x) l → HasUniqueKeys (l ++ x ∷ [])
  HasUniqueKeys-snoc [] x u h = (tt, tt)
  HasUniqueKeys-snoc (y ∷ ys) x u h = (
    All-append _ ys (x ∷ []) u.0 (ground (arith, eq_iff (key y) (key x), eq_iff (key x) (key y))),
    HasUniqueKeys-snoc ys x u.1 h.1,
  )

  pub HasUniqueKeys-append :
      (l : List A) (x : A)
      → contains (named (key x)) l ≡ false
      → HasUniqueKeys l
      → HasUniqueKeys (l ++ x ∷ [])
  HasUniqueKeys-append l x h u = HasUniqueKeys-snoc l x u (not-contains-Lacks (key x) l h)

  pub HasUniqueKeys-remove_first :
      (p : A → Bool) (l : List A) → HasUniqueKeys l → HasUniqueKeys (remove_first p l)
  unfolding remove_first
  HasUniqueKeys-remove_first p [] u = tt
  HasUniqueKeys-remove_first p (x ∷ xs) u = ground (
    arith,
    HasUniqueKeys-remove_first p xs u.1,
    All-remove_first (λ y. named (key x) y ≡ false) p xs u.0,
  )

  pub HasUniqueKeys-select :
      (p : A → Bool) (l : List A) → HasUniqueKeys l → HasUniqueKeys (select p l)
  unfolding select
  HasUniqueKeys-select p [] u = tt
  HasUniqueKeys-select p (x ∷ xs) u =
      ground
        (arith, HasUniqueKeys-select p xs u.1, All-select (λ y. named (key x) y ≡ false) p xs u.0)

  Lacks-replace_first :
      (j k : String) (v : A) (l : List A)
      → key v ≡ k
      → Lacks j l
      → Lacks j (replace_first (named k) v l)
  unfolding replace_first
  Lacks-replace_first j k v [] e h = tt
  Lacks-replace_first j k v (x ∷ xs) e h = ground (
    arith,
    Lacks-replace_first j k v xs e h.1,
    eq_iff (key x) k,
    eq_iff (key v) j,
    eq_iff (key x) j,
  )

  pub HasUniqueKeys-replace_first :
      (k : String) (v : A) (l : List A)
      → key v ≡ k
      → HasUniqueKeys l
      → HasUniqueKeys (replace_first (named k) v l)
  unfolding replace_first
  HasUniqueKeys-replace_first k v [] e u = tt
  HasUniqueKeys-replace_first k v (x ∷ xs) e u = ground (
    arith,
    HasUniqueKeys-replace_first k v xs e u.1,
    eq_iff (key x) k,
    Lacks-replace_first (key x) k v xs e u.0,
  )

  pub view-append :
      (l : List A) (x : A) (j : String)
      → view (l ++ x ∷ []) j
        ≡ (elim (view l j) [ none ↦ (if key x == j then some x else none) | some y ↦ some y ])
  unfolding find_first
  view-append [] x j = refl
  view-append (y ∷ ys) x j = ground (arith, view-append ys x j)

  pub view-remove_first :
      (k : String) (l : List A) (j : String)
      → HasUniqueKeys l
      → view (remove_first (named k) l) j ≡ (if k == j then none else view l j)
  unfolding find_first remove_first
  view-remove_first k [] j u = ground arith
  view-remove_first k (x ∷ xs) j u = ground (
    arith,
    view-remove_first k xs j u.1,
    eq_iff (key x) k,
    eq_iff k j,
    eq_iff (key x) j,
    view-Lacks (key x) xs u.0,
  )

  pub view-replace_first :
      (k : String) (v : A) (l : List A) (j : String)
      → key v ≡ k
      → contains (named k) l ≡ true
      → view (replace_first (named k) v l) j ≡ (if k == j then some v else view l j)
  unfolding find_first replace_first contains
  view-replace_first k v [] j e h = cc
  view-replace_first k v (x ∷ xs) j e h = ground (
    arith,
    view-replace_first k v xs j e,
    eq_iff (key x) k,
    eq_iff k j,
    eq_iff (key x) j,
    eq_iff (key v) j,
  )
