-- ===== src/References/Paths.antt =====
-- Paths of a tree that begin with a key, and what sorting leaves of them.
use e_pem.Prelude.{
  ℕ, suc, String, ◌≡◌, refl, sym, ap, ◌∙◌, ◌≤◌, true, List, [], ◌∷◌, ◌==◌, arith, leb, leb→le,
  Bool-cases, inl, inr, if◌then◌else◌,
}
use e_pem.PyList.{length, All}
use e_pem.References.{insert_path, longest_first}

-- the paths that begin with a key, without it
unfoldable pub behind : String → List (List String) → List (List String)
behind key [] = []
behind key ([] ∷ paths) = behind key paths
behind key ((k ∷ path) ∷ paths) =
    let rest = behind key paths in if k == key then path ∷ rest else rest

-- no path in the list is longer than the first
abbrev IsDescending : List (List String) → Type 0
IsDescending [] = Unit
IsDescending (path ∷ paths) = All (λ p. length p ≤ length path) paths × IsDescending paths

All-insert :
    (n : ℕ) (path : List String) (paths : List (List String))
    → length path ≤ n
    → All (λ p. length p ≤ n) paths
    → All (λ p. length p ≤ n) (insert_path path paths)
unfolding insert_path
All-insert n path [] h a = (h, tt)
All-insert n path (p ∷ paths) h a = elim (Bool-cases (leb (length p) (length path))) [
  | inl e ↦ rw e (h, a)
  | inr e ↦ rw e (a.0, All-insert n path paths h a.1)
]

All-shorter :
    (n m : ℕ) (paths : List (List String))
    → n ≤ m
    → All (λ p. length p ≤ n) paths
    → All (λ p. length p ≤ m) paths
All-shorter n m [] h a = tt
All-shorter n m (p ∷ paths) h a = (omega arith, All-shorter n m paths h a.1)

IsDescending-insert :
    (path : List String) (paths : List (List String))
    → IsDescending paths
    → IsDescending (insert_path path paths)
unfolding insert_path
IsDescending-insert path [] d = (tt, tt)
IsDescending-insert path (p ∷ paths) d = elim (Bool-cases (leb (length p) (length path))) [
  | inl e ↦
      let shorter = leb→le (length p) (length path) e in
      rw e ((shorter, All-shorter (length p) (length path) paths shorter d.0), d)
  | inr e ↦
      rw e (All-insert (length p) path paths (ground arith) d.0, IsDescending-insert path paths d.1)
]

IsDescending-sort : (paths : List (List String)) → IsDescending (longest_first paths)
unfolding longest_first
IsDescending-sort [] = tt
IsDescending-sort (path ∷ paths) =
    IsDescending-insert path (longest_first paths) (IsDescending-sort paths)

-- A path not longer than any of the list may stand first or be inserted.
insert-shorter :
    (path : List String) (paths : List (List String))
    → All (λ p. length p ≤ length path) paths
    → insert_path path paths ≡ path ∷ paths
unfolding insert_path
insert-shorter path [] a = refl
insert-shorter path (p ∷ paths) a = ground arith

behind-shorter :
    (key : String) (n : ℕ) (paths : List (List String))
    → All (λ p. length p ≤ suc n) paths
    → All (λ p. length p ≤ n) (behind key paths)
unfolding behind
behind-shorter key n [] a = tt
behind-shorter key n ([] ∷ paths) a = behind-shorter key n paths a.1
behind-shorter key n ((k ∷ path) ∷ paths) a = elim (Bool-cases (k == key)) [
  | inl e ↦ rw e (omega arith, behind-shorter key n paths a.1)
  | inr e ↦ rw e (behind-shorter key n paths a.1)
]

behind-insert_empty :
    (key : String) (paths : List (List String))
    → behind key (insert_path [] paths) ≡ behind key paths
unfolding behind insert_path
behind-insert_empty key [] = refl
behind-insert_empty key (p ∷ paths) = elim (Bool-cases (leb (length p) 0)) [
  | inl e ↦ rw e refl
  | inr e ↦ rw e (behind_same key p (insert_path [] paths) paths (behind-insert_empty key paths))
]
  where
    behind_same :
        (key : String) (p : List String) (l m : List (List String))
        → behind key l ≡ behind key m
        → behind key (p ∷ l) ≡ behind key (p ∷ m)
    behind_same key [] l m h = h
    behind_same key (k ∷ path) l m h = rw h refl

pub behind-cons :
    (key k : String) (path : List String) (paths : List (List String))
    → behind key ((k ∷ path) ∷ paths)
      ≡ (if k == key then path ∷ behind key paths else behind key paths)
unfolding behind
behind-cons key k path paths = refl

-- The first place is right where no path of the list is longer.
behind-front :
    (key k : String) (path : List String) (paths : List (List String))
    → All (λ p. length p ≤ suc (length path)) paths
    → behind key ((k ∷ path) ∷ paths)
      ≡ (if k == key then insert_path path (behind key paths) else behind key paths)
unfolding behind
behind-front key k path paths a = elim (Bool-cases (k == key)) [
  | inl e ↦
      rw e (sym (insert-shorter path (behind key paths) (behind-shorter key (length path) paths a)))
  | inr e ↦ rw e refl
]

behind-insert :
    (key k : String) (path : List String) (paths : List (List String))
    → IsDescending paths
    → behind key (insert_path (k ∷ path) paths)
      ≡ (if k == key then insert_path path (behind key paths) else behind key paths)
unfolding insert_path
behind-insert key k path [] d = behind-front key k path [] tt
behind-insert key k path ([] ∷ paths) d =
    let e : leb 0 (suc (length path)) ≡ true = ground arith in
    rw e (
      behind-front key k path ([] ∷ paths)
        (omega arith, All-shorter 0 (suc (length path)) paths (omega arith) d.0))
behind-insert key k path ((j ∷ q) ∷ paths) d =
    elim (Bool-cases (leb (length (j ∷ q)) (length (k ∷ path)))) [
      | inl e ↦
          let shorter = leb→le (length (j ∷ q)) (length (k ∷ path)) e in
          rw e (
            behind-front key k path ((j ∷ q) ∷ paths)
              (shorter, All-shorter (length (j ∷ q)) (suc (length path)) paths shorter d.0))
      | inr e ↦
          rw
            (
              e,
              behind-cons key j q (insert_path (k ∷ path) paths),
              behind-cons key j q paths,
              behind-insert key k path paths d.1,
            )
            (elim (Bool-cases (j == key)) [
              | inl h ↦
                  rw h (elim (Bool-cases (k == key)) [
                    | inl g ↦ rw g (ground arith)
                    | inr g ↦ rw g refl
                  ])
              | inr h ↦ rw h refl
            ])
    ]

-- Sorting and taking the paths behind a key can be done in either order.
pub behind-longest_first :
    (key : String) (paths : List (List String))
    → behind key (longest_first paths) ≡ longest_first (behind key paths)
unfolding longest_first behind
behind-longest_first key [] = refl
behind-longest_first key ([] ∷ paths) =
    behind-insert_empty key (longest_first paths) ∙ behind-longest_first key paths
behind-longest_first key ((k ∷ path) ∷ paths) =
    behind-insert key k path (longest_first paths) (IsDescending-sort paths)
    ∙ (elim (Bool-cases (k == key)) [
      | inl e ↦ rw e (ap (insert_path path) (behind-longest_first key paths))
      | inr e ↦ rw e (behind-longest_first key paths)
    ])
