-- ===== src/References/Rewriting.antt =====
-- Changing the found objects one path at a time, the longest first, is one recursion over the tree.
use mathlib.Core.List.{append-nil, append_assoc, map-append}
use e_pem.Prelude.{
  String, ◌≡◌, refl, sym, ap, ◌∙◌, Bool, false, ◌||◌, List, [], ◌∷◌, ◌++◌, ◌==◌, map, Bool-cases,
  inl, inr,
}
use e_pem.References.{
  Value, Members, text, reference, scalar, node, last, member, here, find_field_occurrences,
  find_in_members,
}

-- a dictionary has each key once
unfoldable pub has_key : String → Members → Bool
has_key key last = false
has_key key (member k value rest) = k == key || has_key key rest

unfoldable mutual
  pub HasKeysOnce : Value → Type 0
  HasKeysOnce (text s) = Unit
  HasKeysOnce (reference id) = Unit
  HasKeysOnce scalar = Unit
  HasKeysOnce (node c members) = AllOnce members

  pub AllOnce : Members → Type 0
  AllOnce last = Unit
  AllOnce (member key value rest) = (has_key key rest ≡ false) × HasKeysOnce value × AllOnce rest

module _ (check_fun : Value → Bool) where
  unfoldable mutual
    pub paths : Value → List (List String)
    paths (text s) = here check_fun (text s) []
    paths (reference id) = here check_fun (reference id) []
    paths scalar = here check_fun scalar []
    paths (node c members) = here check_fun (node c members) [] ++ paths_in members

    pub paths_in : Members → List (List String)
    paths_in last = []
    paths_in (member key value rest) = map (λ p. key ∷ p) (paths value) ++ paths_in rest

  here_prefixed :
      (obj : Value) (path : List String)
      → here check_fun obj path ≡ map (λ p. path ++ p) (here check_fun obj [])
  here_prefixed obj path = elim (Bool-cases (check_fun obj)) [
    | inl e ↦ rw e (ap (λ p. p ∷ []) (sym (append-nil path)))
    | inr e ↦ rw e refl
  ]

  map-prefix :
      (path : List String) (key : String) (l : List (List String))
      → map (λ p. (path ++ key ∷ []) ++ p) l ≡ map (λ p. path ++ p) (map (λ p. key ∷ p) l)
  map-prefix path key [] = refl
  map-prefix path key (p ∷ l) =
      ap (λ q. q ∷ map (λ p. (path ++ key ∷ []) ++ p) l) (append_assoc path (key ∷ []) p)
      ∙ ap (λ m. (path ++ key ∷ p) ∷ m) (map-prefix path key l)

  mutual
    unfolding find_field_occurrences paths

    pub find-paths :
        (v : Value) (path : List String)
        → find_field_occurrences check_fun v path ≡ map (λ p. path ++ p) (paths v)
    find-paths (text s) path = here_prefixed (text s) path
    find-paths (reference id) path = here_prefixed (reference id) path
    find-paths scalar path = here_prefixed scalar path
    find-paths (node c members) path =
        ap (λ l. l ++ find_in_members check_fun members path) (here_prefixed (node c members) path)
        ∙ ap (λ l. map (λ p. path ++ p) (here check_fun (node c members) []) ++ l)
            (find_in-paths members path)
        ∙ sym (map-append (λ p. path ++ p) (here check_fun (node c members) []) (paths_in members))

    find_in-paths :
        (members : Members) (path : List String)
        → find_in_members check_fun members path ≡ map (λ p. path ++ p) (paths_in members)
    find_in-paths last path = refl
    find_in-paths (member key value rest) path =
        ap (λ l. l ++ find_in_members check_fun rest path)
          (find-paths value (path ++ key ∷ []) ∙ map-prefix path key (paths value))
        ∙ ap (λ l. map (λ p. path ++ p) (map (λ p. key ∷ p) (paths value)) ++ l)
            (find_in-paths rest path)
        ∙ sym (map-append (λ p. path ++ p) (map (λ p. key ∷ p) (paths value)) (paths_in rest))
