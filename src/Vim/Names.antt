-- ===== src/Vim/Names.antt =====
-- models/vim/vim_models.py: what the methods of a VIM do to its lists of names.
use e_pem.Prelude.{
  String, ◌≡◌, ◌≢◌, refl, subst, true, false, Option, none, some, List, [], ◌∷◌, ◌++◌, ◌||◌, ◌==◌,
  arith, eq_iff, eq_refl, Bool-cases, inl, inr,
}
use e_pem.Result.{ok, value_error}
use e_pem.PyList.{contains, find_first, remove_first}
use e_pem.PyList.Keyed.{HasUniqueKeys, HasUniqueKeys-append, HasUniqueKeys-remove_first}
use e_pem.PyList.Search.{index-pop_at}
use e_pem.Vim.{VimModel, is_in, pop_name, add_net, del_net, add_router, del_router, get_router}

find_first-is_in :
    (n : String) (l : List String) → is_in n l ≡ true → find_first (λ x. x == n) l ≡ some n
unfolding contains find_first
find_first-is_in n [] h = absurd (ground arith)
find_first-is_in n (x ∷ xs) h = ground (arith, find_first-is_in n xs, eq_iff x n)

-- `names.pop(names.index(n))` takes off the first `n`.
pop_name-is_in :
    (n : String) (l : List String)
    → is_in n l ≡ true
    → pop_name n l ≡ ok (n, remove_first (λ x. x == n) l)
unfolding pop_name
pop_name-is_in n l h = rw (index-pop_at (λ x. x == n) value_error l, find_first-is_in n l h) refl

remove-appended :
    (n : String) (l : List String)
    → is_in n l ≡ false
    → (is_in n (l ++ n ∷ []) ≡ true) × (remove_first (λ x. x == n) (l ++ n ∷ []) ≡ l)
unfolding contains remove_first
remove-appended n [] h = (ground (arith, eq_refl n), ground (arith, eq_refl n))
remove-appended n (x ∷ xs) h =
    let (there, gone) = remove-appended n xs (ground arith) in (ground arith, ground arith)

-- Removing a network that was just added to a VIM gives the VIM as it was, and the name. The network
-- must be new to the VIM and its name not empty.
pub del_net-add_net :
    (n : String) (v : VimModel)
    → is_in n v.networks ≡ false
    → n ≢ ""
    → del_net n (add_net n v) ≡ ok (some n, v)
unfolding del_net add_net
del_net-add_net n v absent named =
    let (there, gone) = remove-appended n v.networks absent in
    ground (arith, eq_iff n "", pop_name-is_in n (v.networks ++ n ∷ []))

-- Removing a router that was just added to a VIM leaves it there, unless a network of the VIM has the
-- same name: the router is looked for among the networks. The name must not be empty.
pub del_router-add_router :
    (n : String) (v : VimModel)
    → is_in n v.networks ≡ false
    → n ≢ ""
    → (del_router n (add_router n v) ≡ ok (none, add_router n v))
      × (get_router n (add_router n v) ≡ some n)
unfolding del_router add_router get_router
del_router-add_router n v absent named = elim (Bool-cases (is_in n v.routers)) [
  | inl there ↦ (ground arith, ground arith)
  | inr new ↦
      let (there, gone) = remove-appended n v.routers new in
      (ground arith, ground (arith, eq_iff n ""))
]

-- The networks of a VIM stay without duplicates, whatever is added or removed.
pub nets-HasUniqueKeys :
    (n : String) (v v' : VimModel) (a : Option String)
    → HasUniqueKeys (λ x. x) v.networks
    → del_net n v ≡ ok (a, v')
    → HasUniqueKeys (λ x. x) (add_net n v).networks × HasUniqueKeys (λ x. x) v'.networks
unfolding add_net del_net
nets-HasUniqueKeys n v v' a u e = (
  elim (Bool-cases (is_in n v.networks || n == "")) [
    | inl skip ↦ rw skip u
    | inr new ↦ rw new (HasUniqueKeys-append (λ x. x) v.networks n (ground arith) u)
  ],
  elim (Bool-cases (is_in n v.networks)) [
    | inr absent ↦
        subst (λ w. HasUniqueKeys (λ x. x) w.networks) (let same : v ≡ v' = ground arith in same) u
    | inl there ↦
        let rest : List String = remove_first (λ x. x == n) v.networks in
        subst (HasUniqueKeys (λ x. x))
          (let same : rest ≡ v'.networks = ground (arith, pop_name-is_in n v.networks there) in
            same)
          (HasUniqueKeys-remove_first (λ x. x) (λ x. x == n) v.networks u)
  ],
)
