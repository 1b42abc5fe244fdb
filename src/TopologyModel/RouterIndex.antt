-- ===== src/TopologyModel/RouterIndex.antt =====
-- models/topology/topology_models.py: routers are looked for among the VIMs.
use e_pem.Prelude.{◌≡◌, true, none, List, [], ◌∷◌, ◌++◌, ◌==◌, arith, eq_refl, Bool-cases, inl, inr}
use e_pem.Result.{ok, err, value_error}
use e_pem.PyList.{contains, index_or}
use e_pem.PyList.Keyed.{view}
use e_pem.PyList.Search.{find_index-none}
use e_pem.Network.{RouterModel}
use e_pem.TopologyModel.{TopologyModel, find_router_index}
use e_pem.TopologyModel.Routers.{add_router, get_router, del_router}

contains-last :
    (r : RouterModel) (l : List RouterModel) → contains (λ x. x.name == r.name) (l ++ r ∷ []) ≡ true
unfolding contains
contains-last r [] = ground (arith, eq_refl r.name)
contains-last r (x ∷ xs) = ground (arith, contains-last r xs)

-- A router that was just added to the topology is in its list and yet not found, and cannot be
-- deleted, unless a VIM has its name.
pub router-unreachable :
    (r : RouterModel) (m m' : TopologyModel) (a : RouterModel)
    → add_router r m ≡ ok (a, m')
    → view (λ v. v.name) m.vims r.name ≡ none
    → (contains (λ item. item.name == r.name) m'.routers ≡ true)
      × (get_router r.name m' ≡ err value_error)
      × (del_router r.name m' ≡ err value_error)
unfolding add_router get_router del_router find_router_index index_or
router-unreachable r m m' a e absent =
    let missing = find_index-none (λ v. v.name == r.name) m.vims absent in
    elim (Bool-cases (contains (λ item. item.name == r.name) m.routers)) [
      | inl there ↦ absurd (ground arith)
      | inr new ↦ (ground (arith, contains-last r m.routers), ground arith, ground arith)
    ]
