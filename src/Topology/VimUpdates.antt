-- ===== src/Topology/VimUpdates.antt =====
-- The section "VIM updating" of topology/topology.py. A reference to a VIM of the model is its
-- position in the list of VIMs, which no method changes while it holds such a reference.
use e_pem.Prelude.{ℕ, String, Bool, Option, none, some, List, [], ◌∷◌, ◌==◌, ◌&&◌, if◌then◌else◌}
use e_pem.Result.{Result, ok, err, key_error, type_error, index_error}
use e_pem.Result
use e_pem.Exec.{Exec, ◌>>=◌, ◌>>◌, pure, lift, for_each}
use e_pem.PyList.{find_first, get_at, set_at}
use e_pem.Network.{NetworkModel, RouterPortModel}
use e_pem.Vim
use e_pem.Vim.{VimModel}
use e_pem.TopologyModel.{TopologyModel, find_vim_index}
use e_pem.TopologyModel.Networks.{get_network}
use e_pem.TopologyModel.Routers.{get_router}
use e_pem.Topology.{Topology, on_model, read_model, save_topology_from_model, os_terraformer}

-- a method of the VIM that `vim` refers to
unfoldable pub vim_method :
    {A : Type 0}
    → ℕ
    → (VimModel → Result (A × VimModel))
    → TopologyModel
    → Result (A × TopologyModel)
vim_method vim f m = Result.◌>>=◌ (get_at m.vims vim) (λ v.
    Result.◌>>=◌ (f v)
      (λ r. Result.◌>>=◌ (set_at m.vims vim r.1) (λ vims. ok (r.0, record m { vims = vims }))))

unfoldable pub on_vim : {A : Type 0} → ℕ → (VimModel → Result (A × VimModel)) → Exec Topology A
unfolding vim_method on_model
on_vim vim f = on_model (vim_method vim f)

unfoldable pub vim_of : ℕ → Exec Topology VimModel
unfolding read_model
vim_of vim = read_model (λ m. get_at m.vims vim)

-- _add_vim_net
unfoldable pub add_vim_net : String → ℕ → Bool → Exec Topology (Unit {0})
unfolding on_vim vim_of os_terraformer pure
add_vim_net vim_net_name vim terraform = do
  on_vim vim (λ v. ok (tt, Vim.add_net vim_net_name v))
  topo_net ← read_model (get_network vim_net_name)
  v ← vim_of vim
  if terraform then os_terraformer v.name else pure tt

-- _del_vim_net
unfoldable pub del_vim_net : String → ℕ → Bool → Exec Topology (Option String)
unfolding on_vim vim_of os_terraformer pure save_topology_from_model
del_vim_net vim_net_name vim terraform = do
  v ← vim_of vim
  vim_model ← read_model (find_vim_index v.name)
  removed_net ← on_vim vim_model (Vim.del_net vim_net_name)
  if terraform then os_terraformer v.name else pure tt
  save_topology_from_model
  pure removed_net

unfoldable pub del_vim_router : String → ℕ → Bool → Exec Topology (Unit {0})
unfolding on_vim vim_of os_terraformer pure
del_vim_router vim_router_name vim terraform = do
  on_vim vim (Vim.del_router vim_router_name)
  v ← vim_of vim
  if terraform then os_terraformer v.name else pure tt

-- d[key]
unfoldable pub dict_get : String → List (String × String) → Result String
dict_get key [] = err key_error
dict_get key ((k, v) ∷ d) = if k == key then ok v else dict_get key d

-- next((item for item in ids if item['vim'] == name), None)
unfoldable pub find_ids :
    String → List (List (String × String)) → Result (Option (List (String × String)))
unfolding dict_get
find_ids name [] = ok none
find_ids name (item ∷ items) =
    let rest = find_ids name items in
    Result.◌>>=◌ (dict_get "vim" item) (λ vim. if vim == name then ok (some item) else rest)

-- the gateway entries that are built for a port on an external network: what can raise in them
unfoldable pub gateway_info : NetworkModel → Option (List (String × String)) → Result (Unit {0})
unfolding dict_get
gateway_info ext_net none = err type_error
gateway_info ext_net (some ids) = Result.◌>>=◌ (dict_get "l2net_id" ids) (λ _.
    Result.◌>>=◌ (get_at ext_net.allocation_pool 0)
      (λ _. Result.◌>>=◌ (dict_get "l3net_id" ids) (λ _. ok tt)))

-- The body of the loop over the ports. It fills a copy of the router, which only the terraformer
-- would read. `'ip_addr' in port` is false: iterating a model gives pairs.
unfoldable pub visit_port : VimModel → List NetworkModel → RouterPortModel → Result (Unit {0})
unfolding find_ids gateway_info
visit_port vim networks port =
    elim (find_first (λ network. network.name == port.net && network.external) networks) [
      | none ↦ ok tt
      | some ext_net ↦ Result.◌>>=◌ (find_ids vim.name ext_net.ids) (gateway_info ext_net)
    ]

unfoldable pub add_vim_router : String → ℕ → Bool → Exec Topology (Unit {0})
unfolding on_vim vim_of visit_port os_terraformer pure save_topology_from_model
add_vim_router vim_router_name vim terraform = do
  on_vim vim (λ v. ok (tt, Vim.add_router vim_router_name v))
  router ← read_model (get_router vim_router_name)
  v ← vim_of vim
  networks ← read_model (λ m. ok m.networks)
  for_each router.ports (λ port. lift (visit_port v networks port))
  if terraform then os_terraformer v.name else pure tt
  save_topology_from_model
