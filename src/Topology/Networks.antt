-- ===== src/Topology/Networks.antt =====
-- Networks in topology/topology.py.
use e_pem.Prelude.{
  ℕ, suc, String, Bool, true, Option, none, some, List, [], ◌∷◌, ◌==◌, not, if◌then◌else◌,
}
use e_pem.Result.{Result, ok, err, type_error, attribute_error}
use e_pem.Exec.{Exec, ◌>>=◌, ◌>>◌, pure, raise, for_each}
use e_pem.PyList.{find_first, select}
use e_pem.Network.{NetworkModel}
use e_pem.Vim.{VimModel, is_in}
use e_pem.TopologyModel.{TopologyModel, find_vim_index}
use e_pem.Topology.{
  Topology, locked, on_model, read_model, save_topology_from_model, trigger_redis_event,
  TopologyEventType, Dump,
}
use e_pem.Topology.VimUpdates.{add_vim_net, del_vim_net}
use e_pem.TopologyModel.Networks as NetList
use e_pem.TopologyModel.Vims as VimList

-- get_network and get_network_model. `vim.get_net` logs a missing network, and raises nothing.
unfoldable pub get_network_model : String → Option String → Exec Topology NetworkModel
unfolding read_model
get_network_model net_name none = read_model (NetList.get_network net_name)
get_network_model net_name (some vim_name) = do
  net_model ← read_model (NetList.get_network net_name)
  if vim_name == ""
      then pure net_model
      else (do vim ← read_model (VimList.get_vim vim_name); pure net_model)

-- The argument `vim_names_list`, of which the worker passes a Boolean.
pub data VimNames : Type 0 where
  no_names : VimNames
  flag : Bool → VimNames
  names : List String → VimNames

-- if vim_names_list: for vim_name in vim_names_list: body
unfoldable pub for_each_name :
    VimNames → (String → Exec Topology (Unit {0})) → Exec Topology (Unit {0})
unfolding for_each pure raise
for_each_name no_names body = pure tt
for_each_name (flag b) body = if b then raise type_error else pure tt
for_each_name (names l) body = for_each l body

-- add_network and add_network_model
unfoldable pub add_network_model : NetworkModel → VimNames → Bool → Exec Topology NetworkModel
unfolding for_each_name locked on_model read_model add_vim_net save_topology_from_model
    trigger_redis_event
add_network_model network_model vim_names_list terraform = locked (do
  added_network ← on_model (NetList.add_network network_model)
  for_each_name vim_names_list (λ vim_name. do
    vim ← read_model (find_vim_index vim_name)
    add_vim_net network_model.name vim terraform)
  save_topology_from_model
  trigger_redis_event TopologyEventType.topo_create_network (Dump.of_network network_model)
  pure added_network)

-- the names of the VIMs of the areas
unfoldable pub vim_names_of_areas : List ℕ → TopologyModel → Result (List String)
vim_names_of_areas [] m = ok []
vim_names_of_areas (a ∷ areas) m =
    let rest = vim_names_of_areas areas m in
    elim (VimList.get_vim_name_by_area a m) [
      | err e ↦ err e
      | ok name ↦ elim rest [ err e ↦ err e | ok ns ↦ ok (name ∷ ns) ]
    ]

unfoldable pub add_network_by_area : NetworkModel → List ℕ → Bool → Exec Topology NetworkModel
unfolding vim_names_of_areas read_model add_network_model
add_network_by_area network areas terraform = do
  vims ← read_model (vim_names_of_areas areas)
  add_network_model network (names vims) terraform

unfoldable pub del_network : NetworkModel → VimNames → Bool → Exec Topology (Unit {0})
unfolding for_each_name locked on_model read_model del_vim_net save_topology_from_model
    trigger_redis_event
del_network network vim_names_list terraform = locked (do
  for_each_name vim_names_list (λ vim_name. do
    vim ← read_model (find_vim_index vim_name)
    del_vim_net network.name vim terraform
    pure tt)
  on_model (NetList.del_network network.name)
  save_topology_from_model
  trigger_redis_event TopologyEventType.topo_delete_network (Dump.of_network network))

-- The loop over the VIMs under `if terraform`, by the positions from `i` on.
unfoldable pub del_net_on_vims : String → ℕ → List VimModel → Exec Topology (Unit {0})
unfolding del_vim_net pure
del_net_on_vims network_name i [] = pure tt
del_net_on_vims network_name i (vim ∷ vims) = do
  if is_in network_name vim.networks then (del_vim_net network_name i true >> pure tt) else pure tt
  del_net_on_vims network_name (suc i) vims

unfoldable pub del_network_by_name : String → Bool → Exec Topology (Unit {0})
unfolding del_net_on_vims locked on_model read_model save_topology_from_model trigger_redis_event
del_network_by_name network_name terraform = locked (do
  vims ← read_model (λ m. ok m.vims)
  if terraform then del_net_on_vims network_name 0 vims else pure tt
  delete_net ← on_model (NetList.del_network network_name)
  save_topology_from_model
  trigger_redis_event TopologyEventType.topo_delete_network (Dump.of_network delete_net))

-- get_network_endpoints with the name of a VIM takes `.name` of the names of the VIM's networks.
unfoldable pub get_network_endpoints : Option String → TopologyModel → Result (List NetworkModel)
get_network_endpoints none model = ok (select (λ net. not net.external) model.networks)
get_network_endpoints (some vim_name) model =
    if vim_name == ""
    then ok (select (λ net. not net.external) model.networks)
    else elim (find_first (λ vim. vim.name == vim_name) model.vims) [
      | none ↦ ok []
      | some vim ↦ elim vim.networks [ [] ↦ ok [] | n ∷ ns ↦ err attribute_error ]
    ]
