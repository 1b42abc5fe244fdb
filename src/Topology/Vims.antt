-- ===== src/Topology/Vims.antt =====
-- VIMs in topology/topology.py, and the searches over routers that they need.
use e_pem.Prelude.{
  ℕ, String, Bool, true, false, Option, none, some, List, ◌==◌, ◌||◌, if◌then◌else◌,
}
use e_pem.Result.{ok}
use e_pem.Exec.{Exec, ◌>>=◌, ◌>>◌, pure, for_each, except_value_error}
use e_pem.PyList.{contains, select, get_at, length}
use e_pem.Network.{RouterModel}
use e_pem.Vim
use e_pem.Vim.{VimModel, UpdateVimModel, is_in}
use e_pem.TopologyModel.{TopologyModel, find_vim_index}
use e_pem.Topology.{
  Topology, locked, on_model, read_model, save_topology_from_model, trigger_redis_event,
  trigger_topology_event, os_terraformer, TopologyEventType, Dump,
}
use e_pem.Topology.VimUpdates.{on_vim, add_vim_net, del_vim_net, add_vim_router, del_vim_router}
use e_pem.TopologyModel.Vims as VimList

-- get_routers_in_net and get_routers_in_net_model
unfoldable pub get_routers_in_net : String → TopologyModel → List RouterModel
get_routers_in_net net_name model =
    select (λ router. contains (λ item. item.net == net_name) router.ports) model.routers

unfoldable pub has_snat : RouterModel → Bool
has_snat router = elim router.external_gateway_info [
  | none ↦ false
  | some info ↦ elim info.enable_snat [ none ↦ false | some b ↦ b ]
]

unfoldable pub check_floating_ips : String → TopologyModel → Bool
unfolding get_routers_in_net has_snat
check_floating_ips net_name model = contains has_snat (get_routers_in_net net_name model)

-- what add_vim computes of the floating addresses, for a dictionary that nothing reads
unfoldable pub uses_floating_ip : VimModel → TopologyModel → Bool
unfolding check_floating_ips
uses_floating_ip vim_model model =
    vim_model.use_floating_ip || contains (λ n. check_floating_ips n model) vim_model.networks

-- the resources of a new VIM; `vim` refers to it
unfoldable pub terraform_vim : VimModel → ℕ → Exec Topology (Unit {0})
unfolding add_vim_net add_vim_router
terraform_vim vim_model vim = do
  for_each vim_model.networks (λ vim_net. add_vim_net vim_net vim true)
  for_each vim_model.routers (λ vim_router. add_vim_router vim_router vim false)

unfoldable pub add_vim : VimModel → Bool → Exec Topology (Unit {0})
unfolding terraform_vim locked on_model save_topology_from_model trigger_topology_event
add_vim vim_model terraform = locked (do
  vim ← read_model (λ m. ok (length m.vims))
  on_model (VimList.add_vim vim_model)
  if terraform then terraform_vim vim_model vim else pure tt
  save_topology_from_model
  use_floating_ip ← read_model (λ m. ok (uses_floating_ip vim_model m))
  trigger_topology_event TopologyEventType.topo_vim_create)

-- the resources of a VIM that is deleted: routers, then networks, of the topology and of the VIM
unfoldable pub destroy_resources : VimModel → Exec Topology (Unit {0})
unfolding os_terraformer
destroy_resources vim_model = do
  routers ← read_model (λ m. ok m.routers)
  for_each routers (λ router.
      if is_in router.name vim_model.routers then os_terraformer vim_model.name else pure tt)
  networks ← read_model (λ m. ok m.networks)
  for_each networks
      (λ net. if is_in net.name vim_model.networks then os_terraformer vim_model.name else pure tt)

unfoldable pub del_vim : String → Bool → Exec Topology (Unit {0})
unfolding destroy_resources locked on_model read_model save_topology_from_model
    trigger_topology_event
del_vim vim_name terraform = locked (do
  vim_model ← read_model (VimList.get_vim vim_name)
  if terraform then destroy_resources vim_model else pure tt
  on_model (VimList.del_vim vim_model.name)
  save_topology_from_model
  trigger_topology_event TopologyEventType.topo_vim_del)

-- the six loops of update_vim
unfoldable pub apply_update : UpdateVimModel → ℕ → Bool → Exec Topology (Unit {0})
unfolding add_vim_net del_vim_net add_vim_router del_vim_router on_vim
apply_update update_msg vim terraform = do
  for_each update_msg.networks_to_add (λ vim_net. add_vim_net vim_net vim terraform)
  for_each update_msg.networks_to_del (λ vim_net. del_vim_net vim_net vim terraform)
  for_each update_msg.routers_to_add (λ vim_router. add_vim_router vim_router vim terraform)
  for_each update_msg.routers_to_del (λ vim_router. del_vim_router vim_router vim terraform)
  for_each update_msg.areas_to_add (λ vim_area. on_vim vim (λ v. ok (tt, Vim.add_area vim_area v)))
  for_each update_msg.areas_to_del (λ vim_area. on_vim vim (Vim.del_area vim_area))

unfoldable pub update_found : UpdateVimModel → Bool → Option ℕ → Exec Topology (Unit {0})
unfolding apply_update read_model save_topology_from_model trigger_redis_event pure
update_found update_msg terraform none = pure tt
update_found update_msg terraform (some vim) = do
  apply_update update_msg vim terraform
  save_topology_from_model
  vim_model ← read_model (λ m. get_at m.vims vim)
  trigger_redis_event TopologyEventType.topo_vim_update (Dump.of_vim vim_model)

-- A missing VIM is logged, and nothing is done.
unfoldable pub update_vim : UpdateVimModel → Bool → Exec Topology (Unit {0})
unfolding update_found locked except_value_error
update_vim update_msg terraform = locked (do
  vim ← except_value_error (read_model (find_vim_index update_msg.name))
  update_found update_msg terraform vim)
