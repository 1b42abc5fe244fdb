-- ===== src/Topology/Routers.antt =====
-- Routers in topology/topology.py.
use e_pem.Prelude.{String, Option, none, some}
use e_pem.Result.{Result, ok}
use e_pem.Exec.{Exec, ◌>>=◌, ◌>>◌, pure}
use e_pem.Network.{RouterModel}
use e_pem.Vim
use e_pem.Vim.{VimModel, UpdateVimModel, is_in}
use e_pem.TopologyModel.{find_vim_index}
use e_pem.Topology.{
  Topology, locked, on_model, read_model, save_topology_from_model, trigger_redis_event,
  TopologyEventType, Dump,
}
use e_pem.Topology.VimUpdates.{on_vim}
use e_pem.TopologyModel.Routers as RouterList
use e_pem.Topology.Networks.{VimNames, for_each_name}

unfoldable pub add_router : RouterModel → Exec Topology (Unit {0})
unfolding locked on_model save_topology_from_model trigger_redis_event
add_router router = locked (do
  on_model (RouterList.add_router router)
  save_topology_from_model
  trigger_redis_event TopologyEventType.topo_created_router (Dump.of_router router))

-- vim.del_router(vim.get_router(name)): where the VIM has no such router, None is looked for among
-- its networks and not found, and nothing is done.
unfoldable pub drop_router : String → VimModel → Result (Option String × VimModel)
drop_router name vim = elim (Vim.get_router name vim) [
  | none ↦ ok (none, vim)
  | some vim_router ↦ Vim.del_router vim_router vim
]

unfoldable pub del_router : String → VimNames → Exec Topology (Unit {0})
unfolding for_each_name drop_router locked on_model on_vim read_model save_topology_from_model
    trigger_redis_event
del_router router_name vim_names_list = locked (do
  router ← on_model (RouterList.del_router router_name)
  for_each_name vim_names_list (λ vim_name. do
    vim ← read_model (find_vim_index vim_name)
    on_vim vim (drop_router router.name)
    pure tt)
  save_topology_from_model
  trigger_redis_event TopologyEventType.topo_deleted_router (Dump.of_router router))
