-- ===== src/Topology/Servers.antt =====
-- Prometheus servers in topology/topology.py. What happens on files and on the remote server is a parameter.
use e_pem.Prelude.{String, Bool}
use e_pem.Result.{Result}
use e_pem.Exec.{Exec, ◌>>=◌, ◌>>◌, pure, lift}
use e_pem.Prometheus.{PrometheusServerModel}
use e_pem.Topology.{
  Topology, locked, on_model, save_topology_from_model, trigger_redis_event, TopologyEventType,
  Dump,
}
use e_pem.TopologyModel.Servers as ServerList

unfoldable pub add_prometheus_server : PrometheusServerModel → Exec Topology (Unit {0})
unfolding locked on_model save_topology_from_model trigger_redis_event
add_prometheus_server prom_server = locked (do
  on_model (ServerList.add_prometheus_srv prom_server)
  save_topology_from_model
  trigger_redis_event TopologyEventType.topo_create_prom_srv (Dump.of_prom_srv prom_server))

-- `remove_files` is remove_files_by_pattern on the server's identifier.
unfoldable pub del_prometheus_server :
    (String → Result (Unit {0})) → String → Bool → Exec Topology PrometheusServerModel
unfolding locked on_model lift save_topology_from_model trigger_redis_event pure
del_prometheus_server remove_files prom_srv_id force = locked (do
  deleted ← on_model (ServerList.del_prometheus_srv prom_srv_id force)
  lift (remove_files prom_srv_id)
  save_topology_from_model
  trigger_redis_event TopologyEventType.topo_delete_prom_srv (Dump.of_prom_srv deleted)
  pure deleted)

-- `update_remote_sd_file` is the upload to the server.
unfoldable pub update_prometheus_server :
    (PrometheusServerModel → Result (Unit {0})) → PrometheusServerModel → Exec Topology (Unit {0})
unfolding locked on_model lift save_topology_from_model trigger_redis_event
update_prometheus_server update_remote_sd_file prom_server = locked (do
  updated ← on_model (ServerList.upd_prometheus_srv prom_server)
  lift (update_remote_sd_file prom_server)
  save_topology_from_model
  trigger_redis_event TopologyEventType.topo_update_prom_srv (Dump.of_prom_srv updated))
