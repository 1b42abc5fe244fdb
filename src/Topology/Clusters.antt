-- ===== src/Topology/Clusters.antt =====
-- Kubernetes clusters in topology/topology.py.
use e_pem.Prelude.{String}
use e_pem.Exec.{Exec, ◌>>=◌, ◌>>◌}
use e_pem.Kubernetes.{TopologyK8sModel}
use e_pem.Topology.{
  Topology, locked, on_model, save_topology_from_model, trigger_redis_event, TopologyEventType,
  Dump,
}
use e_pem.TopologyModel.Clusters as ClusterList

unfoldable pub add_k8scluster : TopologyK8sModel → Exec Topology (Unit {0})
unfolding locked on_model save_topology_from_model trigger_redis_event
add_k8scluster cluster = locked (do
  on_model (ClusterList.add_k8s_cluster cluster)
  save_topology_from_model
  trigger_redis_event TopologyEventType.topo_create_k8s (Dump.of_k8s cluster))

unfoldable pub del_k8scluster : String → Exec Topology (Unit {0})
unfolding locked on_model save_topology_from_model trigger_redis_event
del_k8scluster cluster_id = locked (do
  k8s_deleted_cluster ← on_model (ClusterList.del_k8s_cluster cluster_id)
  save_topology_from_model
  trigger_redis_event TopologyEventType.topo_delete_k8s (Dump.of_k8s k8s_deleted_cluster))

unfoldable pub update_k8scluster : TopologyK8sModel → Exec Topology (Unit {0})
unfolding locked on_model save_topology_from_model trigger_redis_event
update_k8scluster cluster = locked (do
  updated_cluster ← on_model (ClusterList.upd_k8s_cluster cluster)
  save_topology_from_model
  trigger_redis_event TopologyEventType.topo_update_k8s (Dump.of_k8s updated_cluster))
