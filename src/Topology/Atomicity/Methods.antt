-- ===== src/Topology/Atomicity/Methods.antt =====
-- Methods of topology/topology.py that leave the stored topology as it was where they raise.
use e_pem.Prelude.{String, Bool, false, Option}
use e_pem.Result.{Result}
use e_pem.Exec.{Exec, ◌>>◌}
use e_pem.Network.{NetworkModel, RouterModel, PduModel}
use e_pem.Vim.{VimModel}
use e_pem.Kubernetes.{TopologyK8sModel}
use e_pem.Prometheus.{PrometheusServerModel}
use e_pem.TopologyModel.{TopologyModel}
use e_pem.TopologyModel.Pdus as PduList
use e_pem.Topology.{
  Topology, TopologyEventType, Dump, on_model, save_topology_from_model, trigger_redis_event,
}
use e_pem.Topology.Atomicity.{
  IsAtomic, atomic_rules, IsAtomic-locked, IsAtomic-pure, IsAtomic-except,
}
use e_pem.Topology.Vims.{add_vim, del_vim}
use e_pem.Topology.Networks.{no_names, flag, for_each_name, add_network_model, del_network_by_name}
use e_pem.Topology.Routers.{add_router, del_router}
use e_pem.Topology.Pdus.{add_pdu, upd_pdu, del_pdu}
use e_pem.Topology.Clusters.{add_k8scluster, del_k8scluster, update_k8scluster}
use e_pem.Topology.Servers.{add_prometheus_server, del_prometheus_server, update_prometheus_server}

module _ (d : Option TopologyModel) where
  pub add_vim-IsAtomic : (v : VimModel) → IsAtomic d (add_vim v false)
  unfolding add_vim
  add_vim-IsAtomic v = search atomic_rules depth 9

  pub del_vim-IsAtomic : (name : String) → IsAtomic d (del_vim name false)
  unfolding del_vim
  del_vim-IsAtomic name = search atomic_rules depth 9

  pub add_network_model-IsAtomic :
      (n : NetworkModel) (b : Bool) → IsAtomic d (add_network_model n (flag b) false)
  unfolding add_network_model for_each_name
  add_network_model-IsAtomic n b = search atomic_rules depth 9

  pub del_network_by_name-IsAtomic : (n : String) → IsAtomic d (del_network_by_name n false)
  unfolding del_network_by_name
  del_network_by_name-IsAtomic n = search atomic_rules depth 9

  pub add_router-IsAtomic : (r : RouterModel) → IsAtomic d (add_router r)
  unfolding add_router
  add_router-IsAtomic r = search atomic_rules depth 9

  pub del_router-IsAtomic : (name : String) → IsAtomic d (del_router name no_names)
  unfolding del_router for_each_name
  del_router-IsAtomic name = search atomic_rules depth 9

  store_pdu : PduModel → Exec Topology (Unit {0})
  store_pdu pdu = do
    on_model (PduList.add_pdu pdu)
    save_topology_from_model
    trigger_redis_event TopologyEventType.topo_create_pdu (Dump.of_pdu pdu)

  store_pdu-IsAtomic : (pdu : PduModel) → IsAtomic d (store_pdu pdu)
  unfolding store_pdu
  store_pdu-IsAtomic pdu = search atomic_rules depth 9

  pub add_pdu-IsAtomic : (pdu : PduModel) → IsAtomic d (add_pdu pdu)
  unfolding add_pdu store_pdu
  add_pdu-IsAtomic pdu =
      IsAtomic-locked d _
        (IsAtomic-pure d _ tt (IsAtomic-except d (store_pdu pdu) (store_pdu-IsAtomic pdu)))

  pub upd_pdu-IsAtomic : (pdu : PduModel) → IsAtomic d (upd_pdu pdu)
  unfolding upd_pdu
  upd_pdu-IsAtomic pdu = search atomic_rules depth 9

  pub del_pdu-IsAtomic : (name : String) → IsAtomic d (del_pdu name)
  unfolding del_pdu
  del_pdu-IsAtomic name = search atomic_rules depth 9

  pub add_k8scluster-IsAtomic : (c : TopologyK8sModel) → IsAtomic d (add_k8scluster c)
  unfolding add_k8scluster
  add_k8scluster-IsAtomic c = search atomic_rules depth 9

  pub del_k8scluster-IsAtomic : (name : String) → IsAtomic d (del_k8scluster name)
  unfolding del_k8scluster
  del_k8scluster-IsAtomic name = search atomic_rules depth 9

  pub update_k8scluster-IsAtomic : (c : TopologyK8sModel) → IsAtomic d (update_k8scluster c)
  unfolding update_k8scluster
  update_k8scluster-IsAtomic c = search atomic_rules depth 9

  pub add_prometheus_server-IsAtomic :
      (p : PrometheusServerModel) → IsAtomic d (add_prometheus_server p)
  unfolding add_prometheus_server
  add_prometheus_server-IsAtomic p = search atomic_rules depth 9

  pub del_prometheus_server-IsAtomic :
      (f : String → Result (Unit {0})) (id : String) (force : Bool)
      → IsAtomic d (del_prometheus_server f id force)
  unfolding del_prometheus_server
  del_prometheus_server-IsAtomic f id force = search atomic_rules depth 9

  pub update_prometheus_server-IsAtomic :
      (f : PrometheusServerModel → Result (Unit {0})) (p : PrometheusServerModel)
      → IsAtomic d (update_prometheus_server f p)
  unfolding update_prometheus_server
  update_prometheus_server-IsAtomic f p = search atomic_rules depth 9
