-- ===== src/Topology/Soundness/ItemMethods.antt =====
-- topology/topology.py, the uniqueness of names: clusters, servers and PDUs.
use e_pem.Prelude.{String, Bool}
use e_pem.Result.{Result}
use e_pem.Exec.Rules.{Keeps}
use e_pem.Network.{PduModel}
use e_pem.Kubernetes.{TopologyK8sModel}
use e_pem.Prometheus.{PrometheusServerModel}
use e_pem.TopologyModel.Preservation.{
  add_pdu-Preserves, upd_pdu-Preserves, del_pdu-Preserves, add_k8s_cluster-Preserves,
  upd_k8s_cluster-Preserves, del_k8s_cluster-Preserves, add_prometheus_srv-Preserves,
  upd_prometheus_srv-Preserves, del_prometheus_srv-Preserves,
}
use e_pem.Topology.Soundness.{IsSound, sound_rules}
use e_pem.Topology.Pdus.{add_pdu, upd_pdu, del_pdu}
use e_pem.Topology.Clusters.{add_k8scluster, del_k8scluster, update_k8scluster}
use e_pem.Topology.Servers.{add_prometheus_server, del_prometheus_server, update_prometheus_server}

pub add_k8scluster-IsSound : (c : TopologyK8sModel) → Keeps IsSound (add_k8scluster c)
unfolding add_k8scluster
add_k8scluster-IsSound c = search (sound_rules, add_k8s_cluster-Preserves)

pub del_k8scluster-IsSound : (name : String) → Keeps IsSound (del_k8scluster name)
unfolding del_k8scluster
del_k8scluster-IsSound name = search (sound_rules, del_k8s_cluster-Preserves)

pub update_k8scluster-IsSound : (c : TopologyK8sModel) → Keeps IsSound (update_k8scluster c)
unfolding update_k8scluster
update_k8scluster-IsSound c = search (sound_rules, upd_k8s_cluster-Preserves)

pub add_prometheus_server-IsSound :
    (p : PrometheusServerModel) → Keeps IsSound (add_prometheus_server p)
unfolding add_prometheus_server
add_prometheus_server-IsSound p = search (sound_rules, add_prometheus_srv-Preserves)

pub del_prometheus_server-IsSound :
    (f : String → Result (Unit {0})) (id : String) (force : Bool)
    → Keeps IsSound (del_prometheus_server f id force)
unfolding del_prometheus_server
del_prometheus_server-IsSound f id force =
    search (sound_rules, del_prometheus_srv-Preserves) depth 8

pub update_prometheus_server-IsSound :
    (f : PrometheusServerModel → Result (Unit {0})) (p : PrometheusServerModel)
    → Keeps IsSound (update_prometheus_server f p)
unfolding update_prometheus_server
update_prometheus_server-IsSound f p = search (sound_rules, upd_prometheus_srv-Preserves) depth 8

pub add_pdu-IsSound : (pdu : PduModel) → Keeps IsSound (add_pdu pdu)
unfolding add_pdu
add_pdu-IsSound pdu = search (sound_rules, add_pdu-Preserves) depth 9

pub upd_pdu-IsSound : (pdu : PduModel) → Keeps IsSound (upd_pdu pdu)
unfolding upd_pdu
upd_pdu-IsSound pdu = search (sound_rules, upd_pdu-Preserves)

pub del_pdu-IsSound : (name : String) → Keeps IsSound (del_pdu name)
unfolding del_pdu
del_pdu-IsSound name = search (sound_rules, del_pdu-Preserves)
