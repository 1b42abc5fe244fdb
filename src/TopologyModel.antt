-- ===== src/TopologyModel.antt =====
-- models/topology/topology_models.py: the lists of the topology and the searches in them. The
-- children define the operations on each list.
pub mod Vims
pub mod Networks
pub mod Routers
pub mod Pdus
pub mod Clusters
pub mod Servers
pub mod RouterIndex
pub mod Registry
pub mod Contracts
pub mod WellFormed
pub mod Preservation
use e_pem.Prelude.{ℕ, String, Bool, List, ◌==◌}
use e_pem.Result.{Result, value_error, topo_k8s_not_found}
use e_pem.PyList.{find_index, index_or}
use e_pem.Network.{NetworkModel, RouterModel, PduModel}
use e_pem.Vim.{VimModel, area_in}
use e_pem.Kubernetes.{TopologyK8sModel}
use e_pem.Prometheus.{PrometheusServerModel}

pub record TopologyModel : Type 0 where
  pub vims : List VimModel
  pub kubernetes : List TopologyK8sModel
  pub networks : List NetworkModel
  pub routers : List RouterModel
  pub pdus : List PduModel
  pub prometheus_srv : List PrometheusServerModel

unfoldable pub find_prom_srv_index : String → TopologyModel → Result ℕ
find_prom_srv_index prom_srv_id self =
    index_or value_error (find_index (λ item. item.id == prom_srv_id) self.prometheus_srv)

unfoldable pub find_k8s_cluster_index : String → TopologyModel → Result ℕ
find_k8s_cluster_index cluster_name self =
    index_or topo_k8s_not_found (find_index (λ item. item.name == cluster_name) self.kubernetes)

unfoldable pub find_k8s_cluster_index_by_area : ℕ → TopologyModel → Result ℕ
find_k8s_cluster_index_by_area area_id self =
    index_or topo_k8s_not_found (find_index (λ item. area_in area_id item.areas) self.kubernetes)

unfoldable pub find_net_index : String → TopologyModel → Result ℕ
find_net_index net_name self =
    index_or value_error (find_index (λ item. item.name == net_name) self.networks)

unfoldable pub find_vim_index : String → TopologyModel → Result ℕ
find_vim_index vim_name self =
    index_or value_error (find_index (λ item. item.name == vim_name) self.vims)

-- The search is in the list of VIMs, as in the source.
unfoldable pub find_router_index : String → TopologyModel → Result ℕ
find_router_index router_name self =
    index_or value_error (find_index (λ item. item.name == router_name) self.vims)

unfoldable pub find_pdu_index : String → TopologyModel → Result ℕ
find_pdu_index pdu_name self =
    index_or value_error (find_index (λ item. item.name == pdu_name) self.pdus)
