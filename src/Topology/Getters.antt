-- ===== src/Topology/Getters.antt =====
-- What topology/topology.py reads from the model. Without a model each raises AttributeError.
use e_pem.Prelude.{ℕ, String, Option, List}
use e_pem.Result.{Result, ok}
use e_pem.Network.{RouterModel, PduModel}
use e_pem.Vim.{VimModel}
use e_pem.Kubernetes.{TopologyK8sModel}
use e_pem.Prometheus.{PrometheusServerModel}
use e_pem.TopologyModel.{TopologyModel}
use e_pem.TopologyModel.Vims.{get_vim_by_area, get_vim_list_by_area, get_vim_name_by_area}
use e_pem.TopologyModel.Routers as RouterList
use e_pem.TopologyModel.Pdus as PduList
use e_pem.TopologyModel.Clusters.{find_k8s_cluster, find_k8s_cluster_by_area}
use e_pem.TopologyModel.Servers.{find_prom_srv}
use e_pem.Topology.{Topology, of_model}

unfoldable pub get_model : Topology → Option TopologyModel
get_model self = self.model

unfoldable pub get_vim_name_from_area_id : ℕ → Topology → Result String
get_vim_name_from_area_id area = of_model (get_vim_name_by_area area)

unfoldable pub get_vim_from_area_id_model : ℕ → Topology → Result VimModel
get_vim_from_area_id_model area = of_model (get_vim_by_area area)

unfoldable pub get_vim_list_from_area_id_model : ℕ → Topology → Result (List VimModel)
get_vim_list_from_area_id_model area = of_model (get_vim_list_by_area area)

unfoldable pub get_router : String → Topology → Result RouterModel
get_router router_name = of_model (RouterList.get_router router_name)

unfoldable pub get_pdu : String → Topology → Result PduModel
get_pdu pdu_name = of_model (PduList.get_pdu pdu_name)

unfoldable pub get_pdus : Topology → Result (List PduModel)
get_pdus = of_model (λ m. ok m.pdus)

unfoldable pub get_k8s_clusters : Topology → Result (List TopologyK8sModel)
get_k8s_clusters = of_model (λ m. ok m.kubernetes)

unfoldable pub get_k8s_cluster : String → Topology → Result TopologyK8sModel
get_k8s_cluster cluster_id = of_model (find_k8s_cluster cluster_id)

unfoldable pub get_k8s_cluster_by_area : ℕ → Topology → Result TopologyK8sModel
get_k8s_cluster_by_area area_id = of_model (find_k8s_cluster_by_area area_id)

unfoldable pub get_prometheus_server : String → Topology → Result PrometheusServerModel
get_prometheus_server prom_srv_id = of_model (find_prom_srv prom_srv_id)

unfoldable pub get_prometheus_servers_model : Topology → Result (List PrometheusServerModel)
get_prometheus_servers_model = of_model (λ m. ok m.prometheus_srv)
