-- ===== src/TopologyModel/Clusters.antt =====
-- Kubernetes clusters of the topology model.
use e_pem.Prelude.{ℕ, String, [], ◌∷◌, ◌++◌, ◌==◌, ltb, if◌then◌else◌}
use e_pem.Result.{Result, ok, err, raise_if, value_error, topo_k8s_has_blueprint, ◌>>=◌, ◌>>◌}
use e_pem.PyList.{contains, get_at, set_at, pop_at, length}
use e_pem.Kubernetes.{TopologyK8sModel}
use e_pem.TopologyModel.{TopologyModel, find_k8s_cluster_index, find_k8s_cluster_index_by_area}

unfoldable pub add_k8s_cluster :
    TopologyK8sModel → TopologyModel → Result (TopologyK8sModel × TopologyModel)
add_k8s_cluster k8s_cluster self =
    if contains (λ item. item.name == k8s_cluster.name) self.kubernetes
    then err value_error
    else ok (k8s_cluster, record self { kubernetes = self.kubernetes ++ k8s_cluster ∷ [] })

unfoldable pub del_k8s_cluster : String → TopologyModel → Result (TopologyK8sModel × TopologyModel)
unfolding find_k8s_cluster_index
del_k8s_cluster k8s_cluster_id self = do
  k8s_index ← find_k8s_cluster_index k8s_cluster_id self
  k8s_cluster ← get_at self.kubernetes k8s_index
  raise_if (ltb 0 (length k8s_cluster.deployed_blueprints)) topo_k8s_has_blueprint
  (k8s_deleted, rest) ← pop_at self.kubernetes k8s_index
  ok (k8s_deleted, record self { kubernetes = rest })

unfoldable pub upd_k8s_cluster :
    TopologyK8sModel → TopologyModel → Result (TopologyK8sModel × TopologyModel)
unfolding find_k8s_cluster_index
upd_k8s_cluster k8s_cluster self = do
  index ← find_k8s_cluster_index k8s_cluster.name self
  items ← set_at self.kubernetes index k8s_cluster
  ok (k8s_cluster, record self { kubernetes = items })

unfoldable pub find_k8s_cluster : String → TopologyModel → Result TopologyK8sModel
unfolding find_k8s_cluster_index
find_k8s_cluster name self = do
  index ← find_k8s_cluster_index name self
  get_at self.kubernetes index

unfoldable pub find_k8s_cluster_by_area : ℕ → TopologyModel → Result TopologyK8sModel
unfolding find_k8s_cluster_index_by_area
find_k8s_cluster_by_area area_id self = do
  index ← find_k8s_cluster_index_by_area area_id self
  get_at self.kubernetes index
