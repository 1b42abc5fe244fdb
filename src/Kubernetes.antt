-- ===== src/Kubernetes.antt =====
-- models/k8s/topology_k8s_model.py: the cluster model of the topology. Of its fields those that the
-- topology reads are kept.
use e_pem.Prelude.{ℕ, String, List, Bool, ltb}

pub record TopologyK8sModel : Type 0 where
  pub name : String
  pub deployed_blueprints : List String
  pub networks : List String
  pub areas : List ℕ

pub data K8sVersion : Type 0 where
  v1_24 v1_25 v1_26 v1_27 v1_28 v1_29 v1_30 : K8sVersion

-- float(self.value[1:]), in hundredths
unfoldable pub version_number : K8sVersion → ℕ
version_number v1_24 = 124
version_number v1_25 = 125
version_number v1_26 = 126
version_number v1_27 = 127
version_number v1_28 = 128
version_number v1_29 = 129
version_number v1_30 = 130

unfoldable pub is_minor : K8sVersion → K8sVersion → Bool
unfolding version_number
is_minor self to_compare = ltb (version_number self) (version_number to_compare)
