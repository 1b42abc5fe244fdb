-- ===== src/TopologyMessage.antt =====
-- models/topology/topology_worker_model.py: the requests that the topology worker takes.
use e_pem.Prelude.{Option}

pub data TopologyWorkerOperation : Type 0 where
  add_topology del_topology add_vim del_vim update_vim : TopologyWorkerOperation
  add_net del_net add_router del_router add_pdu del_pdu : TopologyWorkerOperation
  add_k8s del_k8s update_k8s add_prom del_prom upd_prom : TopologyWorkerOperation

-- `D` is the type of dictionaries.
pub record TopologyWorkerMessage (D : Type 0) : Type 0 where
  pub ops_type : TopologyWorkerOperation
  pub data_dict : D
  pub optional_data : Option D
