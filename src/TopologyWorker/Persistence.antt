-- ===== src/TopologyWorker/Persistence.antt =====
-- topology/topology_worker.py: what a request that succeeds leaves in the database.
use e_pem.Prelude.{
  ℕ, String, ◌≡◌, refl, Bool, false, Option, none, some, arith, inl, inr, Option-cases,
}
use e_pem.Result.{Error, Result, Result-cases, ok, err, value_error}
use e_pem.Exec.{◌>>=◌, pure, reads, modify, except_value_error}
use e_pem.Exec.Rules.{Ensures, keeps_rules}
use e_pem.Network.{NetworkModel, RouterModel, PduModel}
use e_pem.Vim.{VimModel, UpdateVimModel}
use e_pem.Kubernetes.{TopologyK8sModel}
use e_pem.Prometheus.{PrometheusServerModel}
use e_pem.TopologyModel.{TopologyModel}
use e_pem.TopologyMessage.{TopologyWorkerMessage, TopologyWorkerOperation}
use e_pem.TopologyModel.Pdus as PduList
use e_pem.Topology.{
  Topology, TopologyEventType, build_topology, locked, acquire, release, on_model, read_model,
  save_topology_from_model, trigger_redis_event, trigger_topology_event,
}
use e_pem.Topology.Steps.{except_value_error-Keeps}
use e_pem.Topology.Persistence.{
  IsSynced, Settles, synced_rules, Settles-Ensures, Settles-Keeps, Settles-locked, Settles-bind,
}
use e_pem.Topology.Vims.{add_vim, del_vim, update_found, update_vim}
use e_pem.Topology.Networks.{VimNames, add_network_model, del_network_by_name}
use e_pem.Topology.Routers.{add_router, del_router}
use e_pem.Topology.Pdus.{add_pdu, del_pdu}
use e_pem.Topology.Clusters.{add_k8scluster, del_k8scluster, update_k8scluster}
use e_pem.Topology.Servers.{add_prometheus_server, del_prometheus_server, update_prometheus_server}
use e_pem.TopologyWorker.{Outside, add_network, operation, start_operation}
use e_pem.Topology.Lifecycle.{create, delete, drop_model}

add_vim-IsSynced : (v : VimModel) (t : Bool) → Ensures IsSynced (add_vim v t)
unfolding add_vim
add_vim-IsSynced v t = search synced_rules depth 12

del_vim-IsSynced : (n : String) (t : Bool) → Ensures IsSynced (del_vim n t)
unfolding del_vim
del_vim-IsSynced n t = search synced_rules depth 12

add_network_model-IsSynced :
    (n : NetworkModel) (l : VimNames) (t : Bool) → Ensures IsSynced (add_network_model n l t)
unfolding add_network_model
add_network_model-IsSynced n l t = search synced_rules depth 12

del_network_by_name-IsSynced : (n : String) (t : Bool) → Ensures IsSynced (del_network_by_name n t)
unfolding del_network_by_name
del_network_by_name-IsSynced n t = search synced_rules depth 12

add_router-IsSynced : (r : RouterModel) → Ensures IsSynced (add_router r)
unfolding add_router
add_router-IsSynced r = search synced_rules depth 12

del_router-IsSynced : (n : String) (l : VimNames) → Ensures IsSynced (del_router n l)
unfolding del_router
del_router-IsSynced n l = search synced_rules depth 12

del_pdu-IsSynced : (n : String) → Ensures IsSynced (del_pdu n)
unfolding del_pdu
del_pdu-IsSynced n = search synced_rules depth 12

create-IsSynced : (topo : TopologyModel) (t : Bool) → Ensures IsSynced (create topo t)
unfolding create
create-IsSynced topo t = search synced_rules depth 12

del_prometheus_server-IsSynced :
    (f : String → Result (Unit {0})) (n : String) (b : Bool)
    → Ensures IsSynced (del_prometheus_server f n b)
unfolding del_prometheus_server
del_prometheus_server-IsSynced f n b = search synced_rules depth 12

add_prometheus_server-IsSynced :
    (p : PrometheusServerModel) → Ensures IsSynced (add_prometheus_server p)
unfolding add_prometheus_server
add_prometheus_server-IsSynced p = search synced_rules depth 12

update_prometheus_server-IsSynced :
    (f : PrometheusServerModel → Result (Unit {0})) (p : PrometheusServerModel)
    → Ensures IsSynced (update_prometheus_server f p)
unfolding update_prometheus_server
update_prometheus_server-IsSynced f p = search synced_rules depth 12

add_k8scluster-IsSynced : (c : TopologyK8sModel) → Ensures IsSynced (add_k8scluster c)
unfolding add_k8scluster
add_k8scluster-IsSynced c = search synced_rules depth 12

del_k8scluster-IsSynced : (n : String) → Ensures IsSynced (del_k8scluster n)
unfolding del_k8scluster
del_k8scluster-IsSynced n = search synced_rules depth 12

update_k8scluster-IsSynced : (c : TopologyK8sModel) → Ensures IsSynced (update_k8scluster c)
unfolding update_k8scluster
update_k8scluster-IsSynced c = search synced_rules depth 12

-- A missing VIM leaves all as it was; otherwise the update stores the model.
update_found-Settles :
    (u : UpdateVimModel) (t : Bool) (vim : Option ℕ) → Settles (update_found u t vim)
unfolding update_found
update_found-Settles u t none = Settles-Keeps _ (search keeps_rules)
update_found-Settles u t (some vim) = Settles-Ensures _ (search synced_rules depth 12)

update_vim-Settles : (u : UpdateVimModel) (t : Bool) → Settles (update_vim u t)
unfolding update_vim
update_vim-Settles u t = Settles-locked _ (
    Settles-bind _ _ (Settles-Keeps _ (except_value_error-Keeps IsSynced _ (search synced_rules)))
      (λ vim. update_found-Settles u t vim))

-- `delete` does not return.
dump_dropped :
    (type : TopologyEventType)
    → Ensures IsSynced (modify drop_model >>= λ _. trigger_topology_event type)
unfolding modify drop_model trigger_topology_event read_model reads ◌>>=◌
dump_dropped type = record { at = λ s a e. absurd (ground (arith, e)) }

delete-IsSynced : (t : Bool) → Ensures IsSynced (delete t)
unfolding delete
delete-IsSynced t = search (synced_rules, dump_dropped) depth 12

-- A PDU that is there already is logged, and nothing changes.
refused-IsSynced :
    (pdu : PduModel) (s : Topology) (m : TopologyModel) (x : Error)
    → IsSynced s
    → s.model ≡ some m
    → PduList.add_pdu pdu m ≡ err x
    → IsSynced (add_pdu pdu s).1
unfolding add_pdu locked acquire release on_model save_topology_from_model trigger_redis_event
    modify except_value_error pure ◌>>=◌
refused-IsSynced pdu s m value_error p h bad = record {
  stored = ground (arith, p.stored);
  dumped = ground (arith, p.dumped);
}
refused-IsSynced pdu s m _ p h bad = record {
  stored = ground (arith, p.stored);
  dumped = ground (arith, p.dumped);
}

add_pdu-Settles : (pdu : PduModel) → Settles (add_pdu pdu)
unfolding add_pdu locked acquire release on_model save_topology_from_model trigger_redis_event
    modify except_value_error pure ◌>>=◌
add_pdu-Settles pdu = record {
  at = λ s a p e. elim (Option-cases s.model) [
    | inl h ↦ absurd (ground (arith, e))
    | inr (m, h) ↦ elim (Result-cases (PduList.add_pdu pdu m)) [
      | inl ((b, m'), ran) ↦ record { stored = ground arith; dumped = ground arith }
      | inr (x, bad) ↦ refused-IsSynced pdu s m x p h bad
    ]
  ];
}

add_network-IsSynced :
    (n : NetworkModel) (l : VimNames) (t : Bool) → Ensures IsSynced (add_network n l t)
unfolding add_network
add_network-IsSynced n l t = search (synced_rules, add_network_model-IsSynced)

del_server-IsSynced :
    (f : String → Result (Unit {0})) (n : String)
    → Ensures IsSynced (del_prometheus_server f n false >>= λ _. pure tt)
del_server-IsSynced f n = search (synced_rules, del_prometheus_server-IsSynced)

ruleset request_rules = (
  synced_rules, add_vim-IsSynced, del_vim-IsSynced, add_network-IsSynced,
  del_network_by_name-IsSynced, add_router-IsSynced, del_router-IsSynced, del_pdu-IsSynced,
  create-IsSynced, delete-IsSynced, del_server-IsSynced, add_prometheus_server-IsSynced,
  update_prometheus_server-IsSynced, add_k8scluster-IsSynced, del_k8scluster-IsSynced,
  update_k8scluster-IsSynced,
)

ruleset settled_rules =
    (keeps_rules, Settles-bind, Settles-Keeps, update_vim-Settles, add_pdu-Settles)

module _ {D : Type 0} (outside : Outside D) where
  operation-Settles :
      (o : TopologyWorkerOperation) (d : D) (opt : Option D) → Settles (operation outside o d opt)
  unfolding operation
  operation-Settles TopologyWorkerOperation.add_topology d opt =
      Settles-Ensures _ (search request_rules depth 8)
  operation-Settles TopologyWorkerOperation.del_topology d opt =
      Settles-Ensures _ (search request_rules depth 8)
  operation-Settles TopologyWorkerOperation.add_vim d opt =
      Settles-Ensures _ (search request_rules depth 8)
  operation-Settles TopologyWorkerOperation.del_vim d opt =
      Settles-Ensures _ (search request_rules depth 8)
  operation-Settles TopologyWorkerOperation.update_vim d opt = search settled_rules depth 8
  operation-Settles TopologyWorkerOperation.add_net d opt =
      Settles-Ensures _ (search request_rules depth 8)
  operation-Settles TopologyWorkerOperation.del_net d opt =
      Settles-Ensures _ (search request_rules depth 8)
  operation-Settles TopologyWorkerOperation.add_router d opt =
      Settles-Ensures _ (search request_rules depth 8)
  operation-Settles TopologyWorkerOperation.del_router d opt =
      Settles-Ensures _ (search request_rules depth 8)
  operation-Settles TopologyWorkerOperation.add_pdu d opt = search settled_rules depth 8
  operation-Settles TopologyWorkerOperation.del_pdu d opt =
      Settles-Ensures _ (search request_rules depth 8)
  operation-Settles TopologyWorkerOperation.add_k8s d opt =
      Settles-Ensures _ (search request_rules depth 8)
  operation-Settles TopologyWorkerOperation.del_k8s d opt =
      Settles-Ensures _ (search request_rules depth 8)
  operation-Settles TopologyWorkerOperation.update_k8s d opt =
      Settles-Ensures _ (search request_rules depth 8)
  operation-Settles TopologyWorkerOperation.add_prom d opt =
      Settles-Ensures _ (search request_rules depth 8)
  operation-Settles TopologyWorkerOperation.del_prom d opt =
      Settles-Ensures _ (search request_rules depth 8)
  operation-Settles TopologyWorkerOperation.upd_prom d opt =
      Settles-Ensures _ (search request_rules depth 8)

  -- A request that succeeds is stored: what the worker's object holds in memory when it returns is what
  -- the database holds and the dump shows.
  pub start_operation-IsSynced :
      (msg : TopologyWorkerMessage D) (db : Option TopologyModel)
      → (start_operation outside msg (build_topology outside.redis db)).0 ≡ ok tt
      → IsSynced (start_operation outside msg (build_topology outside.redis db)).1
  unfolding start_operation build_topology
  start_operation-IsSynced msg db done =
      (operation-Settles msg.ops_type msg.data_dict msg.optional_data).at
        (build_topology outside.redis db) tt (record { stored = refl; dumped = refl }) done
