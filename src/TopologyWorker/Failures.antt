-- ===== src/TopologyWorker/Failures.antt =====
-- topology/topology_worker.py: what a request that fails leaves, and the request that always fails.
use e_pem.Prelude.{
  String, ◌≡◌, ◌≢◌, refl, Bool, true, false, Option, some, arith, inl, inr, Option-cases,
}
use e_pem.Result.{Error, Result, Result-cases, ok, err, type_error, attribute_error, redis_error}
use e_pem.Exec.{Exec, ◌>>=◌, pure, raise, lift}
use e_pem.Network.{NetworkModel}
use e_pem.TopologyModel.{TopologyModel}
use e_pem.TopologyMessage.{TopologyWorkerMessage, TopologyWorkerOperation}
use e_pem.Topology.{Topology, build_topology, locked, acquire, release, on_model}
use e_pem.Topology.Networks.{flag, for_each_name, add_network_model}
use e_pem.Topology.Atomicity.{IsAtomic, atomic_rules, db_rules, IsAtomic-bind, IsAtomic-pure}
use e_pem.Topology.Atomicity.Methods.{
  add_vim-IsAtomic, del_vim-IsAtomic, add_network_model-IsAtomic, del_network_by_name-IsAtomic,
  add_router-IsAtomic, del_router-IsAtomic, add_pdu-IsAtomic, del_pdu-IsAtomic,
  add_k8scluster-IsAtomic, del_k8scluster-IsAtomic, update_k8scluster-IsAtomic,
  add_prometheus_server-IsAtomic, del_prometheus_server-IsAtomic, update_prometheus_server-IsAtomic,
}
use e_pem.TopologyModel.Networks as NetList
use e_pem.Topology.Servers.{del_prometheus_server}
use e_pem.TopologyWorker.{Outside, add_network, operation, start_operation, handle}

add_network-IsAtomic :
    (d : Option TopologyModel) (n : NetworkModel) (b : Bool)
    → IsAtomic d (add_network n (flag b) false)
unfolding add_network
add_network-IsAtomic d n b =
    IsAtomic-pure d (add_network_model n (flag b) false) tt (add_network_model-IsAtomic d n b)

del_server-IsAtomic :
    (d : Option TopologyModel) (f : String → Result (Unit {0})) (id : String)
    → IsAtomic d (del_prometheus_server f id false >>= λ _. pure tt)
del_server-IsAtomic d f id = IsAtomic-pure d _ tt (del_prometheus_server-IsAtomic d f id false)

ruleset request_rules = (
  atomic_rules, add_network-IsAtomic, add_router-IsAtomic, del_router-IsAtomic, add_pdu-IsAtomic,
  del_pdu-IsAtomic, add_k8scluster-IsAtomic, del_k8scluster-IsAtomic, update_k8scluster-IsAtomic,
  add_prometheus_server-IsAtomic, del_server-IsAtomic, update_prometheus_server-IsAtomic,
)

-- Requests that store once, at the end: all but those that go through a list of changes.
abbrev pub IsSingle : TopologyWorkerOperation → Type 0
IsSingle TopologyWorkerOperation.add_topology = ⊥
IsSingle TopologyWorkerOperation.del_topology = ⊥
IsSingle TopologyWorkerOperation.update_vim = ⊥
IsSingle _ = Unit

-- Whatever the topology holds, the loop over a Boolean raises, and nothing has been stored by then.
add_network_model-flag :
    (s : Topology) (n : NetworkModel)
    → (e : Error) × (s' : Topology) × (add_network_model n (flag true) false s ≡ (err e, s'))
      × (s'.db ≡ s.db)
unfolding add_network_model for_each_name raise locked acquire release on_model ◌>>=◌
add_network_model-flag s n = elim (Option-cases s.model) [
  | inl e ↦ (attribute_error, s, ground arith, refl)
  | inr (m, e) ↦ elim (Result-cases (NetList.add_network n m)) [
    | inr (x, bad) ↦ (x, s, ground arith, refl)
    | inl ((a, m'), ran) ↦ (type_error, record s { model = some m' }, ground arith, refl)
  ]
]

module _ {D : Type 0} (outside : Outside D) (db : Option TopologyModel) where
  unless_terraform :
      {A : Type 0} (r : Result Bool) (f : Bool → Exec Topology A)
      → r ≢ ok true
      → IsAtomic db (f false)
      → IsAtomic db (lift r >>= f)
  unfolding lift ◌>>=◌
  unless_terraform (ok false) f unset k = record { at = λ s e q p h. k.at s e q p h }
  unless_terraform (ok true) f unset k = absurd (unset refl)
  unless_terraform (err x) f unset k = record { at = λ s e q p h. p }

  operation-IsAtomic :
      (o : TopologyWorkerOperation) (d : D) (opt : Option D)
      → IsSingle o
      → outside.terraform opt ≢ ok true
      → IsAtomic db (operation outside o d opt)
  unfolding operation
  operation-IsAtomic TopologyWorkerOperation.add_topology d opt u unset = elim u [ ]
  operation-IsAtomic TopologyWorkerOperation.del_topology d opt u unset = elim u [ ]
  operation-IsAtomic TopologyWorkerOperation.update_vim d opt u unset = elim u [ ]
  operation-IsAtomic TopologyWorkerOperation.add_vim d opt u unset =
      IsAtomic-bind db _ _ (search db_rules)
        (λ x. unless_terraform _ _ unset (add_vim-IsAtomic db x))
  operation-IsAtomic TopologyWorkerOperation.del_vim d opt u unset =
      IsAtomic-bind db _ _ (search db_rules)
        (λ x. unless_terraform _ _ unset (del_vim-IsAtomic db x))
  operation-IsAtomic TopologyWorkerOperation.add_net d opt u unset = search request_rules depth 8
  operation-IsAtomic TopologyWorkerOperation.del_net d opt u unset =
      IsAtomic-bind db _ _ (search db_rules)
        (λ x. unless_terraform _ _ unset (del_network_by_name-IsAtomic db x))
  operation-IsAtomic TopologyWorkerOperation.add_router d opt u unset = search request_rules depth 8
  operation-IsAtomic TopologyWorkerOperation.del_router d opt u unset = search request_rules depth 8
  operation-IsAtomic TopologyWorkerOperation.add_pdu d opt u unset = search request_rules depth 8
  operation-IsAtomic TopologyWorkerOperation.del_pdu d opt u unset = search request_rules depth 8
  operation-IsAtomic TopologyWorkerOperation.add_k8s d opt u unset = search request_rules depth 8
  operation-IsAtomic TopologyWorkerOperation.del_k8s d opt u unset = search request_rules depth 8
  operation-IsAtomic TopologyWorkerOperation.update_k8s d opt u unset = search request_rules depth 8
  operation-IsAtomic TopologyWorkerOperation.add_prom d opt u unset = search request_rules depth 8
  operation-IsAtomic TopologyWorkerOperation.del_prom d opt u unset = search request_rules depth 8
  operation-IsAtomic TopologyWorkerOperation.upd_prom d opt u unset = search request_rules depth 8

  -- A request that fails, but not with the exception that Redis raises where it does not take an event,
  -- leaves the stored topology as it was, if it is one that stores once and does not ask for
  -- `terraform`.
  pub failed-handle :
      (msg : TopologyWorkerMessage D) (e : Error)
      → e ≢ redis_error
      → IsSingle msg.ops_type
      → outside.terraform msg.optional_data ≢ ok true
      → (start_operation outside msg (build_topology outside.redis db)).0 ≡ err e
      → handle outside msg db ≡ db
  unfolding handle start_operation build_topology
  failed-handle msg e other u unset h =
      (operation-IsAtomic msg.ops_type msg.data_dict msg.optional_data u unset).at
        (build_topology outside.redis db) e other refl h

  -- A request to add a network with `terraform` set never stores it: whatever the model validation
  -- gives, the request fails and the stored topology stays as it was.
  pub add_net-fails :
      (d : D) (opt : Option D)
      → outside.terraform opt ≡ ok true
      → (e : Error) × ((start_operation outside
            (record {
              ops_type = TopologyWorkerOperation.add_net;
              data_dict = d;
              optional_data = opt;
            })
            (build_topology outside.redis db)).0
          ≡ err e)
        × (handle outside
              (record {
                ops_type = TopologyWorkerOperation.add_net;
                data_dict = d;
                optional_data = opt;
              })
              db
            ≡ db)
  unfolding handle start_operation operation add_network lift build_topology ◌>>=◌
  add_net-fails d opt t = elim (Result-cases (outside.network d)) [
    | inr (x, bad) ↦ (x, ground arith, ground arith)
    | inl (n, valid) ↦
        let (e, s', ran, kept) = add_network_model-flag (build_topology outside.redis db) n in
        (e, ground arith, ground arith)
  ]
