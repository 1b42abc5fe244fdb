-- ===== src/Topology.antt =====
-- topology/topology.py: the class `Topology` and its lock (utils/decorators.py), as actions on a
-- record of its fields and of what it writes outside itself.
pub mod Vims
pub mod Networks
pub mod Routers
pub mod Ranges
pub mod Pdus
pub mod Clusters
pub mod Servers
pub mod Lifecycle
pub mod Getters
pub mod VimUpdates
pub mod Steps
pub mod Atomicity
pub mod Persistence
pub mod Deletion
pub mod Reserving
pub mod Soundness
use e_pem.Prelude.{
  ℕ, zero, suc, ◌+◌, ◌-◌, String, Option, none, some, List, [], ◌∷◌, ◌++◌, Bool, if◌then◌else◌,
}
use e_pem.Result.{Error, Result, ok, err, attribute_error, key_error, redis_error}
use e_pem.Exec.{Exec, ◌>>=◌, ◌>>◌, pure, raise, reads, modify}
use e_pem.Network.{NetworkModel, RouterModel, PduModel, IPv4ReservedRange}
use e_pem.Vim.{VimModel}
use e_pem.Kubernetes.{TopologyK8sModel}
use e_pem.Prometheus.{PrometheusServerModel}
use e_pem.TopologyModel.{TopologyModel}

-- utils/redis_utils/event_types.py
pub data TopologyEventType : Type 0 where
  topo_create topo_delete topo_vim_create topo_vim_del topo_vim_update : TopologyEventType
  topo_create_network topo_delete_network topo_created_router topo_deleted_router :
      TopologyEventType
  topo_create_range_res topo_delete_range_res topo_create_pdu topo_delete_pdu : TopologyEventType
  topo_create_k8s topo_delete_k8s topo_update_k8s : TopologyEventType
  topo_create_prom_srv topo_delete_prom_srv topo_update_prom_srv : TopologyEventType

-- the `data` of an event: the dump of a model
pub data Dump : Type 0 where
  of_topology : TopologyModel → Dump
  of_vim : VimModel → Dump
  of_network : NetworkModel → Dump
  of_router : RouterModel → Dump
  of_range : IPv4ReservedRange → Dump
  of_pdu : PduModel → Dump
  of_k8s : TopologyK8sModel → Dump
  of_prom_srv : PrometheusServerModel → Dump

-- `model` and `data` are `_model` and `_data`; a dump is represented by the model that it shows.
-- `db` is the stored document, `lock` the depth at which the lock is held, and `events` is what was
-- published, the newest first. `redis` says which events Redis takes: where it does not, the client
-- raises.
pub record Topology : Type 0 where
  pub model : Option TopologyModel
  pub data_dump : Option TopologyModel
  pub db : Option TopologyModel
  pub lock : ℕ
  pub events : List (TopologyEventType × Dump)
  pub redis : TopologyEventType → Dump → Bool

-- obj_multiprocess_lock
unfoldable pub acquire : Topology → Topology
acquire self = record self { lock = suc self.lock }

unfoldable pub release : Topology → Topology
release self = record self { lock = self.lock - 1 }

unfoldable pub locked : {A : Type 0} → Exec Topology A → Exec Topology A
unfolding acquire release
locked func self = let (response, self') = func (acquire self) in (response, release self')

-- `self._model.f(...)`, which raises AttributeError where there is no model
unfoldable pub model_result :
    {A : Type 0} → Result (A × TopologyModel) → Topology → Result A × Topology
model_result (ok (a, m)) self = (ok a, record self { model = some m })
model_result (err e) self = (err e, self)

unfoldable pub on_model :
    {A : Type 0} → (TopologyModel → Result (A × TopologyModel)) → Exec Topology A
unfolding model_result
on_model f self = elim self.model [
  | none ↦ (err attribute_error, self)
  | some m ↦ model_result (f m) self
]

abbrev pub of_model : {A : Type 0} → (TopologyModel → Result A) → Topology → Result A
of_model f self = elim self.model [ none ↦ err attribute_error | some m ↦ f m ]

-- a method of the model that changes nothing
unfoldable pub read_model : {A : Type 0} → (TopologyModel → Result A) → Exec Topology A
unfolding reads
read_model f = reads (of_model f)

-- `_data` and the database get the dump of the model.
unfoldable pub save_topology_from_model : Exec Topology (Unit {0})
save_topology_from_model self = elim self.model [
  | none ↦ (err attribute_error, self)
  | some m ↦ (ok tt, record self { data_dump = some m; db = some m })
]

unfoldable pub trigger_redis_event : TopologyEventType → Dump → Exec Topology (Unit {0})
trigger_redis_event type dump self =
    if self.redis type dump
    then (ok tt, record self { events = (type, dump) ∷ self.events })
    else (err redis_error, self)

unfoldable pub trigger_topology_event : TopologyEventType → Exec Topology (Unit {0})
unfolding read_model trigger_redis_event
trigger_topology_event type = do
  m ← read_model (λ m. ok m)
  trigger_redis_event type (of_topology m)

-- `self._os_terraformer[vim.name]`: the dictionary is only ever assigned `{}`.
unfoldable pub os_terraformer : {A : Type 0} → String → Exec Topology A
unfolding raise
os_terraformer vim_name = raise key_error

-- get: `_data`, or `{}` where it was never assigned
unfoldable pub get : Topology → Option TopologyModel
get self = self.data_dump

-- build_topology: a new object from the stored document
unfoldable pub build_topology : (TopologyEventType → Dump → Bool) → Option TopologyModel → Topology
build_topology redis db = record {
  model = db;
  data_dump = db;
  db = db;
  lock = 0;
  events = [];
  redis = redis;
}
