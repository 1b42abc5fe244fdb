-- ===== src/BlueprintManager.antt =====
-- blueprints_ng/lcm/blueprint_manager.py: the table of the blueprints' workers, over the database.
pub mod Getters
pub mod Coherence
pub mod Identity
pub mod Parts
pub mod Preservation
pub mod Traces
pub mod Deletion
use e_pem.Prelude.{
  ℕ, zero, suc, String, Bool, true, false, not, Option, none, some, List, [], ◌∷◌, ◌++◌, ◌==◌, map,
  if◌then◌else◌,
}
use e_pem.Text.{last_part}
use e_pem.Result.{
  Error, Result, ok, err, blueprint_not_found, blueprint_already_existing, blueprint_protected,
  index_error,
}
use e_pem.Exec
use e_pem.Exec.{Exec, ◌>>=◌, ◌>>◌, pure, raise, lift, reads, modify, for_each, try_except}
use e_pem.PyList.{length, get_at, update_at}
use e_pem.PyDict.{lookup, has, put, drop_key}
use e_pem.Performance
use e_pem.Performance.{PerformanceManager}
use e_pem.Resources.{
  Resource, ResourceValue, VmResource, vm, helm_chart, net, vm_configuration, other_configuration,
}
use e_pem.Blueprint.{BlueprintNgBaseModel, CurrentOperation, in_operation, serialize_content}
use e_pem.Blueprint.Loading.{from_db}
use e_pem.BlueprintType.{BlueprintTypes, get_blueprint_class}
use e_pem.BlueprintWorker.{WorkerMessage, WorkerMessageType}

-- A worker with its queue. Its thread takes from the queue (BlueprintWorker.Listening).
pub record Worker (M : Type 0) : Type 0 where
  pub blueprint : BlueprintNgBaseModel
  pub message_queue : List (WorkerMessage M)

-- The workers that were started, in that order: a thread goes on when the manager has dropped its
-- worker. `worker_collection` refers to them by their positions. `documents` is the collection of the
-- database.
pub record BlueprintManager (M : Type 0) : Type 0 where
  pub worker_collection : List (String × ℕ)
  pub workers : List (Worker M)
  pub documents : List (String × BlueprintNgBaseModel)
  pub performance : PerformanceManager

-- What stands outside: the topology's answer on areas, and the state that a class starts with.
pub record Surroundings : Type 0 where
  pub has_vim : ℕ → Bool
  pub initial_state : String → String

-- BlueClass(blue_id), with the parent
unfoldable pub new_blueprint :
    (initial_state : String → String)
    → String
    → (blue_id : String) → Option String
    → BlueprintNgBaseModel
unfolding in_operation
new_blueprint initial_state class_name blue_id parent_id = record {
  id = blue_id;
  type = class_name;
  parent_blue_id = parent_id;
  children_blue_ids = [];
  registered_resources = [];
  state = initial_state class_name;
  state_resources = [];
  create_config = none;
  corrupted = false;
  protected = false;
  status = in_operation CurrentOperation.idle "";
  day_2_call_history = [];
}

module _ {M : Type 0} where
  unfoldable pub refuse_existing :
      Option BlueprintNgBaseModel → Exec (BlueprintManager M) (Unit {0})
  unfolding pure raise
  refuse_existing none = pure tt
  refuse_existing (some b) = raise blueprint_already_existing

  unfoldable pub worker_at : ℕ → BlueprintManager M → Result (Worker M)
  worker_at position self = get_at self.workers position

  -- worker.put_message
  unfoldable pub put_message : ℕ → WorkerMessage M → Exec (BlueprintManager M) (Unit {0})
  unfolding modify
  put_message position message = modify (λ self. record self {
    workers =
        update_at self.workers position
          (λ w. record w { message_queue = w.message_queue ++ message ∷ [] });
  })

  -- BlueprintWorker(blueprint), start_listening() and the entry in the collection
  unfoldable pub start_worker : BlueprintNgBaseModel → String → Exec (BlueprintManager M) ℕ
  start_worker blueprint blueprint_id self = (
    ok (length self.workers),
    record self {
      workers = self.workers ++ (record { blueprint = blueprint; message_queue = [] }) ∷ [];
      worker_collection = put blueprint_id (length self.workers) self.worker_collection;
    },
  )

  unfoldable pub save_ng_blue : BlueprintNgBaseModel → Exec (BlueprintManager M) (Unit {0})
  unfolding modify
  save_ng_blue blueprint = modify (λ self. record self {
    documents = put blueprint.id (serialize_content blueprint) self.documents;
  })

  module _ (around : Surroundings) where
    unfoldable pub load_blue_from_db :
        String → BlueprintManager M → Result (Option BlueprintNgBaseModel)
    unfolding from_db
    load_blue_from_db blueprint_id self = elim (lookup blueprint_id self.documents) [
      | none ↦ ok none
      | some blue ↦ elim (from_db around.has_vim blue) [
        | ok blueprint ↦ ok (some blueprint)
        | err e ↦ err e
      ]
    ]

    unfoldable pub get_worker : String → Exec (BlueprintManager M) ℕ
    unfolding load_blue_from_db start_worker
    get_worker blueprint_id self = elim (lookup blueprint_id self.worker_collection) [
      | some position ↦ (ok position, self)
      | none ↦ elim (load_blue_from_db blueprint_id self) [
        | err e ↦ (err e, self)
        | ok none ↦ (err blueprint_not_found, self)
        | ok (some blueprint) ↦ start_worker blueprint blueprint_id self
      ]
    ]

    -- generate_blueprint_id() and the clock give `blue_id` and `now`; `callback` is the name of the
    -- caller that waits, if there is one.
    unfoldable pub create_blueprint :
        (blueprint_type : BlueprintTypes)
        → Option M
        → String
        → (blue_id : String) (now : ℕ) → Option String
        → Option String
        → Exec (BlueprintManager M) String
    unfolding load_blue_from_db get_blueprint_class save_ng_blue start_worker put_message reads lift
        pure refuse_existing modify new_blueprint
    create_blueprint blueprint_type msg path blue_id now parent_id callback = do
      existing ← reads (load_blue_from_db blue_id)
      refuse_existing existing
      class_name ← lift (get_blueprint_class path blueprint_type)
      save_ng_blue (new_blueprint around.initial_state class_name blue_id parent_id)
      worker ←
          start_worker (new_blueprint around.initial_state class_name blue_id parent_id) blue_id
      modify (λ self. record self {
        performance = Performance.add_blueprint blue_id path now self.performance;
      })
      put_message worker (record {
        message_type = WorkerMessageType.day0;
        message = msg;
        path = path;
        callback = callback;
      })
      pure blue_id

    -- The deletion is left to the worker. A caller with `wait` waits for its answer before the last
    -- step; here it does not wait.
    unfoldable pub delete_blueprint : String → Exec (BlueprintManager M) String
    unfolding get_worker reads put_message modify pure raise worker_at
    delete_blueprint blueprint_id = do
      worker ← get_worker blueprint_id
      w ← reads (worker_at worker)
      if w.blueprint.protected then raise blueprint_protected else do
        put_message worker (record {
          message_type = WorkerMessageType.stop;
          message = none;
          path = "";
          callback = none;
        })
        modify (λ self. record self {
          worker_collection = drop_key blueprint_id self.worker_collection;
        })
        pure blueprint_id

    -- except BlueprintProtectedException: a warning
    unfoldable pub skip_protected : Error → Exec (BlueprintManager M) String
    unfolding pure raise
    skip_protected blueprint_protected = pure ""
    skip_protected e = raise e

    unfoldable pub delete_all_blueprints : Exec (BlueprintManager M) (Unit {0})
    unfolding for_each delete_blueprint skip_protected try_except
    delete_all_blueprints self =
        for_each self.documents (λ entry. try_except (delete_blueprint entry.1.id) skip_protected)
          self

  -- worker.protect_blueprint, through the endpoint that looks the worker up
  unfoldable pub set_protected : ℕ → Bool → Exec (BlueprintManager M) Bool
  unfolding modify reads worker_at save_ng_blue pure
  set_protected position protect = do
    modify (λ self. record self {
      workers =
          update_at self.workers position
            (λ w. record w { blueprint = record w.blueprint { protected = protect } });
    })
    w ← reads (worker_at position)
    save_ng_blue w.blueprint
    pure w.blueprint.protected
