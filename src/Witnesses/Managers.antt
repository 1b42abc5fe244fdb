-- ===== src/Witnesses/Managers.antt =====
-- The theorems on the manager of blueprints at concrete inputs.
use e_pem.Prelude.{String, ◌≡◌, ◌≢◌, refl, true, false, none, some, [], ◌∷◌, arith, eq_iff}
use e_pem.Result.{ok}
use e_pem.Exec.{◌>>=◌, for_each}
use e_pem.PyList.{get_at, length}
use e_pem.PyDict.{lookup, has}
use e_pem.Blueprint.{BlueprintNgBaseModel, CurrentOperation}
use e_pem.Blueprint.Loading.{from_db}
use e_pem.BlueprintManager.{BlueprintManager, Worker, Surroundings, get_worker, delete_blueprint}
use e_pem.BlueprintManager.Coherence.{IsCoherent}
use e_pem.BlueprintManager.Traces.{Reaches, here, next, delete, Reaches-get_worker}
use e_pem.BlueprintManager.Deletion.{stop_message, with_message, get_worker-delete_blueprint}

abbrev vyos : BlueprintNgBaseModel
vyos = record {
  id = "B1";
  type = "VyOS";
  parent_blue_id = none;
  children_blue_ids = [];
  registered_resources = [];
  state = "{}";
  state_resources = [];
  create_config = none;
  corrupted = false;
  protected = false;
  status = record { error = false; current_operation = CurrentOperation.idle; detail = "" };
  day_2_call_history = [];
}

abbrev around : Surroundings
around = record { has_vim = λ area. true; initial_state = λ type. "{}" }

abbrev its_worker : Worker String
its_worker = record { blueprint = vyos; message_queue = [] }

abbrev manager : BlueprintManager String
manager = record {
  worker_collection = ("B1", 0) ∷ [];
  workers = its_worker ∷ [];
  documents = ("B1", vyos) ∷ [];
  performance = record {
    performance_dict = [];
    pending_operations = [];
    operations = [];
    provider_calls = [];
    stored = [];
  };
}

manager-IsCoherent : IsCoherent manager
unfolding lookup has get_at
manager-IsCoherent = record {
  unique = (refl, tt);
  placed = λ id i e. (its_worker, ground (arith, e), ground (arith, e, eq_iff "B1" id));
  documents_unique = (refl, tt);
  named = λ id b e. ground (arith, e, eq_iff "B1" id);
}

loads : from_db around.has_vim vyos ≡ ok vyos
unfolding from_db for_each ◌>>=◌
loads = refl

found : lookup "B1" manager.worker_collection ≡ some 0
unfolding lookup
found = refl

stored : lookup "B1" manager.documents ≡ some vyos
unfolding lookup
stored = refl

there : get_at manager.workers 0 ≡ ok its_worker
unfolding get_at
there = refl

get_worker-delete_blueprint_example :
    (length manager.workers ≢ 0)
    × ((get_worker around "B1" (delete_blueprint around "B1" manager).1).0 ≡ ok 1)
    × (get_at (get_worker around "B1" (delete_blueprint around "B1" manager).1).1.workers 0
        ≡ ok (with_message stop_message its_worker))
    × (get_at (get_worker around "B1" (delete_blueprint around "B1" manager).1).1.workers 1
        ≡ ok (record { blueprint = vyos; message_queue = [] }))
get_worker-delete_blueprint_example =
    get_worker-delete_blueprint around "B1" 0 its_worker vyos vyos manager manager-IsCoherent found
      there refl stored loads

abbrev deleted : BlueprintManager String
deleted = (delete_blueprint around "B1" manager).1

abbrev history : Reaches around manager deleted
history = next here (delete "B1" manager)

restarted : (get_worker around "B1" deleted).0 ≡ ok 1
restarted =
    (get_worker-delete_blueprint around "B1" 0 its_worker vyos vyos manager manager-IsCoherent found
      there refl stored loads).1

Reaches-get_worker_example :
    (w : Worker String) × (get_at (get_worker around "B1" deleted).1.workers 1 ≡ ok w)
    × (w.blueprint.id ≡ "B1")
Reaches-get_worker_example = Reaches-get_worker around history manager-IsCoherent "B1" 1 restarted
