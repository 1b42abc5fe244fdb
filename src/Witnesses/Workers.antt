-- ===== src/Witnesses/Workers.antt =====
-- The theorems on the workers of blueprints at concrete inputs.
use e_pem.Prelude.{String, ◌≡◌, refl, inr, Bool, true, false, none, some, List, [], ◌∷◌, ◌++◌}
use e_pem.Result.{err, value_error, blueprint_protected}
use e_pem.Exec.{◌>>=◌, pure, raise}
use e_pem.PyDict.{has, lookup}
use e_pem.Performance.{start_operation, end_operation}
use e_pem.Blueprint.{serialize_content}
use e_pem.Blueprint.Destruction.{destroy}
use e_pem.BlueprintWorker.{
  WorkerMessage, WorkerMessageType, BlueprintMethods, BlueprintWorker, Services, Moment,
  BlueEventType, blue_created, listening, failed,
}
use e_pem.BlueprintWorker.Listening.{listen}
use e_pem.BlueprintWorker.Steps.{IsUp}
use e_pem.BlueprintWorker.Answers.{callers}
use e_pem.BlueprintWorker.Liveness.{callbacks_of, listen-answers, listen-strands, at_stop}
use e_pem.BlueprintWorker.Settling.{IsSettled, IsStored, listen-IsSettled}
use e_pem.Witnesses.Blueprints.{running, types, unwilling}

-- a class whose functions raise, and whose children are protected
abbrev methods : BlueprintMethods String String
methods = record {
  create = λ m. pure tt;
  method = λ function m. raise value_error;
  destroy = destroy unwilling;
  dump = λ m. m;
  text = λ e. "an exception";
}

abbrev worker : BlueprintWorker String
worker = record {
  running = running;
  performance = record {
    performance_dict = [];
    pending_operations = [];
    operations = [];
    provider_calls = [];
    stored = [];
  };
  events = [];
  answered = [];
  thread = listening;
}

-- Redis and the database are reached
abbrev up : Services
up = record { redis = λ event b. true; database = λ b. true }

up-IsUp : IsUp up
up-IsUp = record { redis = λ event b. refl; database = λ b. refl }

abbrev moment : Moment
moment = record { op_id = "o1"; started = 1; ended = 2 }

abbrev creation : WorkerMessage String
creation = record {
  message_type = WorkerMessageType.day0;
  message = some "config";
  path = "vyos";
  callback = some "c1";
}

abbrev call : WorkerMessage String
call = record {
  message_type = WorkerMessageType.day2;
  message = some "rule";
  path = "vyos/rule";
  callback = some "c2";
}

abbrev stopping : WorkerMessage String
stopping = record {
  message_type = WorkerMessageType.stop;
  message = none;
  path = "";
  callback = some "c3";
}

abbrev queue : List (WorkerMessage String × Moment)
queue = (creation, moment) ∷ (call, moment) ∷ []

listen-answers_example :
    ((listen up types methods queue worker).thread ≡ listening)
    × (callers (listen up types methods queue worker) ≡ [] ++ callbacks_of queue)
listen-answers_example = listen-answers up types methods up-IsUp queue worker refl (tt, (tt, tt))

still_listening : (listen up types methods queue worker).thread ≡ listening
still_listening = (listen-answers up types methods up-IsUp queue worker refl (tt, (tt, tt))).0

running_stored : IsStored worker
unfolding serialize_content has
running_stored = refl

listen-IsSettled_example :
    IsSettled (listen up types methods queue worker).running.base_model
    × IsStored (listen up types methods queue worker)
listen-IsSettled_example =
    listen-IsSettled up types methods queue worker still_listening (tt, (tt, tt)) (inr (refl, refl))
      running_stored

child_refused_at_stop : (destroy unwilling (at_stop worker)).0 ≡ err blueprint_protected
unfolding destroy ◌>>=◌
child_refused_at_stop = refl

listen-strands_example :
    ((listen up types methods ((stopping, moment) ∷ queue) worker).thread
      ≡ failed blueprint_protected)
    × ((listen up types methods ((stopping, moment) ∷ queue) worker).answered ≡ [])
listen-strands_example =
    listen-strands up types methods stopping moment queue worker blueprint_protected refl refl refl
      child_refused_at_stop

-- Redis refuses the event that a creation is done
abbrev unreached : Services
unreached = record up { redis = λ event b. is_not_done event }
  where
    is_not_done : BlueEventType → Bool
    is_not_done blue_created = false
    is_not_done _ = true

-- A creation that succeeds is then reported twice to its caller, and the thread goes on.
answered_twice :
    callers (listen unreached types methods ((creation, moment) ∷ []) worker) ≡ "c1" ∷ "c1" ∷ []
unfolding listen ◌>>=◌ start_operation end_operation lookup
answered_twice = refl

-- Redis refuses the event that a creation begins, and the next caller gets no answer.
begins_unanswered :
    callers (listen (record up { redis = λ event b. false }) types methods queue worker) ≡ []
unfolding listen ◌>>=◌
begins_unanswered = refl
