-- ===== src/BlueprintWorker.antt =====
-- blueprints_ng/lcm/blueprint_worker.py: the thread of a blueprint, which takes the messages to it from
-- a queue, one at a time.
pub mod Listening
pub mod Answers
pub mod Steps
pub mod Cases
pub mod Settling
pub mod Liveness
use e_pem.Prelude.{
  ℕ, String, Bool, true, false, Option, none, some, List, [], ◌∷◌, ◌++◌, ◌==◌, if◌then◌else◌,
}
use e_pem.Text.{concat, last_part}
use e_pem.Result.{Error, Result, ok, err, redis_error, mongo_error}
use e_pem.Exec.{Exec, ◌>>=◌, ◌>>◌, pure, lift, reads, modify, try_except}
use e_pem.Performance
use e_pem.Performance.{PerformanceManager, BlueprintPerformanceType}
use e_pem.Blueprint.{
  BlueprintNgBaseModel, BlueprintNgStatus, CurrentOperation, in_operation, being_deployed,
  being_destroyed,
}
use e_pem.Blueprint.Destruction.{Running, to_db}
use e_pem.BlueprintType.{BlueprintTypes, get_function_to_be_called}

pub data WorkerMessageType : Type 0 where
  day0 day2 day2_by_name stop : WorkerMessageType

-- `message` is none where it is false in Python. A callback goes by a name.
pub record WorkerMessage (M : Type 0) : Type 0 where
  pub message_type : WorkerMessageType
  pub message : Option M
  pub path : String
  pub callback : Option String

pub data CallbackStatus : Type 0 where
  ok_status error_status : CallbackStatus

-- `operation` is always the text of CurrentOperation.IDLE
pub record BlueprintOperationCallbackModel (R : Type 0) : Type 0 where
  pub id : String
  pub operation : CurrentOperation
  pub status : CallbackStatus
  pub result : Option R
  pub detailed_status : Option String

-- what a callback is called with: after STOP the identifier alone
pub data Answer (R : Type 0) : Type 0 where
  model : BlueprintOperationCallbackModel R → Answer R
  destroyed : String → Answer R

pub data BlueEventType : Type 0 where
  blue_created blue_deleted blue_started_day0 blue_started_day2 : BlueEventType
  blue_end_day2 blue_start_day_n blue_error : BlueEventType

-- what has become of the thread: `failed` where an exception has left the loop
pub data Thread : Type 0 where
  listening : Thread
  finished : Thread
  failed : Error → Thread

-- The class of the blueprint. Its methods may change the model in any way, its status too; `dump` is
-- model_dump_json and `text` is str of an exception.
pub record BlueprintMethods (M : Type 0) (R : Type 0) : Type 0 where
  pub create : Option M → Exec Running (Unit {0})
  pub method : String → Option M → Exec Running R
  pub destroy : Exec Running (Unit {0})
  pub dump : M → String
  pub text : Error → String

-- `events` are the published ones with the model that they show, `answered` the calls of callbacks.
pub record BlueprintWorker (R : Type 0) : Type 0 where
  pub running : Running
  pub performance : PerformanceManager
  pub events : List (BlueEventType × BlueprintNgBaseModel)
  pub answered : List (String × Answer R)
  pub thread : Thread

-- Redis takes an event that shows a model, or the client raises, and so does the database for a model
-- that is stored.
pub record Services : Type 0 where
  pub redis : BlueEventType → BlueprintNgBaseModel → Bool
  pub database : BlueprintNgBaseModel → Bool

-- what the clock and uuid4() give while a message is handled
pub record Moment : Type 0 where
  pub op_id : String
  pub started : ℕ
  pub ended : ℕ

module _ {R : Type 0} where
  unfoldable pub blueprint : BlueprintWorker R → BlueprintNgBaseModel
  blueprint self = self.running.base_model

  unfoldable pub on_running : {A : Type 0} → Exec Running A → Exec (BlueprintWorker R) A
  on_running method self =
      let (r, running) = method self.running in (r, record self { running = running })

  unfoldable pub update_model :
      (BlueprintNgBaseModel → BlueprintNgBaseModel) → Exec (BlueprintWorker R) (Unit {0})
  unfolding on_running modify
  update_model f = on_running (modify (λ r. record r { base_model = f r.base_model }))

  unfoldable pub set_status : BlueprintNgStatus → Exec (BlueprintWorker R) (Unit {0})
  unfolding update_model
  set_status status = update_model (λ b. record b { status = status })

  unfoldable pub store : Services → Exec (BlueprintWorker R) (Unit {0})
  unfolding on_running to_db blueprint
  store services self =
      if services.database (blueprint self) then on_running to_db self else (err mongo_error, self)

  unfoldable pub trigger_redis_event :
      Services → BlueEventType → Exec (BlueprintWorker R) (Unit {0})
  unfolding blueprint
  trigger_redis_event services event self =
      if services.redis event (blueprint self)
      then (ok tt, record self { events = self.events ++ (event, blueprint self) ∷ [] })
      else (err redis_error, self)

  unfoldable pub call_back : Option String → Answer R → Exec (BlueprintWorker R) (Unit {0})
  call_back none answer self = (ok tt, self)
  call_back (some name) answer self =
      (ok tt, record self { answered = self.answered ++ (name, answer) ∷ [] })

  unfoldable pub start_operation :
      BlueprintPerformanceType → String → Moment → Exec (BlueprintWorker R) (Option String)
  unfolding blueprint
  start_operation operation_type op_name moment self =
      let (op, performance) =
        Performance.start_operation (blueprint self).id operation_type op_name moment.op_id
          moment.started self.performance in
      (ok op, record self { performance = performance })

  unfoldable pub end_operation : Option String → Moment → Exec (BlueprintWorker R) (Unit {0})
  end_operation operation_id moment self =
      let (r, performance) = Performance.end_operation operation_id moment.ended self.performance in
      (r, record self { performance = performance })

  unfoldable pub answer_ok : Option String → Option R → Exec (BlueprintWorker R) (Unit {0})
  unfolding call_back blueprint
  answer_ok callback result self =
      call_back callback
        (model (record {
          id = (blueprint self).id;
          operation = CurrentOperation.idle;
          status = ok_status;
          result = result;
          detailed_status = none;
        }))
        self

  unfoldable pub answer_error : Option String → String → Exec (BlueprintWorker R) (Unit {0})
  unfolding call_back blueprint
  answer_error callback detail self =
      call_back callback
        (model (record {
          id = (blueprint self).id;
          operation = CurrentOperation.idle;
          status = error_status;
          result = none;
          detailed_status = some detail;
        }))
        self

  -- `except Exception as e:` of the two kinds of requests
  unfoldable pub report : Services → Option String → String → Exec (BlueprintWorker R) (Unit {0})
  unfolding update_model answer_error trigger_redis_event
  report services callback detail = do
    update_model (λ b. record b { status = record b.status { error = true; detail = detail } })
    answer_error callback detail
    trigger_redis_event services blue_error
