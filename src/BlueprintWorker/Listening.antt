-- ===== src/BlueprintWorker/Listening.antt =====
-- blueprints_ng/lcm/blueprint_worker.py: `_listen`, case by case.
use e_pem.Prelude.{String, Option, none, some, List, [], ◌∷◌, ◌++◌}
use e_pem.Text.{concat, last_part}
use e_pem.Result.{Result, ok, err}
use e_pem.Exec.{Exec, ◌>>=◌, ◌>>◌, pure, lift, try_except}
use e_pem.Performance.{BlueprintPerformanceType}
use e_pem.Blueprint.{CurrentOperation, in_operation, being_deployed, being_destroyed}
use e_pem.BlueprintType.{BlueprintTypes, get_function_to_be_called}
use e_pem.BlueprintWorker.{
  WorkerMessage, WorkerMessageType, BlueprintMethods, BlueprintWorker, Services, Moment, Thread,
  listening, finished, failed, destroyed, blue_created, blue_deleted, blue_started_day0,
  blue_started_day2, blue_end_day2, blue_start_day_n, blueprint, on_running, update_model,
  set_status, store, trigger_redis_event, call_back, start_operation, end_operation, answer_ok,
  report,
}

-- the status while a function of the blueprint runs
unfoldable pub calling_day2 : String → String → String
unfolding concat
calling_day2 path blue_id =
    concat ("Calling DAY2 function " ∷ path ∷ " on blueprint " ∷ blue_id ∷ [])

module _ {M R : Type 0} (services : Services) (blueprint_type : BlueprintTypes)
    (methods : BlueprintMethods M R) where
  -- the block under `try` of DAY0
  unfoldable pub create_blueprint : WorkerMessage M → Moment → Exec (BlueprintWorker R) (Unit {0})
  unfolding start_operation on_running end_operation answer_ok set_status trigger_redis_event
  create_blueprint received_message moment = do
    performance_operation_id ← start_operation BlueprintPerformanceType.day0 "create" moment
    on_running (methods.create received_message.message)
    end_operation performance_operation_id moment
    answer_ok received_message.callback none
    set_status (in_operation CurrentOperation.idle "")
    trigger_redis_event services blue_created

  unfoldable pub day0 : WorkerMessage M → Moment → Exec (BlueprintWorker R) (Unit {0})
  unfolding set_status being_deployed blueprint trigger_redis_event store create_blueprint report
      try_except
  day0 received_message moment self =
      (do
        set_status (being_deployed (blueprint self).id)
        trigger_redis_event services blue_started_day0
        store services
        try_except (create_blueprint received_message moment)
            (λ e. report services received_message.callback (methods.text e))
        store services)
        self

  -- `if received_message.message:` the call goes into the history
  unfoldable pub record_call : Option M → Exec (BlueprintWorker R) (Unit {0})
  unfolding pure update_model
  record_call none = pure tt
  record_call (some message) =
      update_model
        (λ b. record b { day_2_call_history = b.day_2_call_history ++ methods.dump message ∷ [] })

  -- the function of a DAY2 message by its path, and that of DAY2_BY_NAME as it is
  unfoldable pub function_of : WorkerMessageType → WorkerMessage M → Exec (BlueprintWorker R) String
  unfolding pure record_call lift get_function_to_be_called
  function_of WorkerMessageType.day2 received_message = do
    record_call received_message.message
    lift (get_function_to_be_called received_message.path blueprint_type)
  function_of _ received_message = pure received_message.path

  -- the block under `try` of DAY2 and DAY2_BY_NAME
  unfoldable pub call_function : WorkerMessage M → Moment → Exec (BlueprintWorker R) (Unit {0})
  unfolding function_of start_operation on_running end_operation answer_ok set_status
      trigger_redis_event
  call_function received_message moment = do
    function ← function_of received_message.message_type received_message
    performance_operation_id ←
        start_operation BlueprintPerformanceType.day2 (last_part b'/' received_message.path) moment
    result ← on_running (methods.method function received_message.message)
    end_operation performance_operation_id moment
    answer_ok received_message.callback (some result)
    set_status (in_operation CurrentOperation.idle "")
    trigger_redis_event services blue_end_day2

  unfoldable pub day2 : WorkerMessage M → Moment → Exec (BlueprintWorker R) (Unit {0})
  unfolding set_status blueprint trigger_redis_event store call_function report try_except
      in_operation calling_day2
  day2 received_message moment self =
      (do
        set_status (
            in_operation CurrentOperation.running_day2_op
              (calling_day2 received_message.path (blueprint self).id))
        trigger_redis_event services blue_started_day2
        store services
        try_except (call_function received_message moment)
            (λ e. report services received_message.callback (methods.text e))
        store services)
        self

  -- STOP has no `try`
  unfoldable pub stop : WorkerMessage M → Moment → Exec (BlueprintWorker R) (Unit {0})
  unfolding set_status being_destroyed blueprint trigger_redis_event start_operation on_running
      end_operation call_back
  stop received_message moment self =
      (do
        set_status (being_destroyed (blueprint self).id)
        trigger_redis_event services blue_start_day_n
        performance_operation_id ← start_operation BlueprintPerformanceType.deletion "delete" moment
        on_running methods.destroy
        end_operation performance_operation_id moment
        call_back received_message.callback (destroyed (blueprint self).id)
        trigger_redis_event services blue_deleted)
        self

  unfoldable pub dispatch :
      WorkerMessageType → WorkerMessage M → Moment → Exec (BlueprintWorker R) (Unit {0})
  unfolding day0 day2 stop
  dispatch WorkerMessageType.day0 = day0
  dispatch WorkerMessageType.day2 = day2
  dispatch WorkerMessageType.day2_by_name = day2
  dispatch WorkerMessageType.stop = stop

  -- `break` after STOP; an exception that no `except` has caught ends the thread.
  unfoldable pub next_thread : WorkerMessageType → Result (Unit {0}) → Thread
  next_thread WorkerMessageType.stop (ok u) = finished
  next_thread _ (ok u) = listening
  next_thread _ (err e) = failed e

  -- one round of the loop
  unfoldable pub handle : WorkerMessage M → Moment → BlueprintWorker R → BlueprintWorker R
  unfolding dispatch next_thread
  handle received_message moment self =
      let (r, left) = dispatch received_message.message_type received_message moment self in
      record left { thread = next_thread received_message.message_type r }

  -- The loop over the messages that the queue gives; they stay there once the thread has ended.
  unfoldable pub listen : List (WorkerMessage M × Moment) → BlueprintWorker R → BlueprintWorker R
  unfolding handle
  listen [] self = self
  listen ((received_message, moment) ∷ queue) self = elim self.thread [
    | listening ↦ listen queue (handle received_message moment self)
    | finished ↦ self
    | failed e ↦ self
  ]
