-- ===== src/BlueprintWorker/Cases.antt =====
-- What one message says: DAY0 and DAY2 return and call the callback once, whatever fails.
use mathlib.Core.List.{append-nil}
use e_pem.Prelude.{String, ◌≡◌, refl, sym, Option, none, some, List, [], ◌++◌}
use e_pem.Result.{Error, Result, ok}
use e_pem.Exec.{Exec, ◌>>◌, pure, lift, try_except}
use e_pem.Blueprint.{BlueprintNgStatus}
use e_pem.BlueprintType.{BlueprintTypes}
use e_pem.BlueprintWorker.{
  WorkerMessage, WorkerMessageType, BlueprintMethods, BlueprintWorker, Services, Moment, listening,
  BlueEventType, set_status, trigger_redis_event, store, blue_started_day0, blue_started_day2,
}
use e_pem.BlueprintWorker.Listening.{
  create_blueprint, record_call, function_of, call_function, day0, day2, dispatch, handle,
  next_thread,
}
use e_pem.BlueprintWorker.Answers.{
  told, callers, Says, Answers, Says-bind, Says-of_Answers, Says-of_same, Answers-bind,
  Answers-then, Answers-try,
}
use e_pem.BlueprintWorker.Steps.{
  IsUp, Answers-store, Answers-trigger, Answers-update_model, Answers-set_status,
  Answers-start_operation, Says-end_operation, Says-on_running, Answers-answer_ok, Answers-report,
}

abbrev pub IsRequest : WorkerMessageType → Type 0
IsRequest WorkerMessageType.stop = ⊥
IsRequest _ = Unit

module _ {M R : Type 0} (services : Services) (blueprint_type : BlueprintTypes)
    (methods : BlueprintMethods M R) (up : IsUp services) where
  create_blueprint-Says :
      (m : WorkerMessage M) (t : Moment)
      → Says (told m.callback) (create_blueprint services blueprint_type methods m t)
  unfolding create_blueprint
  create_blueprint-Says m t =
      Says-bind _ _ _ (Says-of_Answers _ _ (Answers-start_operation _ _ t)) (λ op.
        Says-bind _ _ _ (Says-on_running _) (λ a. Says-bind _ _ _ (Says-end_operation op t) (λ b.
          Says-of_Answers _ _ (
            Answers-then _ _ _ (Answers-answer_ok m.callback none) (λ c.
              Answers-bind _ _ _ (Answers-set_status _) (λ d. Answers-trigger services up _))))))

  -- what DAY0 and DAY2 have in common: a status, an event, a block under `try` and the database twice
  request-Answers :
      (names : List String) (status : BlueprintNgStatus) (event : BlueEventType)
      (block : Exec (BlueprintWorker R) (Unit {0}))
      (handler : Error → Exec (BlueprintWorker R) (Unit {0}))
      → Says names block
      → ((e : Error) → Answers names (handler e))
      → Answers names (do
        set_status status
        trigger_redis_event services event
        store services
        try_except block handler
        store services)
  request-Answers names status event block handler h k =
      Answers-bind _ _ _ (Answers-set_status status) (λ a.
        Answers-bind _ _ _ (Answers-trigger services up event) (λ b.
          Answers-bind _ _ _ (Answers-store services up)
            (λ c. Answers-then _ _ _ (Answers-try _ _ _ h k) (λ d. Answers-store services up))))

  day0-Answers :
      (m : WorkerMessage M) (t : Moment)
      → Answers (told m.callback) (day0 services blueprint_type methods m t)
  unfolding day0
  day0-Answers m t =
      let all = λ (s : BlueprintWorker R).
        request-Answers (told m.callback) _ blue_started_day0 _ _ (create_blueprint-Says m t)
          (λ e. Answers-report services up m.callback (methods.text e)) in
      record { returns = λ s. (all s).returns s; at = λ s. (all s).at s }

  record_call-Answers :
      (message : Option M)
      → Answers [] (record_call {R = R} services blueprint_type methods message)
  unfolding record_call pure
  record_call-Answers none = record {
    returns = λ s. (tt, refl);
    at = λ s. sym (append-nil (callers s));
  }
  record_call-Answers (some message) = Answers-update_model _

  function_of-Says :
      (kind : WorkerMessageType) (m : WorkerMessage M)
      → Says [] (function_of {R = R} services blueprint_type methods kind m)
  unfolding function_of lift pure
  function_of-Says WorkerMessageType.day2 m =
      Says-bind _ _ _ (Says-of_Answers _ _ (record_call-Answers m.message))
        (λ a. Says-of_same _ (λ s. refl))
  function_of-Says WorkerMessageType.day0 m = Says-of_same _ (λ s. refl)
  function_of-Says WorkerMessageType.day2_by_name m = Says-of_same _ (λ s. refl)
  function_of-Says WorkerMessageType.stop m = Says-of_same _ (λ s. refl)

  call_function-Says :
      (m : WorkerMessage M) (t : Moment)
      → Says (told m.callback) (call_function services blueprint_type methods m t)
  unfolding call_function
  call_function-Says m t = Says-bind _ _ _ (function_of-Says m.message_type m) (λ f.
      Says-bind _ _ _ (Says-of_Answers _ _ (Answers-start_operation _ _ t)) (λ op.
        Says-bind _ _ _ (Says-on_running _) (λ a. Says-bind _ _ _ (Says-end_operation op t) (λ b.
          Says-of_Answers _ _ (
            Answers-then _ _ _ (Answers-answer_ok m.callback (some a)) (λ c.
              Answers-bind _ _ _ (Answers-set_status _) (λ d. Answers-trigger services up _)))))))

  day2-Answers :
      (m : WorkerMessage M) (t : Moment)
      → Answers (told m.callback) (day2 services blueprint_type methods m t)
  unfolding day2
  day2-Answers m t =
      let all = λ (s : BlueprintWorker R).
        request-Answers (told m.callback) _ blue_started_day2 _ _ (call_function-Says m t)
          (λ e. Answers-report services up m.callback (methods.text e)) in
      record { returns = λ s. (all s).returns s; at = λ s. (all s).at s }

  pub dispatch-Answers :
      (kind : WorkerMessageType) (m : WorkerMessage M) (t : Moment)
      → IsRequest kind
      → Answers (told m.callback) (dispatch services blueprint_type methods kind m t)
  unfolding dispatch
  dispatch-Answers WorkerMessageType.day0 m t u = day0-Answers m t
  dispatch-Answers WorkerMessageType.day2 m t u = day2-Answers m t
  dispatch-Answers WorkerMessageType.day2_by_name m t u = day2-Answers m t
  dispatch-Answers WorkerMessageType.stop m t u = absurd u

  next_thread-listening :
      (kind : WorkerMessageType) (r : Result (Unit {0})) (a : Unit {0})
      → IsRequest kind
      → r ≡ ok a
      → next_thread services blueprint_type methods kind r ≡ listening
  unfolding next_thread
  next_thread-listening WorkerMessageType.stop r a u e = absurd u
  next_thread-listening WorkerMessageType.day0 r a u e = rw e
  next_thread-listening WorkerMessageType.day2 r a u e = rw e
  next_thread-listening WorkerMessageType.day2_by_name r a u e = rw e

  pub handle-Answers :
      (m : WorkerMessage M) (t : Moment) (s : BlueprintWorker R)
      → IsRequest m.message_type
      → ((handle services blueprint_type methods m t s).thread ≡ listening)
        × (callers (handle services blueprint_type methods m t s) ≡ callers s ++ told m.callback)
  unfolding handle
  handle-Answers m t s u =
      let h = dispatch-Answers m.message_type m t u in
      (next_thread-listening m.message_type _ (h.returns s).0 u (h.returns s).1, h.at s)
