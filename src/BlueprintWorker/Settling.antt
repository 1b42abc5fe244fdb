-- ===== src/BlueprintWorker/Settling.antt =====
-- What holds of a blueprint between two messages.
use e_pem.Prelude.{
  String, ◌≡◌, refl, subst, arith, Bool-cases, ◌⊎◌, inl, inr, true, false, Option, none, some, List,
  [], ◌∷◌,
}
use e_pem.Result.{Error, Result, ok, err}
use e_pem.Exec.{Exec, ◌>>◌, try_except}
use e_pem.Exec.Rules.{Keeps, Ensures, Ensures-bind, Ensures-then, Ensures-try, Keeps-bind}
use e_pem.PyList.{All}
use e_pem.Blueprint.{
  BlueprintNgBaseModel, BlueprintNgStatus, CurrentOperation, in_operation, serialize_content,
}
use e_pem.Blueprint.Destruction.{to_db}
use e_pem.BlueprintType.{BlueprintTypes}
use e_pem.BlueprintWorker.{
  WorkerMessage, WorkerMessageType, BlueprintMethods, BlueprintWorker, Services, blueprint, Moment,
  BlueEventType, listening, set_status, update_model, store, trigger_redis_event, answer_error,
  call_back, report,
}
use e_pem.BlueprintWorker.Listening.{
  create_blueprint, call_function, day0, day2, dispatch, handle, listen, next_thread,
}
use e_pem.BlueprintWorker.Cases.{IsRequest}
use e_pem.BlueprintWorker.Liveness.{listen-cons, listen-listening}

-- The blueprint is idle, or its last message has failed.
abbrev pub IsSettled : BlueprintNgBaseModel → Type 0
IsSettled b =
    (b.status.error ≡ true)
    ⊎ ((b.status.error ≡ false) × (b.status.current_operation ≡ CurrentOperation.idle))

-- What the database holds is the model in memory, as it is serialised.
abbrev pub IsStored : {R : Type 0} → BlueprintWorker R → Type 0
IsStored self = self.running.stored ≡ some (serialize_content self.running.base_model)

abbrev Settled : {R : Type 0} → BlueprintWorker R → Type 0
Settled self = IsSettled self.running.base_model

module _ {R : Type 0} (services : Services) where
  Keeps-trigger :
      (event : BlueEventType) → Keeps Settled (trigger_redis_event {R = R} services event)
  unfolding trigger_redis_event blueprint
  Keeps-trigger event = record {
    at = λ s h. elim (Bool-cases (services.redis event s.running.base_model)) [
      | inl taken ↦ rw taken h
      | inr refused ↦ rw refused h
    ];
  }

  Keeps-store : Keeps Settled (store {R = R} services)
  unfolding store blueprint
  Keeps-store = record {
    at = λ s h. elim (Bool-cases (services.database s.running.base_model)) [
      | inl taken ↦ rw taken h
      | inr refused ↦ rw refused h
    ];
  }

  Keeps-answer_error :
      (callback : Option String) (detail : String)
      → Keeps Settled (answer_error {R = R} callback detail)
  unfolding answer_error call_back
  Keeps-answer_error none detail = record { at = λ s h. h }
  Keeps-answer_error (some name) detail = record { at = λ s h. h }

  -- back to idle, and an event
  idle-settles :
      (event : BlueEventType)
      → Ensures Settled (do
        set_status {R = R} (in_operation CurrentOperation.idle "")
        trigger_redis_event services event)
  unfolding set_status update_model in_operation
  idle-settles event =
      Ensures-then _ _ (record { at = λ s a e. inr (refl, refl) }) (λ a. Keeps-trigger event)

  report-settles :
      (callback : Option String) (detail : String)
      → Ensures Settled (report {R = R} services callback detail)
  unfolding report update_model
  report-settles callback detail =
      Ensures-then _ _ (record { at = λ s a e. inl refl })
        (λ a. Keeps-bind _ _ (Keeps-answer_error callback detail) (λ b. Keeps-trigger _))

  store-stores : Ensures IsStored (store {R = R} services)
  unfolding store to_db blueprint
  store-stores = record {
    at = λ s a. elim (Bool-cases (services.database s.running.base_model)) [
      | inl taken ↦ rw taken (λ e. refl)
      | inr refused ↦ rw refused (λ e. absurd (ground (arith, e)))
    ];
  }

  request-settles :
      (status : BlueprintNgStatus) (event : BlueEventType)
      (block : Exec (BlueprintWorker R) (Unit {0}))
      (handler : Error → Exec (BlueprintWorker R) (Unit {0}))
      → Ensures Settled block
      → ((e : Error) → Ensures Settled (handler e))
      → Ensures Settled (do
        set_status status
        trigger_redis_event services event
        store services
        try_except block handler
        store services)
  request-settles status event block handler h k = Ensures-bind _ _ (λ a.
      Ensures-bind _ _
        (λ b. Ensures-bind _ _ (λ c. Ensures-then _ _ (Ensures-try _ _ h k) (λ d. Keeps-store))))

  request-stores :
      (status : BlueprintNgStatus) (event : BlueEventType)
      (block : Exec (BlueprintWorker R) (Unit {0}))
      → Ensures IsStored (do
        set_status status
        trigger_redis_event services event
        store services
        block
        store services)
  request-stores status event block =
      Ensures-bind _ _
        (λ a. Ensures-bind _ _ (λ b. Ensures-bind _ _ (λ c. Ensures-bind _ _ (λ d. store-stores))))

module _ {M R : Type 0} (services : Services) (blueprint_type : BlueprintTypes)
    (methods : BlueprintMethods M R) where
  create-settles :
      (m : WorkerMessage M) (t : Moment)
      → Ensures Settled (create_blueprint {R = R} services blueprint_type methods m t)
  unfolding create_blueprint
  create-settles m t = Ensures-bind _ _ (λ a.
      Ensures-bind _ _
        (λ b. Ensures-bind _ _ (λ c. Ensures-bind _ _ (λ d. idle-settles services _))))

  call-settles :
      (m : WorkerMessage M) (t : Moment)
      → Ensures Settled (call_function {R = R} services blueprint_type methods m t)
  unfolding call_function
  call-settles m t = Ensures-bind _ _ (λ f. Ensures-bind _ _ (λ a.
      Ensures-bind _ _
        (λ b. Ensures-bind _ _ (λ c. Ensures-bind _ _ (λ d. idle-settles services _)))))

  -- what the two kinds of requests leave, if they return
  Leaves : Exec (BlueprintWorker R) (Unit {0}) → BlueprintWorker R → Type 0
  Leaves m s = (a : Unit {0}) → (m s).0 ≡ ok a → Settled (m s).1 × IsStored (m s).1

  day0-Leaves :
      (m : WorkerMessage M) (t : Moment) (s : BlueprintWorker R)
      → Leaves (day0 services blueprint_type methods m t) s
  unfolding Leaves day0
  day0-Leaves m t s a e = (
    (request-settles services _ _ _ _ (create-settles m t)
          (λ x. report-settles services m.callback (methods.text x))).at
        s a e,
    (request-stores services _ _ _).at s a e,
  )

  day2-Leaves :
      (m : WorkerMessage M) (t : Moment) (s : BlueprintWorker R)
      → Leaves (day2 services blueprint_type methods m t) s
  unfolding Leaves day2
  day2-Leaves m t s a e = (
    (request-settles services _ _ _ _ (call-settles m t)
          (λ x. report-settles services m.callback (methods.text x))).at
        s a e,
    (request-stores services _ _ _).at s a e,
  )

  dispatch-Leaves :
      (kind : WorkerMessageType) (m : WorkerMessage M) (t : Moment) (s : BlueprintWorker R)
      → IsRequest kind
      → Leaves (dispatch services blueprint_type methods kind m t) s
  unfolding dispatch
  dispatch-Leaves WorkerMessageType.day0 m t s u = day0-Leaves m t s
  dispatch-Leaves WorkerMessageType.day2 m t s u = day2-Leaves m t s
  dispatch-Leaves WorkerMessageType.day2_by_name m t s u = day2-Leaves m t s
  dispatch-Leaves WorkerMessageType.stop m t s u = absurd u

  next-listening :
      (kind : WorkerMessageType) (r : Result (Unit {0}))
      → IsRequest kind
      → next_thread services blueprint_type methods kind r ≡ listening
      → r ≡ ok tt
  unfolding next_thread
  next-listening kind (ok a) u h = refl
  next-listening WorkerMessageType.day0 (err x) u h = absurd (ground (arith, h))
  next-listening WorkerMessageType.day2 (err x) u h = absurd (ground (arith, h))
  next-listening WorkerMessageType.day2_by_name (err x) u h = absurd (ground (arith, h))
  next-listening WorkerMessageType.stop (err x) u h = absurd u

  handle-settles :
      (m : WorkerMessage M) (t : Moment) (s : BlueprintWorker R)
      → IsRequest m.message_type
      → (handle services blueprint_type methods m t s).thread ≡ listening
      → Settled (handle services blueprint_type methods m t s)
        × IsStored (handle services blueprint_type methods m t s)
  unfolding handle Leaves
  handle-settles m t s u listens =
      dispatch-Leaves m.message_type m t s u tt (next-listening m.message_type _ u listens)

  -- As long as the thread listens, the blueprint is idle or marked as failed between two requests, and
  -- the database holds the model in memory, whatever the functions of the blueprint do to the model,
  -- and whether or not they, Redis or the database raise.
  pub listen-IsSettled :
      (queue : List (WorkerMessage M × Moment)) (s : BlueprintWorker R)
      → (listen services blueprint_type methods queue s).thread ≡ listening
      → All (λ q. IsRequest q.0.message_type) queue
      → IsSettled s.running.base_model
      → IsStored s
      → IsSettled (listen services blueprint_type methods queue s).running.base_model
        × IsStored (listen services blueprint_type methods queue s)
  listen-IsSettled [] s e u h k = unfold listen in (h, k)
  listen-IsSettled ((m, t) ∷ queue) s e u h k =
      let listened = listen-listening services blueprint_type methods ((m, t) ∷ queue) s e in
      let next = handle services blueprint_type methods m t s in
      let step = listen-cons services blueprint_type methods m t queue s listened in
      let ends = subst (λ w. w.thread ≡ listening) step e in
      let one =
        handle-settles m t s u.0
          (listen-listening services blueprint_type methods queue next ends) in
      rw step (listen-IsSettled queue next ends u.1 one.0 one.1)
