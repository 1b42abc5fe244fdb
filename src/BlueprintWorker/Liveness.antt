-- ===== src/BlueprintWorker/Liveness.antt =====
-- Every caller that waits for a message other than STOP gets one answer, and a failing STOP leaves its
-- caller waiting.
use mathlib.Core.List.{append-nil, append_assoc}
use e_pem.Prelude.{String, ◌≡◌, refl, sym, ap, ◌∙◌, ◌⊎◌, inl, inr, true, List, [], ◌∷◌, ◌++◌, arith}
use e_pem.Result.{Error, Result, ok, err}
use e_pem.Exec.{Exec, after, ◌>>=◌, modify}
use e_pem.Blueprint.{being_destroyed}
use e_pem.Blueprint.Destruction.{Running}
use e_pem.PyList.{All}
use e_pem.BlueprintType.{BlueprintTypes}
use e_pem.BlueprintWorker.{
  WorkerMessage, WorkerMessageType, BlueprintMethods, BlueprintWorker, Services, Thread, Moment,
  listening, finished, failed, blue_start_day_n, set_status, update_model, on_running,
  trigger_redis_event, blueprint, start_operation,
}
use e_pem.BlueprintWorker.Listening.{stop, dispatch, handle, listen, next_thread}
use e_pem.BlueprintWorker.Answers.{told, callers}
use e_pem.BlueprintWorker.Steps.{IsUp}
use e_pem.BlueprintWorker.Cases.{IsRequest, handle-Answers}

-- the callbacks of a queue, in order
unfoldable pub callbacks_of : {M : Type 0} → List (WorkerMessage M × Moment) → List String
callbacks_of [] = []
callbacks_of ((m, t) ∷ queue) = told m.callback ++ callbacks_of queue

thread-cases : (t : Thread) → (t ≡ listening) ⊎ (t ≡ finished) ⊎ ((e : Error) × (t ≡ failed e))
thread-cases listening = inl refl
thread-cases finished = inr (inl refl)
thread-cases (failed e) = inr (inr (e, refl))

-- the blueprint that a STOP destroys
abbrev pub at_stop : {R : Type 0} → BlueprintWorker R → Running
at_stop self = record self.running {
  base_model = record self.running.base_model {
    status = being_destroyed self.running.base_model.id;
  };
}

module _ {M R : Type 0} (services : Services) (blueprint_type : BlueprintTypes)
    (methods : BlueprintMethods M R) where
  pub listen-cons :
      (m : WorkerMessage M) (t : Moment) (queue : List (WorkerMessage M × Moment))
      (s : BlueprintWorker R)
      → s.thread ≡ listening
      → listen services blueprint_type methods ((m, t) ∷ queue) s
        ≡ listen services blueprint_type methods queue
            (handle services blueprint_type methods m t s)
  unfolding listen
  listen-cons m t queue s e = ground arith

  -- The worker outlives its requests where Redis takes every event and the database every model: after
  -- any queue without STOP the thread still listens, whichever requests have failed, and exactly the
  -- callbacks of the queue were called, each once and in the order of the queue.
  pub listen-answers :
      IsUp services
      → (queue : List (WorkerMessage M × Moment)) (s : BlueprintWorker R) → s.thread ≡ listening
      → All (λ q. IsRequest q.0.message_type) queue
      → ((listen services blueprint_type methods queue s).thread ≡ listening)
        × (callers (listen services blueprint_type methods queue s)
            ≡ callers s ++ callbacks_of queue)
  unfolding callbacks_of
  listen-answers up [] s e u = unfold listen in (e, sym (append-nil (callers s)))
  listen-answers up ((m, t) ∷ queue) s e u =
      let one = handle-Answers services blueprint_type methods up m t s u.0 in
      let rest = listen-answers up queue (handle services blueprint_type methods m t s) one.0 u.1 in
      rw (listen-cons m t queue s e) (
        rest.0,
        rest.1
            ∙ ap (λ l. l ++ callbacks_of queue) one.1
            ∙ append_assoc (callers s) (told m.callback) (callbacks_of queue),
      )

  -- a thread that has ended takes nothing from the queue
  listen_dead :
      (queue : List (WorkerMessage M × Moment)) (s : BlueprintWorker R) (e : Error)
      → s.thread ≡ failed e
      → listen services blueprint_type methods queue s ≡ s
  unfolding listen
  listen_dead [] s e h = refl
  listen_dead ((m, t) ∷ queue) s e h = ground arith

  -- a thread that listens at the end has listened all the time
  pub listen-listening :
      (queue : List (WorkerMessage M × Moment)) (s : BlueprintWorker R)
      → (listen services blueprint_type methods queue s).thread ≡ listening
      → s.thread ≡ listening
  unfolding listen
  listen-listening [] s h = h
  listen-listening ((m, t) ∷ queue) s h = elim (thread-cases s.thread) [
    | inl e ↦ e
    | inr (inl e) ↦ ground arith
    | inr (inr (x, e)) ↦ ground arith
  ]

  after_raised :
      {A B : Type 0} (r : Result A) (f : A → Exec (BlueprintWorker R) B) (s : BlueprintWorker R)
      (e : Error)
      → r ≡ err e
      → after r f s ≡ (err e, s)
  after_raised (ok a) f s e h = absurd (ground (arith, h))
  after_raised (err x) f s e h = ground arith

  stop_raises :
      (m : WorkerMessage M) (t : Moment) (s : BlueprintWorker R) (e : Error)
      → services.redis blue_start_day_n (at_stop s).base_model ≡ true
      → (methods.destroy (at_stop s)).0 ≡ err e
      → ((stop services blueprint_type methods m t s).0 ≡ err e)
        × ((stop services blueprint_type methods m t s).1.answered ≡ s.answered)
  unfolding stop set_status update_model on_running modify trigger_redis_event blueprint
      start_operation ◌>>=◌
  stop_raises m t s e up h =
      let raised = after_raised _ _ _ e h in
      rw up (ap (λ x. x.0) raised, ap (λ x. x.1.answered) raised)

  handle-stop :
      (m : WorkerMessage M) (t : Moment) (s : BlueprintWorker R) (e : Error)
      → m.message_type ≡ WorkerMessageType.stop
      → services.redis blue_start_day_n (at_stop s).base_model ≡ true
      → (methods.destroy (at_stop s)).0 ≡ err e
      → ((handle services blueprint_type methods m t s).thread ≡ failed e)
        × ((handle services blueprint_type methods m t s).answered ≡ s.answered)
  unfolding handle dispatch next_thread
  handle-stop m t s e k up h = ground (arith, stop_raises m t s e up h)

  -- A STOP on which `destroy` raises, after Redis has taken the event that it begins, ends the thread:
  -- its caller is not told, and neither is any of the callers behind it in the queue, whatever they ask.
  pub listen-strands :
      (m : WorkerMessage M) (t : Moment) (queue : List (WorkerMessage M × Moment))
      (s : BlueprintWorker R) (e : Error)
      → s.thread ≡ listening
      → m.message_type ≡ WorkerMessageType.stop
      → services.redis blue_start_day_n (at_stop s).base_model ≡ true
      → (methods.destroy (at_stop s)).0 ≡ err e
      → ((listen services blueprint_type methods ((m, t) ∷ queue) s).thread ≡ failed e)
        × ((listen services blueprint_type methods ((m, t) ∷ queue) s).answered ≡ s.answered)
  listen-strands m t queue s e l k up h =
      let one = handle-stop m t s e k up h in
      rw
        (
          listen-cons m t queue s l,
          listen_dead queue (handle services blueprint_type methods m t s) e one.0,
        )
        one
