-- ===== src/BlueprintWorker/Steps.antt =====
-- What the steps say of which the cases of `_listen` are made.
use mathlib.Core.List.{append-nil}
use e_pem.Prelude.{String, ◌≡◌, refl, sym, ap, true, Option, none, some, List, [], ◌∷◌, ◌++◌, map}
use e_pem.Exec.{Exec}
use e_pem.Blueprint.{BlueprintNgBaseModel, BlueprintNgStatus}
use e_pem.Blueprint.Destruction.{Running}
use e_pem.Performance.{BlueprintPerformanceType}
use e_pem.BlueprintWorker.{
  BlueprintWorker, Services, blueprint, Moment, Answer, BlueEventType, on_running, update_model,
  set_status, store, trigger_redis_event, call_back, start_operation, end_operation, answer_ok,
  answer_error, report,
}
use e_pem.BlueprintWorker.Answers.{
  told, callers, Says, Answers, Says-of_same, Answers-bind, Answers-then,
}

-- Redis takes every event, and the database every model.
pub record IsUp (services : Services) : Type 0 where
  pub redis : (event : BlueEventType) (b : BlueprintNgBaseModel) → services.redis event b ≡ true
  pub database : (b : BlueprintNgBaseModel) → services.database b ≡ true

-- the steps that the cases of `_listen` are made of
module _ {R : Type 0} where
  pub Answers-store : (services : Services) → IsUp services → Answers [] (store {R = R} services)
  unfolding store
  Answers-store services up = record {
    returns = λ s. (tt, rw (up.database s.running.base_model) refl);
    at = λ s. rw (up.database s.running.base_model) (sym (append-nil (callers s)));
  }

  pub Answers-trigger :
      (services : Services)
      → IsUp services
      → (event : BlueEventType) → Answers [] (trigger_redis_event {R = R} services event)
  unfolding trigger_redis_event blueprint
  Answers-trigger services up event = record {
    returns = λ s. (tt, rw (up.redis event s.running.base_model) refl);
    at = λ s. rw (up.redis event s.running.base_model) (sym (append-nil (callers s)));
  }

  pub Answers-update_model :
      (f : BlueprintNgBaseModel → BlueprintNgBaseModel) → Answers [] (update_model {R = R} f)
  unfolding update_model
  Answers-update_model f = record {
    returns = λ s. (tt, refl);
    at = λ s. sym (append-nil (callers s));
  }

  pub Answers-set_status : (status : BlueprintNgStatus) → Answers [] (set_status {R = R} status)
  unfolding set_status
  Answers-set_status status = Answers-update_model _

  pub Answers-start_operation :
      (kind : BlueprintPerformanceType) (name : String) (t : Moment)
      → Answers [] (start_operation {R = R} kind name t)
  unfolding start_operation
  Answers-start_operation kind name t = record {
    returns = λ s. (_, refl);
    at = λ s. sym (append-nil (callers s));
  }

  pub Says-end_operation :
      (operation_id : Option String) (t : Moment) → Says [] (end_operation {R = R} operation_id t)
  unfolding end_operation
  Says-end_operation operation_id t = Says-of_same _ (λ s. refl)

  pub Says-on_running : {A : Type 0} (m : Exec Running A) → Says [] (on_running {R = R} m)
  unfolding on_running
  Says-on_running m = Says-of_same _ (λ s. refl)

  callers-append :
      (l : List (String × Answer R)) (name : String) (a : Answer R)
      → map (λ p. p.0) (l ++ (name, a) ∷ []) ≡ map (λ p. p.0) l ++ name ∷ []
  callers-append [] name a = refl
  callers-append (p ∷ l) name a = ap (λ k. p.0 ∷ k) (callers-append l name a)

  pub Answers-call_back :
      (callback : Option String) (answer : BlueprintWorker R → Answer R)
      → Answers (told callback) (λ s. call_back callback (answer s) s)
  unfolding call_back
  Answers-call_back none answer = record {
    returns = λ s. (tt, refl);
    at = λ s. sym (append-nil (callers s));
  }
  Answers-call_back (some name) answer = record {
    returns = λ s. (tt, refl);
    at = λ s. callers-append s.answered name (answer s);
  }

  pub Answers-answer_ok :
      (callback : Option String) (result : Option R)
      → Answers (told callback) (answer_ok {R = R} callback result)
  unfolding answer_ok
  Answers-answer_ok callback result = Answers-call_back callback _

  Answers-answer_error :
      (callback : Option String) (detail : String)
      → Answers (told callback) (answer_error {R = R} callback detail)
  unfolding answer_error
  Answers-answer_error callback detail = Answers-call_back callback _

  pub Answers-report :
      (services : Services)
      → IsUp services
      → (callback : Option String) (detail : String)
      → Answers (told callback) (report {R = R} services callback detail)
  unfolding report
  Answers-report services up callback detail = Answers-bind _ _ _ (Answers-update_model _) (λ a.
      Answers-then _ _ _ (Answers-answer_error callback detail)
        (λ b. Answers-trigger services up _))
