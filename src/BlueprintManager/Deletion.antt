-- ===== src/BlueprintManager/Deletion.antt =====
-- Deletion through the manager: protection, and what a deletion leaves while it runs.
use e_pem.Prelude.{
  ℕ, zero, suc, String, ◌≡◌, ◌≢◌, refl, sym, ap, ◌∙◌, subst, false, none, some, List, [], ◌∷◌, ◌++◌,
  arith, Bool-cases, if◌then◌else◌, inl, inr,
}
use e_pem.Result.{ok, err, blueprint_protected}
use e_pem.Exec.{◌>>=◌}
use e_pem.PyList.{length, get_at, update_at}
use e_pem.PyDict.{lookup, has, drop_key, IsDict, has-drop_key}
use e_pem.Blueprint.{BlueprintNgBaseModel}
use e_pem.Blueprint.Loading.{from_db}
use e_pem.BlueprintWorker.{WorkerMessage, WorkerMessageType}
use e_pem.BlueprintManager.{
  Worker, BlueprintManager, Surroundings, worker_at, start_worker, get_worker, load_blue_from_db,
  delete_blueprint,
}
use e_pem.BlueprintManager.Coherence.{IsCoherent, get_at-length, get_at-append}

-- the message that destroy_blueprint puts into the queue
unfoldable pub stop_message : {M : Type 0} → WorkerMessage M
stop_message = record {
  message_type = WorkerMessageType.stop;
  message = none;
  path = "";
  callback = none;
}

-- a worker with one more message
unfoldable pub with_message : {M : Type 0} → WorkerMessage M → Worker M → Worker M
with_message m w = record w { message_queue = w.message_queue ++ m ∷ [] }

module _ {ℓ} {A : Type ℓ} where
  get_at-update_self :
      (l : List A) (i : ℕ) (f : A → A) (a : A)
      → get_at l i ≡ ok a
      → get_at (update_at l i f) i ≡ ok (f a)
  unfolding get_at update_at
  get_at-update_self [] i f a h = absurd (ground arith)
  get_at-update_self (x ∷ l) zero f a h = ground arith
  get_at-update_self (x ∷ l) (suc i) f a h = get_at-update_self l i f a h

  length-update_at : (l : List A) (i : ℕ) (f : A → A) → length (update_at l i f) ≡ length l
  unfolding update_at
  length-update_at [] i f = refl
  length-update_at (x ∷ l) zero f = refl
  length-update_at (x ∷ l) (suc i) f = ap suc (length-update_at l i f)

  lookup_absent : (j : String) (d : List (String × A)) → has j d ≡ false → lookup j d ≡ none
  unfolding has lookup
  lookup_absent j [] h = refl
  lookup_absent j ((k, v) ∷ d) h = ground (arith, lookup_absent j d)

  length-get_at : (l : List A) (i : ℕ) (a : A) → get_at l i ≡ ok a → length l ≢ i
  unfolding get_at
  length-get_at [] i a h = absurd (ground arith)
  length-get_at (x ∷ l) zero a h = λ e. omega arith
  length-get_at (x ∷ l) (suc i) a h = λ e. length-get_at l i a h (omega arith)

module _ {M : Type 0} (around : Surroundings) where
  -- Deleting a blueprint whose worker is in the table: where it is protected the call raises
  -- BlueprintProtectedException and changes nothing; else the worker gets STOP behind the messages that
  -- it has, the table loses the blueprint, and nothing else changes.
  pub delete_blueprint-known :
      (id : String) (i : ℕ) (w : Worker M) (s : BlueprintManager M)
      → lookup id s.worker_collection ≡ some i
      → get_at s.workers i ≡ ok w
      → delete_blueprint around id s ≡ (
          if w.blueprint.protected then (err blueprint_protected, s) else (
            ok id,
            record s {
              workers = update_at s.workers i (with_message stop_message);
              worker_collection = drop_key id s.worker_collection;
            },
          ))
  unfolding delete_blueprint ◌>>=◌ get_worker worker_at with_message stop_message
  delete_blueprint-known id i w s found there = elim (Bool-cases w.blueprint.protected) [
    | inl p ↦ ground (arith, found, there)
    | inr p ↦ ground (arith, found, there)
  ]

  module _ (id : String) (i : ℕ) (w : Worker M) (b : BlueprintNgBaseModel)
      (s : BlueprintManager M) where
    deleted_lem :
        lookup id s.worker_collection ≡ some i
        → get_at s.workers i ≡ ok w
        → w.blueprint.protected ≡ false
        → (delete_blueprint around id s).1 ≡ record s {
          workers = update_at s.workers i (with_message stop_message);
          worker_collection = drop_key id s.worker_collection;
        }
    deleted_lem found there free =
        ap (λ x. x.1)
          (subst
            (λ p. delete_blueprint around id s ≡ (
              if p then (err blueprint_protected, s) else (
                ok id,
                record s {
                  workers = update_at s.workers i (with_message stop_message);
                  worker_collection = drop_key id s.worker_collection;
                },
              )))
            free (delete_blueprint-known id i w s found there))

    restarted :
        (t : BlueprintManager M)
        → lookup id t.worker_collection ≡ none
        → load_blue_from_db around id t ≡ ok (some b)
        → get_worker around id t ≡ start_worker b id t
    unfolding get_worker
    restarted t e loaded = ground (arith, e, loaded)

    load_blueprint :
        (d : BlueprintNgBaseModel) (t : BlueprintManager M)
        → lookup id t.documents ≡ some d
        → from_db around.has_vim d ≡ ok b
        → load_blue_from_db around id t ≡ ok (some b)
    unfolding load_blue_from_db
    load_blueprint d t e l = ground (arith, e, l)

    two_workers :
        (t : BlueprintManager M)
        → t ≡ record s {
          workers = update_at s.workers i (with_message stop_message);
          worker_collection = drop_key id s.worker_collection;
        }
        → IsDict s.worker_collection
        → get_at s.workers i ≡ ok w
        → load_blue_from_db around id s ≡ ok (some b)
        → ((get_worker around id t).0 ≡ ok (length s.workers))
          × (get_at (get_worker around id t).1.workers i ≡ ok (with_message stop_message w))
          × (get_at (get_worker around id t).1.workers (length s.workers)
              ≡ ok (record { blueprint = b; message_queue = [] }))
    unfolding load_blue_from_db
    two_workers t e u there loaded =
        let t' = record s {
          workers = update_at s.workers i (with_message stop_message);
          worker_collection = drop_key id s.worker_collection;
        } in
        let new =
          restarted t' (lookup_absent id _ (has-drop_key id s.worker_collection u)) loaded in
        let started = ap (get_worker around id) e ∙ new in
        unfold start_worker in
        (
          ap (λ x. x.0) started ∙ ap (λ n. ok n) (length-update_at s.workers i _),
          ap (λ x. get_at x.1.workers i) started
              ∙ get_at-append _ _ i _ (get_at-update_self s.workers i _ w there),
          ap (λ x. get_at x.1.workers (length s.workers)) started
              ∙ ap
                  (λ n.
                    get_at
                      (update_at s.workers i (with_message stop_message)
                        ++ (record { blueprint = b; message_queue = [] }) ∷ [])
                      n)
                  (sym (length-update_at s.workers i _))
              ∙ get_at-length _ _,
        )

  -- After the deletion of a blueprint, while its thread has not removed the document yet, the next call
  -- of `get_worker` starts a second worker of it: the old one has STOP in its queue and goes on.
  pub get_worker-delete_blueprint :
      (id : String) (i : ℕ) (w : Worker M) (d b : BlueprintNgBaseModel) (s : BlueprintManager M)
      → IsCoherent s
      → lookup id s.worker_collection ≡ some i
      → get_at s.workers i ≡ ok w
      → w.blueprint.protected ≡ false
      → lookup id s.documents ≡ some d
      → from_db around.has_vim d ≡ ok b
      → (length s.workers ≢ i)
        × ((get_worker around id (delete_blueprint around id s).1).0 ≡ ok (length s.workers))
        × (get_at (get_worker around id (delete_blueprint around id s).1).1.workers i
            ≡ ok (with_message stop_message w))
        × (get_at
              (get_worker around id (delete_blueprint around id s).1).1.workers
              (length s.workers)
            ≡ ok (record { blueprint = b; message_queue = [] }))
  get_worker-delete_blueprint id i w d b s c found there free document loads =
      let two =
        two_workers id i w b s (delete_blueprint around id s).1
          (deleted_lem id i w b s found there free) c.unique there
          (load_blueprint id i w b s d s document loads) in
      (length-get_at s.workers i w there, two.0, two.1, two.2)
