-- ===== src/BlueprintManager/Parts.antt =====
-- What the parts of the manager's operations do to its tables.
use e_pem.Prelude.{
  ℕ, String, ◌≡◌, refl, sym, ap, ◌∙◌, Bool, [], ◌==◌, arith, eq_iff, Bool-cases, inl, inr,
}
use e_pem.Exec.{modify}
use e_pem.Exec.Rules.{Keeps, Keeps-bind, Keeps-pure, Keeps-reads}
use e_pem.PyList.{length, get_at, update_at}
use e_pem.PyDict.{IsDict-put, lookup-put_same, lookup-put_other}
use e_pem.Blueprint.{BlueprintNgBaseModel, serialize_content}
use e_pem.BlueprintWorker.{WorkerMessage}
use e_pem.BlueprintManager.{
  Worker, BlueprintManager, worker_at, put_message, start_worker, save_ng_blue, set_protected,
}
use e_pem.BlueprintManager.Coherence.{
  IsCoherent, get_at-append, get_at-length, get_at-update_at, serialize_content_id,
}

module _ {M : Type 0} where
  pub Keeps-put_message : (i : ℕ) (m : WorkerMessage M) → Keeps IsCoherent (put_message i m)
  unfolding put_message
  Keeps-put_message i m = record {
    at = λ s c. record {
      unique = c.unique;
      placed = λ id j e.
          let old = c.placed id j e in
          let new =
            get_at-update_at (λ (w : Worker M). w.blueprint.id) s.workers j i _ old.0 (λ x. refl)
              old.1 in
          (new.0, new.1, new.2 ∙ old.2);
      documents_unique = c.documents_unique;
      named = c.named;
    };
  }

  pub Keeps-start_worker :
      (b : BlueprintNgBaseModel) (id : String)
      → b.id ≡ id
      → Keeps IsCoherent (start_worker {M = M} b id)
  unfolding start_worker
  Keeps-start_worker b id e = record {
    at = λ s c. record {
      unique = IsDict-put id _ s.worker_collection c.unique;
      placed = λ j i h. elim (Bool-cases (id == j)) [
        | inl same ↦ (
          record { blueprint = b; message_queue = [] },
          ap (get_at _) (
                sym (
                  ground (
                    arith,
                    lookup-put_same id (length s.workers) s.worker_collection,
                    eq_iff id j,
                    h,
                  )))
              ∙ get_at-length s.workers _,
          ground (arith, eq_iff id j),
        )
        | inr other ↦
            let old = c.placed j i (sym (lookup-put_other j id _ s.worker_collection other) ∙ h) in
            (old.0, get_at-append s.workers _ i old.0 old.1, old.2)
      ];
      documents_unique = c.documents_unique;
      named = c.named;
    };
  }

  pub Keeps-save_ng_blue : (b : BlueprintNgBaseModel) → Keeps IsCoherent (save_ng_blue {M = M} b)
  unfolding save_ng_blue
  Keeps-save_ng_blue b = record {
    at = λ s c. record {
      unique = c.unique;
      placed = c.placed;
      documents_unique = IsDict-put b.id _ s.documents c.documents_unique;
      named = λ j d h. elim (Bool-cases (b.id == j)) [
        | inl same ↦ ground (
          arith,
          lookup-put_same b.id (serialize_content b) s.documents,
          eq_iff b.id j,
          h,
          serialize_content_id b,
        )
        | inr other ↦ c.named j d (sym (lookup-put_other j b.id _ s.documents other) ∙ h)
      ];
    };
  }

  -- a change of the model of one worker that leaves its identifier
  pub Keeps-update :
      (i : ℕ) (f : Worker M → Worker M) (s : BlueprintManager M)
      → ((w : Worker M) → (f w).blueprint.id ≡ w.blueprint.id)
      → IsCoherent s
      → IsCoherent (record s { workers = update_at s.workers i f })
  Keeps-update i f s same c = record {
    unique = c.unique;
    placed = λ id j e.
        let old = c.placed id j e in
        let new =
          get_at-update_at (λ (w : Worker M). w.blueprint.id) s.workers j i f old.0 same old.1 in
        (new.0, new.1, new.2 ∙ old.2);
    documents_unique = c.documents_unique;
    named = c.named;
  }

  pub Keeps-set_protected :
      (i : ℕ) (protect : Bool) → Keeps IsCoherent (set_protected {M = M} i protect)
  unfolding set_protected modify
  Keeps-set_protected i protect =
      Keeps-bind _ _ (record { at = λ s c. Keeps-update i _ s (λ w. refl) c })
        (λ a.
          Keeps-bind _ _ (Keeps-reads (worker_at i))
            (λ w. Keeps-bind _ _ (Keeps-save_ng_blue w.blueprint) (λ b. Keeps-pure _)))
