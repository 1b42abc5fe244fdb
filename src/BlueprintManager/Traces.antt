-- ===== src/BlueprintManager/Traces.antt =====
-- Requests to the manager and progress of the workers' threads, in any order.
use e_pem.Prelude.{ℕ, String, ◌≡◌, Bool, Option, some, arith, inl, inr, Option-cases}
use e_pem.Result.{ok, Result-cases}
use e_pem.PyList.{get_at, update_at}
use e_pem.PyDict.{lookup, drop_key, IsDict-drop_key, lookup-put_same}
use e_pem.Blueprint.{BlueprintNgBaseModel}
use e_pem.BlueprintType.{BlueprintTypes}
use e_pem.BlueprintManager.{
  Worker, BlueprintManager, Surroundings, start_worker, save_ng_blue, get_worker, load_blue_from_db,
  create_blueprint, delete_blueprint, delete_all_blueprints, set_protected,
}
use e_pem.BlueprintManager.Coherence.{IsCoherent, lookup-drop_other}
use e_pem.BlueprintManager.Parts.{Keeps-update, Keeps-set_protected, Keeps-save_ng_blue}
use e_pem.BlueprintManager.Preservation.{
  Keeps-get_worker, Keeps-delete_blueprint, Keeps-delete_all, Keeps-create_blueprint,
}

module _ {M : Type 0} (around : Surroundings) where
  -- `work` is what a thread does to the model of its blueprint with a message, `save` a `to_db` of it,
  -- and `gone` the removal of a document at the end of a destruction.
  pub data Step : BlueprintManager M → BlueprintManager M → Type 0 where
    create :
        (types : BlueprintTypes) (msg : Option M) (path blue_id : String) (now : ℕ)
        (parent callback : Option String) (s : BlueprintManager M)
        → Step s (create_blueprint around types msg path blue_id now parent callback s).1
    get : (id : String) (s : BlueprintManager M) → Step s (get_worker around id s).1
    delete : (id : String) (s : BlueprintManager M) → Step s (delete_blueprint around id s).1
    delete_all : (s : BlueprintManager M) → Step s (delete_all_blueprints around s).1
    protect : (i : ℕ) (b : Bool) (s : BlueprintManager M) → Step s (set_protected i b s).1
    work :
        (i : ℕ) (f : Worker M → Worker M) (s : BlueprintManager M)
        → ((w : Worker M) → (f w).blueprint.id ≡ w.blueprint.id)
        → Step s (record s { workers = update_at s.workers i f })
    save : (b : BlueprintNgBaseModel) (s : BlueprintManager M) → Step s (save_ng_blue b s).1
    gone :
        (id : String) (s : BlueprintManager M)
        → Step s (record s { documents = drop_key id s.documents })

  pub data Reaches (s : BlueprintManager M) : BlueprintManager M → Type 0 where
    here : Reaches s s
    next : {t u : BlueprintManager M} → Reaches s t → Step t u → Reaches s u

  gone-IsCoherent :
      (id : String) (s : BlueprintManager M)
      → IsCoherent s
      → IsCoherent (record s { documents = drop_key id s.documents })
  gone-IsCoherent id s c = record {
    unique = c.unique;
    placed = c.placed;
    documents_unique = IsDict-drop_key id s.documents c.documents_unique;
    named = λ j b e. c.named j b (lookup-drop_other j id s.documents b c.documents_unique e);
  }

  Step-IsCoherent : {s t : BlueprintManager M} → Step s t → IsCoherent s → IsCoherent t
  Step-IsCoherent (create types msg path blue_id now parent callback s) c =
      (Keeps-create_blueprint around types msg path blue_id now parent callback).at s c
  Step-IsCoherent (get id s) c = (Keeps-get_worker around id).at s c
  Step-IsCoherent (delete id s) c = (Keeps-delete_blueprint around id).at s c
  Step-IsCoherent (delete_all s) c = (Keeps-delete_all around).at s c
  Step-IsCoherent (protect i b s) c = (Keeps-set_protected i b).at s c
  Step-IsCoherent (work i f s same) c = Keeps-update i f s same c
  Step-IsCoherent (save b s) c = (Keeps-save_ng_blue b).at s c
  Step-IsCoherent (gone id s) c = gone-IsCoherent id s c

  pub Reaches-IsCoherent : {s t : BlueprintManager M} → Reaches s t → IsCoherent s → IsCoherent t
  Reaches-IsCoherent here c = c
  Reaches-IsCoherent (next r step) c = Step-IsCoherent step (Reaches-IsCoherent r c)

  get_worker-recorded :
      (id : String) (s : BlueprintManager M) (i : ℕ)
      → (get_worker around id s).0 ≡ ok i
      → lookup id (get_worker around id s).1.worker_collection ≡ some i
  unfolding get_worker start_worker
  get_worker-recorded id s i h = elim (Option-cases (lookup id s.worker_collection)) [
    | inr found ↦ ground (arith, h, found.1)
    | inl e ↦ elim (Result-cases (load_blue_from_db around id s)) [
      | inr failed ↦ absurd (ground (arith, h, failed.1))
      | inl loaded ↦ elim (Option-cases loaded.0) [
        | inl missing ↦ absurd (ground (arith, h, loaded.1))
        | inr there ↦ ground (arith, h, loaded.1, there.1, lookup-put_same id i s.worker_collection)
      ]
    ]
  ]

  -- Whatever requests and steps of threads went before, in whatever order and whichever of them
  -- failed, `get_worker` gives a worker of the blueprint that is asked for, or raises.
  pub Reaches-get_worker :
      {s t : BlueprintManager M}
      → Reaches s t
      → IsCoherent s
      → (id : String) (i : ℕ) → (get_worker around id t).0 ≡ ok i
      → (w : Worker M) × (get_at (get_worker around id t).1.workers i ≡ ok w)
        × (w.blueprint.id ≡ id)
  Reaches-get_worker {t = t} r c id i h =
      ((Keeps-get_worker around id).at t (Reaches-IsCoherent r c)).placed id i
        (get_worker-recorded id t i h)
