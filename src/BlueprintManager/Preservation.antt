-- ===== src/BlueprintManager/Preservation.antt =====
-- Every operation of the manager keeps its tables coherent, whether or not it raises.
use e_pem.Prelude.{
  ℕ, String, ◌≡◌, refl, sym, ap, ◌∙◌, subst, Option, none, some, arith, Option-cases, ◌⊎◌, inl, inr,
}
use e_pem.Result.{Error, ok, Result-cases}
use e_pem.Exec.{raise, pure, modify}
use e_pem.Exec.Rules.{
  Keeps, Keeps-bind, Keeps-for_each, Keeps-pure, Keeps-if, Keeps-raise, Keeps-reads, Keeps-lift,
  Keeps-try,
}
use e_pem.PyDict.{lookup, drop_key, IsDict-drop_key}
use e_pem.Performance.{PerformanceManager}
use e_pem.Blueprint.{BlueprintNgBaseModel}
use e_pem.Blueprint.Loading.{from_db, loaded}
use e_pem.BlueprintType.{BlueprintTypes}
use e_pem.BlueprintManager.{
  BlueprintManager, Surroundings, worker_at, start_worker, load_blue_from_db, get_worker,
  new_blueprint, refuse_existing, create_blueprint, delete_blueprint, skip_protected,
  delete_all_blueprints,
}
use e_pem.BlueprintManager.Coherence.{IsCoherent, lookup-drop_other}
use e_pem.BlueprintManager.Identity.{from_db_id}
use e_pem.BlueprintManager.Parts.{Keeps-put_message, Keeps-start_worker, Keeps-save_ng_blue}

module _ {M : Type 0} where
  module _ (around : Surroundings) where
    loaded_blueprint_id :
        (id : String) (s : BlueprintManager M) (b : BlueprintNgBaseModel)
        → IsCoherent s
        → load_blue_from_db around id s ≡ ok (some b)
        → b.id ≡ id
    unfolding load_blue_from_db
    loaded_blueprint_id id s b c h = elim (Option-cases (lookup id s.documents)) [
      | inl e ↦ absurd (ground (arith, h))
      | inr found ↦
          let e : from_db around.has_vim found.0 ≡ ok b = ground (arith, h, found.1) in
          from_db_id around.has_vim found.0 b e ∙ c.named id found.0 found.1
    ]

    pub get_worker_cases :
        (id : String) (s : BlueprintManager M)
        → ((get_worker around id s).1 ≡ s)
          ⊎ ((b : BlueprintNgBaseModel) × (load_blue_from_db around id s ≡ ok (some b))
              × (get_worker around id s ≡ start_worker b id s))
    unfolding get_worker
    get_worker_cases id s = elim (Option-cases (lookup id s.worker_collection)) [
      | inr found ↦ inl (ground (arith, found.1))
      | inl e ↦ elim (Result-cases (load_blue_from_db around id s)) [
        | inr failed ↦ inl (ground (arith, failed.1))
        | inl loaded ↦ elim (Option-cases loaded.0) [
          | inl gone ↦ inl (ground (arith, loaded.1))
          | inr there ↦
              inr (there.0, loaded.1 ∙ ap (λ x. ok x) there.1, ground (arith, loaded.1, there.1))
        ]
      ]
    ]

    pub Keeps-get_worker : (id : String) → Keeps IsCoherent (get_worker {M = M} around id)
    Keeps-get_worker id = record {
      at = λ s c. elim (get_worker_cases id s) [
        | inl same ↦ subst IsCoherent (sym same) c
        | inr started ↦
            subst (λ x. IsCoherent x.1) (sym started.2)
              ((Keeps-start_worker started.0 id (loaded_blueprint_id id s started.0 c started.1)).at
                s c)
      ];
    }

    Keeps-drop :
        (id : String)
        → Keeps IsCoherent (
            modify (λ (s : BlueprintManager M). record s {
              worker_collection = drop_key id s.worker_collection;
            }))
    unfolding modify
    Keeps-drop id = record {
      at = λ s c. record {
        unique = IsDict-drop_key id s.worker_collection c.unique;
        placed = λ j i e. c.placed j i (lookup-drop_other j id s.worker_collection i c.unique e);
        documents_unique = c.documents_unique;
        named = c.named;
      };
    }

    pub Keeps-delete_blueprint :
        (id : String) → Keeps IsCoherent (delete_blueprint {M = M} around id)
    unfolding delete_blueprint
    Keeps-delete_blueprint id = Keeps-bind _ _ (Keeps-get_worker id) (λ i.
        Keeps-bind _ _ (Keeps-reads (worker_at i)) (λ w.
          Keeps-if w.blueprint.protected _ _ (Keeps-raise _) (
            Keeps-bind _ _ (Keeps-put_message i _)
              (λ a. Keeps-bind _ _ (Keeps-drop id) (λ b. Keeps-pure id)))))

    Keeps-skip : (e : Error) → Keeps IsCoherent (skip_protected {M = M} around e)
    unfolding skip_protected pure raise
    Keeps-skip e = record { at = λ s c. subst IsCoherent (ground arith) c }

    pub Keeps-delete_all : Keeps IsCoherent (delete_all_blueprints {M = M} around)
    unfolding delete_all_blueprints
    Keeps-delete_all = record {
      at = λ s c.
          (Keeps-for_each s.documents _
              (λ entry. Keeps-try _ _ (Keeps-delete_blueprint entry.1.id) Keeps-skip)).at
            s c;
    }

    Keeps-refuse : (b : Option BlueprintNgBaseModel) → Keeps IsCoherent (refuse_existing {M = M} b)
    unfolding refuse_existing
    Keeps-refuse none = Keeps-pure tt
    Keeps-refuse (some b) = Keeps-raise _

    Keeps-measured :
        (f : PerformanceManager → PerformanceManager)
        → Keeps IsCoherent
            (modify (λ (s : BlueprintManager M). record s { performance = f s.performance }))
    unfolding modify
    Keeps-measured f = record {
      at = λ s c. record {
        unique = c.unique;
        placed = c.placed;
        documents_unique = c.documents_unique;
        named = c.named;
      };
    }

    pub Keeps-create_blueprint :
        (types : BlueprintTypes) (msg : Option M) (path blue_id : String) (now : ℕ)
        (parent callback : Option String)
        → Keeps IsCoherent (create_blueprint around types msg path blue_id now parent callback)
    unfolding create_blueprint
    Keeps-create_blueprint types msg path blue_id now parent callback =
        Keeps-bind _ _ (Keeps-reads _) (λ existing. Keeps-bind _ _ (Keeps-refuse existing) (λ a.
          Keeps-bind _ _ (Keeps-lift _) (λ name. Keeps-bind _ _ (Keeps-save_ng_blue _) (λ b.
            Keeps-bind _ _ (Keeps-start_worker _ blue_id (unfold new_blueprint in refl)) (λ i.
              Keeps-bind _ _ (Keeps-measured _)
                (λ c. Keeps-bind _ _ (Keeps-put_message i _) (λ d. Keeps-pure blue_id)))))))
