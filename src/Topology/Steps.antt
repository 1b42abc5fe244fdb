-- ===== src/Topology/Steps.antt =====
-- The steps that the methods of topology/topology.py are made of: what each does, and which
-- properties of the object it keeps.
use e_pem.Prelude.{
  ℕ, String, ◌≡◌, refl, sym, subst, none, some, arith, inl, inr, Option-cases, Bool-cases,
}
use e_pem.Result.{Error, Result, Result-cases, ok, err, value_error, attribute_error}
use e_pem.Exec.{Exec, except_value_error, caught}
use e_pem.Exec.Rules.{Keeps, Keeps-raise, Keeps-reads, Keeps-bind}
use e_pem.TopologyModel.{TopologyModel}
use e_pem.Topology.{
  Topology, locked, on_model, read_model, save_topology_from_model, trigger_redis_event,
  trigger_topology_event, os_terraformer, TopologyEventType, Dump, of_model,
}

module _ {A : Type 0} (f : TopologyModel → Result (A × TopologyModel)) (s : Topology) where
  pub on_model-none : s.model ≡ none → on_model f s ≡ (err attribute_error, s)
  unfolding on_model
  on_model-none e = ground arith

  pub on_model-ok :
      (m m' : TopologyModel) (a : A)
      → s.model ≡ some m
      → f m ≡ ok (a, m')
      → on_model f s ≡ (ok a, record s { model = some m' })
  unfolding on_model
  on_model-ok m m' a e h = ground arith

  pub on_model-err :
      (m : TopologyModel) (x : Error) → s.model ≡ some m → f m ≡ err x → on_model f s ≡ (err x, s)
  unfolding on_model
  on_model-err m x e h = ground arith

pub save-none :
    (s : Topology) → s.model ≡ none → save_topology_from_model s ≡ (err attribute_error, s)
unfolding save_topology_from_model
save-none s e = ground arith

pub save-some :
    (s : Topology) (m : TopologyModel)
    → s.model ≡ some m
    → save_topology_from_model s ≡ (ok tt, record s { data_dump = some m; db = some m })
unfolding save_topology_from_model
save-some s m e = ground arith

caught-state : {S A : Type 0} (r : Result A) (s : S) → (caught (r, s)).1 ≡ s
caught-state (ok a) s = refl
caught-state (err value_error) s = refl
caught-state (err _) s = refl

-- A property of the object, kept by each kind of step.
module _ (P : Topology → Type 0) where
  module _ {A : Type 0} where
    pub on_model-Keeps :
        (f : TopologyModel → Result (A × TopologyModel))
        → ((s : Topology) (m m' : TopologyModel) (a : A)
            → P s
            → s.model ≡ some m
            → f m ≡ ok (a, m')
            → P (record s { model = some m' }))
        → Keeps P (on_model f)
    on_model-Keeps f step = record {
      at = λ s p. elim (Option-cases s.model) [
        | inl e ↦ rw (on_model-none f s e) p
        | inr (m, e) ↦ elim (Result-cases (f m)) [
          | inl ((a, m'), h) ↦ rw (on_model-ok f s m m' a e h) (step s m m' a p e h)
          | inr (x, h) ↦ rw (on_model-err f s m x e h) p
        ]
      ];
    }

    pub read_model-Keeps : (f : TopologyModel → Result A) → Keeps P (read_model f)
    unfolding read_model
    read_model-Keeps f = Keeps-reads (of_model f)

    pub os_terraformer-Keeps : (name : String) → Keeps P (os_terraformer {A = A} name)
    unfolding os_terraformer
    os_terraformer-Keeps name = Keeps-raise _

    pub except_value_error-Keeps :
        (m : Exec Topology A) → Keeps P m → Keeps P (except_value_error m)
    unfolding except_value_error
    except_value_error-Keeps m k = record {
      at = λ s p. subst P (sym (caught-state (m s).0 (m s).1)) (k.at s p);
    }

    pub locked-Keeps :
        (m : Exec Topology A)
        → ((s : Topology) (n : ℕ) → P s → P (record s { lock = n }))
        → Keeps P m
        → Keeps P (locked m)
    unfolding locked
    locked-Keeps m any k = record { at = λ s p. any _ _ (k.at _ (any s _ p)) }

  pub save_topology_from_model-Keeps :
      ((s : Topology) (m : TopologyModel)
        → P s
        → s.model ≡ some m
        → P (record s { data_dump = some m; db = some m }))
      → Keeps P save_topology_from_model
  save_topology_from_model-Keeps step = record {
    at = λ s p. elim (Option-cases s.model) [
      | inl e ↦ rw (save-none s e) p
      | inr (m, e) ↦ rw (save-some s m e) (step s m p e)
    ];
  }

  module _ (quiet : (s : Topology) (l : _) → P s → P (record s { events = l })) where
    pub trigger_redis_event-Keeps :
        (type : TopologyEventType) (dump : Dump) → Keeps P (trigger_redis_event type dump)
    unfolding trigger_redis_event
    trigger_redis_event-Keeps type dump = record {
      at = λ s p. elim (Bool-cases (s.redis type dump)) [
        | inl taken ↦ rw taken (quiet s _ p)
        | inr refused ↦ rw refused p
      ];
    }

    pub trigger_topology_event-Keeps :
        (type : TopologyEventType) → Keeps P (trigger_topology_event type)
    unfolding trigger_topology_event
    trigger_topology_event-Keeps type =
        Keeps-bind _ _ (read_model-Keeps (λ m. ok m)) (λ m. trigger_redis_event-Keeps type _)
