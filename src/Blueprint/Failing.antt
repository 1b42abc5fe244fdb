-- ===== src/Blueprint/Failing.antt =====
-- What is left where `destroy` raises.
use e_pem.Prelude.{String, ◌≡◌, refl, Option, some, arith, Bool-cases, inl, inr}
use e_pem.Result.{Error, Result, ok, err}
use e_pem.Exec.{Exec, after, ◌>>=◌, pure, raise, for_each}
use e_pem.Exec.Rules.{Keeps, Keeps-bind, Keeps-for_each, Keeps-pure, Keeps-try}
use e_pem.Resources.{ResourceValue, vm, helm_chart, net, vm_configuration, other_configuration}
use e_pem.Blueprint.{BlueprintNgBaseModel, deregister_children}
use e_pem.Blueprint.Destruction.{
  ProviderCall, Providers, Running, to_db, on_model, skip_missing, note_call, provider,
  destroy_child, destroy_resource, destroy_resources, remove_document, destroy,
}

-- The database has a document of the blueprint.
abbrev pub HasDocument : Running → Type 0
HasDocument s = (d : BlueprintNgBaseModel) × (s.stored ≡ some d)

-- Where `m` raises, the document is still there.
record Spares {A : Type 0} (m : Exec Running A) : Type 0 where
  at : (s : Running) (e : Error) → HasDocument s → (m s).0 ≡ err e → HasDocument (m s).1

module _ {A B : Type 0} where
  after-Spares :
      (r : Result A) (f : A → Exec Running B) (s : Running) (e : Error)
      → ((a : A) → Spares (f a))
      → HasDocument s
      → (after r f s).0 ≡ err e
      → HasDocument (after r f s).1
  after-Spares (ok a) f s e h d p = (h a).at s e d p
  after-Spares (err x) f s e h d p = d

  Spares-bind :
      (m : Exec Running A) (f : A → Exec Running B)
      → Keeps HasDocument m
      → ((a : A) → Spares (f a))
      → Spares (m >>= f)
  unfolding ◌>>=◌
  Spares-bind m f k h = record { at = λ s e d p. after-Spares (m s).0 f (m s).1 e h (k.at s d) p }

Keeps-skip : (e : Error) → Keeps HasDocument (skip_missing e)
unfolding skip_missing pure raise
Keeps-skip e = record { at = λ s d. (d.0, ground (arith, d.1)) }

module _ (providers : Providers) where
  note_call-keeps :
      (call : ProviderCall) (s : Running) → HasDocument s → HasDocument (note_call providers call s)
  unfolding note_call to_db
  note_call-keeps call s d = elim (Bool-cases (providers.saves call)) [
    | inl e ↦ rw e (_, refl)
    | inr e ↦ rw e d
  ]

  Keeps-provider : (call : ProviderCall) → Keeps HasDocument (provider providers call)
  unfolding provider
  Keeps-provider call = record {
    at = λ s d. let kept = note_call-keeps call s d in (kept.0, ground (arith, kept.1));
  }

  Keeps-deregister : (c : String) → Keeps HasDocument (on_model (deregister_children c))
  unfolding on_model
  Keeps-deregister c = record { at = λ s d. d }

  Keeps-child : (c : String) → Keeps HasDocument (destroy_child providers c)
  unfolding destroy_child
  Keeps-child c =
      Keeps-bind _ _ (Keeps-try _ _ (Keeps-provider _) Keeps-skip) (λ a. Keeps-deregister c)

  Keeps-resource :
      (key : String) (id : Option String) (value : ResourceValue)
      → Keeps HasDocument (destroy_resource providers (key, record { id = id; value = value }))
  unfolding destroy_resource
  Keeps-resource key id (vm r) = Keeps-provider _
  Keeps-resource key id (helm_chart r) = Keeps-provider _
  Keeps-resource key id (net r) = Keeps-pure tt
  Keeps-resource key id (vm_configuration r) = Keeps-pure tt
  Keeps-resource key id other_configuration = Keeps-pure tt

  Keeps-resources : Keeps HasDocument (destroy_resources providers)
  unfolding destroy_resources
  Keeps-resources = record {
    at = λ s d.
        (Keeps-for_each s.base_model.registered_resources (destroy_resource providers)
            (λ e. Keeps-resource e.0 e.1.id e.1.value)).at
          s d;
  }

  removal-Spares : Spares (remove_document providers)
  unfolding remove_document
  removal-Spares = record { at = λ s e d p. absurd (ground (arith, p)) }

  -- A destruction that raises leaves the document of the blueprint in the database, wherever it stops.
  pub destroy-spares :
      (s : Running) (e : Error)
      → HasDocument s
      → (destroy providers s).0 ≡ err e
      → HasDocument (destroy providers s).1
  unfolding destroy
  destroy-spares s e d p =
      (Spares-bind (for_each s.base_model.children_blue_ids (destroy_child providers)) _
          (Keeps-for_each _ _ Keeps-child)
          (λ a.
            Spares-bind _ _ Keeps-resources
              (λ b. Spares-bind _ _ (Keeps-provider _) (λ c. removal-Spares)))).at
        s e d p
