-- ===== src/Blueprint/Destruction.antt =====
-- blueprints_ng/blueprint_ng.py: `destroy` and `to_db`, with the calls of the providers.
use e_pem.Prelude.{String, Bool, Option, none, some, List, [], ◌∷◌, ◌++◌, if◌then◌else◌}
use e_pem.Result.{Error, ok, err, blueprint_not_found}
use e_pem.Exec.{Exec, ◌>>◌, pure, raise, modify, for_each, try_except}
use e_pem.Resources.{
  Resource, VmResource, HelmChartResource, vm, helm_chart, net, vm_configuration,
  other_configuration,
}
use e_pem.Blueprint.{BlueprintNgBaseModel, serialize_content, deregister_children}

-- what `destroy` asks of the providers
pub data ProviderCall : Type 0 where
  delete_blueprint : String → ProviderCall
  destroy_vm : VmResource → ProviderCall
  uninstall_helm_chart : HelmChartResource → ProviderCall
  final_cleanup : ProviderCall

-- The providers as `destroy` sees them: the exception that a call ends in, if it does, and whether it
-- stores the blueprint on its way (`save_to_db` is `to_db`).
pub record Providers : Type 0 where
  pub fails : ProviderCall → Option Error
  pub saves : ProviderCall → Bool

-- a blueprint at work: the model in memory, the document in the database, and the calls so far
pub record Running : Type 0 where
  pub base_model : BlueprintNgBaseModel
  pub stored : Option BlueprintNgBaseModel
  pub calls : List ProviderCall

unfoldable pub to_db : Exec Running (Unit {0})
unfolding modify
to_db = modify (λ self. record self { stored = some (serialize_content self.base_model) })

-- a method of the model alone
unfoldable pub on_model : {A : Type 0} → Exec BlueprintNgBaseModel A → Exec Running A
on_model method self =
    let (r, base_model) = method self.base_model in (r, record self { base_model = base_model })

-- except BlueprintNotFoundException: a warning
unfoldable pub skip_missing : Error → Exec Running (Unit {0})
unfolding pure raise
skip_missing blueprint_not_found = pure tt
skip_missing e = raise e

module _ (providers : Providers) where
  unfoldable pub note_call : ProviderCall → Running → Running
  unfolding to_db modify
  note_call call self =
      let noted = record self { calls = self.calls ++ call ∷ [] } in
      if providers.saves call then (to_db noted).1 else noted

  unfoldable pub provider : ProviderCall → Exec Running (Unit {0})
  unfolding note_call
  provider call self = elim (providers.fails call) [
    | none ↦ (ok tt, note_call call self)
    | some e ↦ (err e, note_call call self)
  ]

  -- the body of the loop over the children
  unfoldable pub destroy_child : String → Exec Running (Unit {0})
  unfolding provider try_except skip_missing on_model
  destroy_child children_id = do
    try_except (provider (delete_blueprint children_id)) skip_missing
    on_model (deregister_children children_id)

  -- the body of the loop over the registered resources
  unfoldable pub destroy_resource : String × Resource → Exec Running (Unit {0})
  unfolding provider pure
  destroy_resource (key, resource) = elim resource.value [
    | vm r ↦ provider (destroy_vm r)
    | helm_chart r ↦ provider (uninstall_helm_chart r)
    | net r ↦ pure tt
    | vm_configuration r ↦ pure tt
    | other_configuration ↦ pure tt
  ]

  -- destroy_ng_blue
  unfoldable pub remove_document : Exec Running (Unit {0})
  unfolding modify
  remove_document = modify (λ self. record self { stored = none })

  unfoldable pub destroy_resources : Exec Running (Unit {0})
  unfolding destroy_resource for_each
  destroy_resources self = for_each self.base_model.registered_resources destroy_resource self

  unfoldable pub destroy : Exec Running (Unit {0})
  unfolding destroy_child destroy_resources remove_document provider for_each
  destroy self =
      (do
        for_each self.base_model.children_blue_ids destroy_child
        destroy_resources
        provider final_cleanup
        remove_document)
        self
