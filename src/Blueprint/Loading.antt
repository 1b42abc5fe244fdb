-- ===== src/Blueprint/Loading.antt =====
-- blueprints_ng/blueprint_ng.py: `__from_db`, as far as it registers the resources of a document again.
-- Its validation of fields and its references inside the state are not modelled.
use e_pem.Prelude.{ℕ, String, Bool, true, false, none, some, List, [], if◌then◌else◌}
use e_pem.Result.{Result, ok, err}
use e_pem.Exec.{Exec, ◌>>=◌, ◌>>◌, pure, for_each}
use e_pem.Resources.{Resource, ResourceValue, deployed_in}
use e_pem.Blueprint.{BlueprintNgBaseModel, register_resource}

-- `resource["value"]["type"] == "ResourceDeployable"`
unfoldable pub is_deployable : ResourceValue → Bool
unfolding deployed_in
is_deployable value = elim (deployed_in value) [ none ↦ false | some area ↦ true ]

-- the body of each of the two loops; uuid4() is not reached, since the documents have identifiers.
unfoldable pub register_if :
    (has_vim : ℕ → Bool) → (Bool → Bool) → String × Resource → Exec BlueprintNgBaseModel (Unit {0})
unfolding is_deployable register_resource pure
register_if has_vim wanted (resource_id, resource) =
    if wanted (is_deployable resource.value)
    then (register_resource has_vim "" resource >>= λ id. pure tt)
    else pure tt

unfoldable pub register_saved :
    (has_vim : ℕ → Bool) → List (String × Resource) → Exec BlueprintNgBaseModel (Unit {0})
unfolding register_if for_each
register_saved has_vim resources = do
  for_each resources (register_if has_vim (λ deployable. deployable))
  for_each resources (register_if has_vim (λ deployable. if deployable then false else true))

abbrev pub loaded : {A : Type 0} → Result (Unit {0}) × A → Result A
loaded (ok u, a) = ok a
loaded (err e, a) = err e

unfoldable pub from_db : (has_vim : ℕ → Bool) → BlueprintNgBaseModel → Result BlueprintNgBaseModel
unfolding register_saved
from_db has_vim deserialized_dict = loaded (
    register_saved has_vim deserialized_dict.registered_resources
      (record deserialized_dict { registered_resources = [] }))
