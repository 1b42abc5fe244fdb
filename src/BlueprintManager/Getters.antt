-- ===== src/BlueprintManager/Getters.antt =====
-- blueprints_ng/lcm/blueprint_manager.py: what is read of the blueprints.
use e_pem.Prelude.{ℕ, String, Bool, false, Option, none, some, List, [], ◌∷◌, ◌==◌, if◌then◌else◌}
use e_pem.Result.{Result, ok, err, blueprint_not_found, ◌>>=◌}
use e_pem.PyDict.{lookup}
use e_pem.Resources.{
  Resource, VmResource, vm, helm_chart, net, vm_configuration, other_configuration,
}
use e_pem.Blueprint.{BlueprintNgBaseModel}
use e_pem.Blueprint.Loading.{from_db}
use e_pem.BlueprintManager.{BlueprintManager, worker_at, load_blue_from_db, Surroundings}

-- the blueprint of a worker of the collection
unfoldable pub in_memory : {M : Type 0} → ℕ → BlueprintManager M → Result BlueprintNgBaseModel
unfolding worker_at
in_memory position self = worker_at position self >>= λ w. ok w.blueprint

unfoldable pub found : Option BlueprintNgBaseModel → Result BlueprintNgBaseModel
found none = err blueprint_not_found
found (some blueprint) = ok blueprint

-- the loop of get_blueprint_summary_list: the ones in memory take the place of the loaded ones
unfoldable pub prefer_memory :
    {M : Type 0}
    → List BlueprintNgBaseModel
    → BlueprintManager M
    → Result (List BlueprintNgBaseModel)
unfolding in_memory
prefer_memory [] self = ok []
prefer_memory (blue ∷ rest) self = do
  blueprint ← elim (lookup blue.id self.worker_collection) [
    | none ↦ ok blue
    | some position ↦ in_memory position self
  ]
  blue_list ← prefer_memory rest self
  ok (blueprint ∷ blue_list)

-- the registered resources of type VmResource, in order
unfoldable pub registered_vms : List (String × Resource) → List VmResource
registered_vms [] = []
registered_vms ((key, resource) ∷ rest) =
    let vms = registered_vms rest in
    elim resource.value [
      | vm r ↦ r ∷ vms
      | helm_chart r ↦ vms
      | net r ↦ vms
      | vm_configuration r ↦ vms
      | other_configuration ↦ vms
    ]

abbrev has_ip : String → Option String → Bool
has_ip ipv4 none = false
has_ip ipv4 (some ip) = ipv4 == ip

abbrev first_with_ip : String → List VmResource → Option VmResource
first_with_ip ipv4 [] = none
first_with_ip ipv4 (r ∷ rest) = if has_ip ipv4 r.access_ip then some r else first_with_ip ipv4 rest

-- the two loops of get_vm_target_by_ip
unfoldable pub vm_of_any : String → List BlueprintNgBaseModel → Option VmResource
unfolding registered_vms
vm_of_any ipv4 [] = none
vm_of_any ipv4 (blue ∷ rest) =
    let later = vm_of_any ipv4 rest in
    elim (first_with_ip ipv4 (registered_vms blue.registered_resources)) [
      | some r ↦ some r
      | none ↦ later
    ]

module _ (around : Surroundings) where
  -- _load_all_blue_from_db, over the documents that the database gives for the type
  unfoldable pub load_all :
      List (String × BlueprintNgBaseModel) → Result (List BlueprintNgBaseModel)
  unfolding from_db
  load_all [] = ok []
  load_all ((blue_id, item) ∷ rest) = do
    blueprint ← from_db around.has_vim item
    blue_list ← load_all rest
    ok (blueprint ∷ blue_list)

  module _ {M : Type 0} where
    unfoldable pub get_blueprint_instance_by_id :
        String → BlueprintManager M → Result BlueprintNgBaseModel
    unfolding load_blue_from_db in_memory found
    get_blueprint_instance_by_id blueprint_id self =
        elim (lookup blueprint_id self.worker_collection) [
          | some position ↦ in_memory position self
          | none ↦ load_blue_from_db around blueprint_id self >>= found
        ]

    -- the blueprints of get_blueprint_summary_list without a filter; `to_dict` makes a document of each
    unfoldable pub get_blueprint_summary_list :
        BlueprintManager M → Result (List BlueprintNgBaseModel)
    unfolding load_all prefer_memory
    get_blueprint_summary_list self = load_all self.documents >>= λ l. prefer_memory l self

    unfoldable pub get_vm_target_by_ip : String → BlueprintManager M → Result (Option VmResource)
    unfolding load_all vm_of_any
    get_vm_target_by_ip ipv4 self = load_all self.documents >>= λ l. ok (vm_of_any ipv4 l)
