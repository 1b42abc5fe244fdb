-- ===== src/Blueprint.antt =====
-- blueprints_ng/blueprint_ng.py: the base class of the blueprints, with its table of resources, its
-- children and its destruction.
pub mod Destruction
pub mod Loading
pub mod Entries
pub mod Reloading
pub mod Order
pub mod Failing
pub mod Registration
use e_pem.Prelude.{
  ℕ, String, Bool, true, false, not, ◌&&◌, Option, none, some, List, [], ◌∷◌, ◌++◌, ◌==◌, map,
  if◌then◌else◌,
}
use e_pem.Text.{concat}
use e_pem.Result.{Error, Result, ok, err, blueprint_exception}
use e_pem.Exec.{Exec, ◌>>=◌, ◌>>◌, pure, raise, reads, modify}
use e_pem.PyList.{contains, select, remove_first}
use e_pem.PyDict.{lookup, has, put, drop_key}
use e_pem.Resources.{
  Resource, ResourceValue, vm, helm_chart, net, vm_configuration, other_configuration, deployed_in,
}

pub data CurrentOperation : Type 0 where
  undefined idle deploying running_day2_op destroying : CurrentOperation

pub record BlueprintNgStatus : Type 0 where
  pub error : Bool
  pub current_operation : CurrentOperation
  pub detail : String

-- `BlueprintNGStatus(current_operation=…)`
unfoldable pub in_operation : CurrentOperation → String → BlueprintNgStatus
in_operation operation detail = record {
  error = false;
  current_operation = operation;
  detail = detail;
}

unfoldable pub being_deployed : String → BlueprintNgStatus
unfolding in_operation concat
being_deployed blue_id =
    in_operation deploying (concat ("The blueprint " ∷ blue_id ∷ " is being deployed..." ∷ []))

unfoldable pub being_destroyed : String → BlueprintNgStatus
unfolding in_operation concat
being_destroyed blue_id =
    in_operation destroying (concat ("The blueprint " ∷ blue_id ∷ " is being destroyed..." ∷ []))

-- `state` holds resources at places of its own; what is kept of it is a dump of the rest, and the
-- identifiers of those resources. `registered_resources` is in the order of registration.
pub record BlueprintNgBaseModel : Type 0 where
  pub id : String
  pub type : String
  pub parent_blue_id : Option String
  pub children_blue_ids : List String
  pub registered_resources : List (String × Resource)
  pub state : String
  pub state_resources : List String
  pub create_config : Option String
  pub corrupted : Bool
  pub protected : Bool
  pub status : BlueprintNgStatus
  pub day_2_call_history : List String

-- `resource.id and …`: an identifier that is None or empty does not count.
unfoldable pub given_id : Resource → Option String
given_id resource = elim resource.id [ none ↦ none | some id ↦ if id == "" then none else some id ]

-- `has_vim` tells for which areas the topology, which is taken to be there, finds a VIM; `new_id` is what
-- uuid4() gives.
unfoldable pub area_served : (has_vim : ℕ → Bool) → ResourceValue → Bool
unfolding deployed_in
area_served has_vim value = elim (deployed_in value) [ none ↦ true | some area ↦ has_vim area ]

-- the last lines of register_resource, for a resource that has its identifier
unfoldable pub insert_resource :
    (has_vim : ℕ → Bool) → String → Resource → Exec BlueprintNgBaseModel (Unit {0})
unfolding area_served modify raise
insert_resource has_vim id resource =
    if area_served has_vim resource.value
    then modify (λ self. record self {
      registered_resources =
          put id (record { id = some id; value = resource.value }) self.registered_resources;
    })
    else raise blueprint_exception

-- register_resource writes the identifier into the resource too: it is the value returned here.
unfoldable pub register_resource :
    (has_vim : ℕ → Bool) (new_id : String) → Resource → Exec BlueprintNgBaseModel String
unfolding given_id insert_resource reads raise pure
register_resource has_vim new_id resource = elim (given_id resource) [
  | none ↦ insert_resource has_vim new_id resource >>= λ _. pure new_id
  | some id ↦ do
    known ← reads (λ self. ok (has id self.registered_resources))
    if known then raise blueprint_exception else do insert_resource has_vim id resource; pure id
]

unfoldable pub deregister_resource_by_id : String → Exec BlueprintNgBaseModel (Unit {0})
deregister_resource_by_id resource_id self =
    if has resource_id self.registered_resources
    then (
      ok tt,
      record self { registered_resources = drop_key resource_id self.registered_resources },
    )
    else (err blueprint_exception, self)

unfoldable pub deregister_resource : Resource → Exec BlueprintNgBaseModel (Unit {0})
unfolding given_id deregister_resource_by_id raise
deregister_resource resource = elim (given_id resource) [
  | none ↦ raise blueprint_exception
  | some id ↦ deregister_resource_by_id id
]

unfoldable pub register_children : String → Exec BlueprintNgBaseModel (Unit {0})
register_children blue_id self =
    if contains (λ c. c == blue_id) self.children_blue_ids
    then (err blueprint_exception, self)
    else (ok tt, record self { children_blue_ids = self.children_blue_ids ++ blue_id ∷ [] })

unfoldable pub deregister_children : String → Exec BlueprintNgBaseModel (Unit {0})
deregister_children blue_id self =
    if contains (λ c. c == blue_id) self.children_blue_ids
    then (
      ok tt,
      record self { children_blue_ids = remove_first (λ c. c == blue_id) self.children_blue_ids },
    )
    else (err blueprint_exception, self)

-- the resources that a registered resource refers to: the machine of a configuration
unfoldable pub refers_to : ResourceValue → List String
refers_to (vm r) = []
refers_to (helm_chart r) = []
refers_to (net r) = []
refers_to (vm_configuration none) = "" ∷ []
refers_to (vm_configuration (some id)) = id ∷ []
refers_to other_configuration = []

abbrev all_in : List (String × Resource) → List String → Bool
all_in resources [] = true
all_in resources (id ∷ ids) = has id resources && all_in resources ids

-- whether every configuration refers to registered resources
unfoldable pub configurations_resolve : List (String × Resource) → List (String × Resource) → Bool
unfolding refers_to
configurations_resolve resources [] = true
configurations_resolve resources ((key, resource) ∷ rest) =
    all_in resources (refers_to resource.value) && configurations_resolve resources rest

unfoldable pub references_resolve : BlueprintNgBaseModel → Bool
unfolding configurations_resolve
references_resolve self =
    all_in self.registered_resources self.state_resources
    && configurations_resolve self.registered_resources self.registered_resources

-- __serialize_content: the document has identifiers in the place of resources. One that is not
-- registered is an error, which is logged, and the document says that it is corrupted.
unfoldable pub serialize_content : BlueprintNgBaseModel → BlueprintNgBaseModel
unfolding references_resolve
serialize_content self = if references_resolve self then self else record self { corrupted = true }
