-- ===== src/References.antt =====
-- blueprints_ng/blueprint_ng.py: how a blueprint is stored with references in the place of the resources
-- that its state holds, and loaded again.
pub mod Paths
pub mod Rewriting
pub mod Loop
pub mod Recursion
pub mod Traversal
pub mod Restoring
use e_pem.Prelude.{
  String, Bool, true, false, Option, none, some, List, [], ◌∷◌, ◌++◌, ◌==◌, leb, if◌then◌else◌,
}
use e_pem.Result.{Result, ok, err, key_error, type_error, blueprint_exception, ◌>>=◌}
use e_pem.PyList.{length}
use e_pem.PyDict.{lookup, has}

-- the class of an object below Resource, as far as the searches tell them apart
pub data NodeClass : Type 0 where
  plain deployable configuration : NodeClass

-- The state of a blueprint, and its dump. A key is the name of a field, a key of a dictionary or the
-- position in a list. `reference` is a text that begins with `REF=` and has it
-- only there, without it. The class of an
-- object is not in a dump, and only the search in the object reads it.
mutual
  pub data Value : Type 0 where
    text : String → Value
    reference : String → Value
    scalar : Value
    node : NodeClass → Members → Value

  pub data Members : Type 0 where
    last : Members
    member : String → Value → Members → Members

module _ (check_fun : Value → Bool) where
  -- the path of the object itself, if it is one that is searched for
  abbrev pub here : Value → List String → List (List String)
  here obj path = if check_fun obj then path ∷ [] else []

  -- __find_field_occurrences
  unfoldable mutual
    pub find_field_occurrences : Value → List String → List (List String)
    find_field_occurrences (text s) path = here (text s) path
    find_field_occurrences (reference id) path = here (reference id) path
    find_field_occurrences scalar path = here scalar path
    find_field_occurrences (node c members) path =
        here (node c members) path ++ find_in_members members path

    pub find_in_members : Members → List String → List (List String)
    find_in_members last path = []
    find_in_members (member key value rest) path =
        find_field_occurrences value (path ++ key ∷ []) ++ find_in_members rest path

-- sorted(occ, key=lambda x: len(x), reverse=True), which is stable
unfoldable pub insert_path : List String → List (List String) → List (List String)
insert_path path [] = path ∷ []
insert_path path (other ∷ rest) =
    if leb (length other) (length path) then path ∷ other ∷ rest else other ∷ insert_path path rest

unfoldable pub longest_first : List (List String) → List (List String)
unfolding insert_path
longest_first [] = []
longest_first (path ∷ rest) = insert_path path (longest_first rest)

-- The loop over the keys of a path, and the assignment at its last.
module _ (replacement : Value → Result Value) where
  unfoldable mutual
    pub edit : Value → List String → Result Value
    edit value [] = replacement value
    edit (node c members) (key ∷ path) =
        edit_member members key path >>= λ changed. ok (node c changed)
    edit (text s) (key ∷ path) = err type_error
    edit (reference id) (key ∷ path) = err type_error
    edit scalar (key ∷ path) = err type_error

    pub edit_member : Members → String → List String → Result Members
    edit_member last key path = err key_error
    edit_member (member k value rest) key path =
        if k == key
        then (edit value path >>= λ changed. ok (member k changed rest))
        else (edit_member rest key path >>= λ changed. ok (member k value changed))

  -- the loop over the paths
  unfoldable pub edit_all : List (List String) → Value → Result Value
  unfolding edit
  edit_all [] value = ok value
  edit_all (path ∷ paths) value = edit value path >>= edit_all paths

-- `d["id"]`
unfoldable pub get_id : Members → Option Value
get_id last = none
get_id (member key value rest) =
    let later = get_id rest in if key == "id" then some value else later

-- The body of the loop of __override_variables_in_dict: an object becomes its reference. No key of the
-- registered resources begins with `REF=`, and a dictionary or a list is not hashable.
unfoldable pub to_reference : (registered : String → Bool) → Value → Result Value
unfolding get_id
to_reference registered (node c members) = elim (get_id members) [
  | none ↦ err key_error
  | some (text id) ↦ if registered id then ok (reference id) else err blueprint_exception
  | some (reference id) ↦ err blueprint_exception
  | some scalar ↦ err blueprint_exception
  | some (node d inner) ↦ err type_error
]
to_reference registered (text s) = err type_error
to_reference registered (reference id) = err type_error
to_reference registered scalar = err type_error

-- The body of the loop of __override_variables_in_dict_ref: a reference becomes the registered object.
unfoldable pub to_resource : List (String × Value) → Value → Result Value
to_resource registered_resource (reference id) = elim (lookup id registered_resource) [
  | none ↦ err key_error
  | some value ↦ ok value
]
to_resource registered_resource (text s) = err type_error
to_resource registered_resource scalar = err type_error
to_resource registered_resource (node c members) = err type_error

-- isinstance(obj, Resource)
abbrev pub is_resource : Value → Bool
is_resource (node plain members) = false
is_resource (node deployable members) = true
is_resource (node configuration members) = true
is_resource (text s) = false
is_resource (reference id) = false
is_resource scalar = false

-- isinstance(obj, str) and obj.startswith('REF=')
abbrev pub is_reference : Value → Bool
is_reference (reference id) = true
is_reference (text s) = false
is_reference scalar = false
is_reference (node c members) = false

-- __override_variables_in_dict for the class Resource, on the members of a state and their dump. A state
-- is neither a Resource nor a text, so the empty path, which has no last key, is not found in it.
unfoldable pub override_variables_in_dict : List (String × Value) → Members → Result Value
unfolding find_field_occurrences longest_first edit_all to_reference
override_variables_in_dict registered_resources state =
    let obj = node plain state in
    edit_all (to_reference (λ id. has id registered_resources))
      (longest_first (find_field_occurrences is_resource obj [])) obj

-- __override_variables_in_dict_ref, on a stored state
unfoldable pub override_variables_in_dict_ref : List (String × Value) → Members → Result Value
unfolding find_field_occurrences longest_first edit_all to_resource
override_variables_in_dict_ref registered_resource state =
    let obj = node plain state in
    edit_all (to_resource registered_resource)
      (longest_first (find_field_occurrences is_reference obj [])) obj
