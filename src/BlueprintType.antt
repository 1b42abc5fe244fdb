-- ===== src/BlueprintType.antt =====
-- blueprints_ng/lcm/blueprint_type_manager.py: the classes of blueprints by type, and their functions
-- by the path of a request.
pub mod Routes
use e_pem.Prelude.{
  ℕ, String, Bool, true, false, Option, none, some, List, [], ◌∷◌, ◌++◌, ◌==◌, map, if◌then◌else◌,
}
use e_pem.Text.{concat, last_part, first_part}
use e_pem.Result.{Error, Result, ok, err, value_error, blueprint_type_not_declared, ◌>>=◌, ◌>>◌}
use e_pem.Exec
use e_pem.Exec.{Exec, for_each}
use e_pem.PyDict
use e_pem.PyDict.{lookup, has}

pub data HttpRequestType : Type 0 where
  get post put patch delete : HttpRequestType

-- A function of a class goes by its name.
pub record BlueprintDay2Route : Type 0 where
  pub blue_type : String
  pub final_path : String
  pub methods : List HttpRequestType
  pub function : String

pub record BlueprintModule : Type 0 where
  pub module_name : String
  pub class_name : String
  pub path : String

-- A class that the decorator gets: `methods` are those with `day2_fun`, as `day2_function` marks them.
pub record Day2Function : Type 0 where
  pub name : String
  pub final_path : String
  pub request_type : List HttpRequestType

pub record BlueprintClass : Type 0 where
  pub module_name : String
  pub qualname : String
  pub methods : List Day2Function

-- the two mappings of the class `blueprint_type`
pub record BlueprintTypes : Type 0 where
  pub blueprint_module_mapping : List (String × BlueprintModule)
  pub path_function_mapping : List (String × BlueprintDay2Route)

unfoldable pub endpoint_path : String → String → String
unfolding concat
endpoint_path blue_type final_path = concat (blue_type ∷ final_path ∷ [])

unfoldable pub register_day2 : String → Day2Function → Exec BlueprintTypes (Unit {0})
unfolding endpoint_path
register_day2 blue_type method self =
    if has method.final_path self.path_function_mapping then (err value_error, self) else (
      ok tt,
      record self {
        path_function_mapping =
            PyDict.put (endpoint_path blue_type method.final_path)
              (record {
                blue_type = blue_type;
                final_path = method.final_path;
                methods = method.request_type;
                function = method.name;
              })
              self.path_function_mapping;
      },
    )

-- __call__
unfoldable pub register_class : String → BlueprintClass → Exec BlueprintTypes (Unit {0})
unfolding register_day2 for_each
register_class blue_type original_class self =
    if has blue_type self.blueprint_module_mapping
    then (err value_error, self)
    else for_each original_class.methods (register_day2 blue_type) (record self {
      blueprint_module_mapping =
          PyDict.put blue_type
            (record {
              module_name = original_class.module_name;
              class_name = original_class.qualname;
              path = blue_type;
            })
            self.blueprint_module_mapping;
    })

unfoldable pub get_blueprint_module : String → BlueprintTypes → Result BlueprintModule
get_blueprint_module blue_type self = elim (lookup blue_type self.blueprint_module_mapping) [
  | none ↦ err blueprint_type_not_declared
  | some module_info ↦ ok module_info
]

-- The class goes by its name: `importlib` gives the object.
unfoldable pub get_blueprint_class : String → BlueprintTypes → Result String
unfolding get_blueprint_module
get_blueprint_class blue_path self = do
  module_info ← get_blueprint_module (last_part b'/' blue_path) self
  ok module_info.class_name

unfoldable pub get_route : String → BlueprintTypes → Result BlueprintDay2Route
get_route path self = elim (lookup path self.path_function_mapping) [
  | none ↦ err value_error
  | some route ↦ ok route
]

-- the loop of get_module_routes, over the keys of the mapping
unfoldable pub routes_of : String → List (String × BlueprintDay2Route) → List BlueprintDay2Route
routes_of module_name [] = []
routes_of module_name ((key, route) ∷ rest) =
    let routes = routes_of module_name rest in
    if first_part b'/' key == module_name then route ∷ routes else routes

unfoldable pub get_module_routes : String → BlueprintTypes → List BlueprintDay2Route
unfolding routes_of
get_module_routes module_name self = routes_of module_name self.path_function_mapping

unfoldable pub get_routes : BlueprintTypes → List BlueprintDay2Route
get_routes self = map (λ entry. entry.1) self.path_function_mapping

unfoldable pub get_function_to_be_called : String → BlueprintTypes → Result String
unfolding get_route
get_function_to_be_called path self = do route ← get_route path self; ok route.function
