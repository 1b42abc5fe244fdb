-- ===== src/Witnesses/Blueprints.antt =====
-- The theorems on blueprints and their types at concrete inputs.
use e_pem.Prelude.{
  ℕ, ◌≡◌, refl, inl, Bool, true, false, Option, none, some, [], ◌∷◌, ◌++◌, ◌==◌, map, nat_eq,
}
use e_pem.Result.{Error, ok, err, blueprint_protected}
use e_pem.Exec.{◌>>=◌}
use e_pem.PyList.{select}
use e_pem.PyDict.{has, IsDict}
use e_pem.Resources.{Resource, HelmChartResource, helm_chart, vm_configuration}
use e_pem.Blueprint.{
  BlueprintNgBaseModel, CurrentOperation, register_resource, deregister_resource,
  deregister_resource_by_id,
}
use e_pem.Blueprint.Destruction.{
  ProviderCall, Providers, Running, delete_blueprint, final_cleanup, destroy, destroy_child,
}
use e_pem.Blueprint.Order.{DoNotFail, calls_for, destroy-asks}
use e_pem.Blueprint.Failing.{HasDocument, destroy-spares}
use e_pem.Blueprint.Registration.{IsRegistered, resources-IsRegistered}
use e_pem.BlueprintType.{
  BlueprintTypes, Day2Function, HttpRequestType, register_day2, get_module_routes, get_routes,
}
use e_pem.BlueprintType.Routes.{AreNamed, get_function-register_day2, get_module_routes-select}

abbrev chart : HelmChartResource
chart = record {
  area = 3;
  name = "amf";
  chart = "helm/amf";
  chart_as_path = true;
  repo = none;
  version = none;
  namespace = "core";
  created = false;
}

abbrev configuration : Resource
configuration = record { id = some "r1"; value = vm_configuration (some "r2") }

abbrev deployed : Resource
deployed = record { id = some "r2"; value = helm_chart chart }

abbrev pub core : BlueprintNgBaseModel
core = record {
  id = "B1";
  type = "Core";
  parent_blue_id = none;
  children_blue_ids = "B2" ∷ [];
  registered_resources = ("r1", configuration) ∷ ("r2", deployed) ∷ [];
  state = "{}";
  state_resources = [];
  create_config = none;
  corrupted = false;
  protected = false;
  status = record { error = false; current_operation = CurrentOperation.idle; detail = "" };
  day_2_call_history = [];
}

abbrev area_three : ℕ → Bool
area_three area = nat_eq area 3

resources_unique : IsDict core.registered_resources
unfolding has
resources_unique = (refl, (refl, tt))

core-IsRegistered : IsRegistered core
core-IsRegistered = record { unique = resources_unique; named = ((refl, refl), ((refl, refl), tt)) }

resources-IsRegistered_example :
    IsRegistered (register_resource area_three "r3" deployed core).1
    × IsRegistered (deregister_resource deployed core).1
    × IsRegistered (deregister_resource_by_id "r1" core).1
resources-IsRegistered_example =
    resources-IsRegistered area_three "r3" "r1" deployed core refl core-IsRegistered

abbrev willing : Providers
willing = record { fails = λ call. none; saves = λ call. true }

willing-DoNotFail : DoNotFail willing
willing-DoNotFail = record {
  child = λ c. inl refl;
  machine = λ r. refl;
  chart = λ r. refl;
  cleanup = refl;
}

abbrev pub running : Running
running = record { base_model = core; stored = some core; calls = [] }

destroy-asks_example :
    ((destroy willing running).0 ≡ ok tt)
    × ((destroy willing running).1.stored ≡ none)
    × ((destroy willing running).1.base_model.children_blue_ids ≡ [])
    × ((destroy willing running).1.calls
        ≡ []
          ++ (map delete_blueprint core.children_blue_ids
              ++ (calls_for core.registered_resources ++ final_cleanup ∷ [])))
destroy-asks_example = destroy-asks willing willing-DoNotFail running

abbrev fails_on_children : ProviderCall → Option Error
fails_on_children (delete_blueprint c) = some blueprint_protected
fails_on_children _ = none

-- a child that is protected
abbrev pub unwilling : Providers
unwilling = record { fails = fails_on_children; saves = λ call. false }

child_refused : (destroy unwilling running).0 ≡ err blueprint_protected
unfolding destroy destroy_child ◌>>=◌
child_refused = refl

destroy-spares_example : HasDocument (destroy unwilling running).1
destroy-spares_example =
    destroy-spares unwilling running blueprint_protected (core, refl) child_refused

abbrev add_rule : Day2Function
add_rule = record {
  name = "add_rule";
  final_path = "/rule";
  request_type = HttpRequestType.put ∷ [];
}

abbrev add_rule_again : Day2Function
add_rule_again = record {
  name = "add_rule_again";
  final_path = "/rule";
  request_type = HttpRequestType.post ∷ [];
}

abbrev no_types : BlueprintTypes
no_types = record { blueprint_module_mapping = []; path_function_mapping = [] }

abbrev pub types : BlueprintTypes
types = (register_day2 "vyos" add_rule no_types).1

types-AreNamed : AreNamed types.path_function_mapping
types-AreNamed = (get_function-register_day2 "vyos" add_rule no_types refl refl tt).2

get_module_routes-select_example :
    get_module_routes "vyos" types ≡ select (λ r. r.blue_type == "vyos") (get_routes types)
get_module_routes-select_example = get_module_routes-select "vyos" types types-AreNamed
