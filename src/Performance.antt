-- ===== src/Performance.antt =====
-- blueprints_ng/lcm/performance_manager.py and models/performance.py: what the program measures of the
-- operations on blueprints.
pub mod Coherence
pub mod Reachability
pub mod Overlap
pub mod RoundTrip
use e_pem.Prelude.{
  ℕ, String, Bool, true, false, Option, none, some, List, [], ◌∷◌, ◌++◌, ◌==◌, if◌then◌else◌, map,
}
use e_pem.Result.{Error, Result, ok, err, key_error}
use e_pem.Exec.{Exec}
use e_pem.PyList.{contains}
use e_pem.PyDict.{lookup, has, put, drop_key}

pub data BlueprintPerformanceType : Type 0 where
  day0 day2 deletion : BlueprintPerformanceType

-- Times are milliseconds. The duration of an operation and of a call is the difference of its times,
-- and is left out.
pub record BlueprintPerformanceProviderCall : Type 0 where
  pub method_name : String
  pub start : ℕ
  pub end : Option ℕ

-- `provider_calls` holds the identifiers of calls: the objects are shared with the manager's table.
pub record BlueprintPerformanceOperation : Type 0 where
  pub op_name : String
  pub type : BlueprintPerformanceType
  pub start : ℕ
  pub end : Option ℕ
  pub provider_calls : List String

-- `operations` holds the identifiers of operations: the objects are shared with the manager's table.
pub record BlueprintPerformance : Type 0 where
  pub blueprint_type : String
  pub start : ℕ
  pub operations : List String

-- `stored` is the collection of the database: per blueprint, what a dump shows of it and of its
-- operations, with the identifiers of their calls.
pub record PerformanceManager : Type 0 where
  pub performance_dict : List (String × BlueprintPerformance)
  pub pending_operations : List (String × String)
  pub operations : List (String × BlueprintPerformanceOperation)
  pub provider_calls : List (String × BlueprintPerformanceProviderCall)
  pub stored : List (String × (BlueprintPerformance × List (Option BlueprintPerformanceOperation)))

unfoldable pub get_pending_operation_id : String → PerformanceManager → Option String
get_pending_operation_id blueprint_id self = lookup blueprint_id self.pending_operations

-- `now` is utcnow() and `op_id` what uuid4() gives, here and below.
unfoldable pub add_blueprint : String → String → (now : ℕ) → PerformanceManager → PerformanceManager
add_blueprint blueprint_id blueprint_type now self = record self {
  performance_dict =
      put blueprint_id (record { blueprint_type = blueprint_type; start = now; operations = [] })
        self.performance_dict;
}

-- the part of start_operation past its guard
unfoldable pub start_known :
    String
    → BlueprintPerformance
    → BlueprintPerformanceType
    → String
    → (op_id : String) (now : ℕ) → PerformanceManager
    → PerformanceManager
start_known blueprint_id performance operation_type op_name op_id now self = record self {
  performance_dict =
      put blueprint_id (record performance { operations = performance.operations ++ op_id ∷ [] })
        self.performance_dict;
  operations =
      put op_id
        (record {
          op_name = op_name;
          type = operation_type;
          start = now;
          end = none;
          provider_calls = [];
        })
        self.operations;
  pending_operations = put blueprint_id op_id self.pending_operations;
}

unfoldable pub start_operation :
    String
    → BlueprintPerformanceType
    → String
    → (op_id : String) (now : ℕ) → PerformanceManager
    → Option String × PerformanceManager
unfolding start_known
start_operation blueprint_id operation_type op_name op_id now self =
    elim (lookup blueprint_id self.performance_dict) [
      | none ↦ (none, self)
      | some performance ↦
          (some op_id, start_known blueprint_id performance operation_type op_name op_id now self)
    ]

-- the blueprint of the first operation with the identifier
unfoldable pub find_operation : String → List (String × BlueprintPerformance) → Option String
find_operation operation_id [] = none
find_operation operation_id ((blueprint_id, performance) ∷ rest) =
    if contains (λ o. o == operation_id) performance.operations
    then some blueprint_id
    else find_operation operation_id rest

-- _persist_to_db
unfoldable pub persist :
    List (String × BlueprintPerformance) → PerformanceManager → PerformanceManager
persist [] self = self
persist ((blueprint_id, performance) ∷ rest) self = persist rest (record self {
  stored =
      put blueprint_id (performance, map (λ o. lookup o self.operations) performance.operations)
        self.stored;
})

unfoldable pub stop_operation : String → ℕ → PerformanceManager → PerformanceManager
stop_operation operation_id now self = elim (lookup operation_id self.operations) [
  | none ↦ self
  | some operation ↦ record self {
    operations = put operation_id (record operation { end = some now }) self.operations;
  }
]

-- `del self.pending_operations[blueprint_id]`
unfoldable pub clear_pending : String → Exec PerformanceManager (Unit {0})
clear_pending blueprint_id self =
    if has blueprint_id self.pending_operations
    then (ok tt, record self { pending_operations = drop_key blueprint_id self.pending_operations })
    else (err key_error, self)

unfoldable pub end_found : String → String → ℕ → Exec PerformanceManager (Unit {0})
unfolding stop_operation clear_pending persist
end_found operation_id blueprint_id now self =
    let (r, cleared) = clear_pending blueprint_id (stop_operation operation_id now self) in
    elim r [ ok u ↦ (ok tt, persist cleared.performance_dict cleared) | err e ↦ (err e, cleared) ]

-- There is no operation to end where its start was not recorded.
unfoldable pub end_operation : Option String → (now : ℕ) → Exec PerformanceManager (Unit {0})
unfolding find_operation end_found
end_operation none now self = (ok tt, self)
end_operation (some operation_id) now self =
    elim (find_operation operation_id self.performance_dict) [
      | none ↦ (ok tt, self)
      | some blueprint_id ↦ end_found operation_id blueprint_id now self
    ]

unfoldable pub start_provider_call :
    Option String
    → String
    → (provider_call_id : String) (now : ℕ) → PerformanceManager
    → Option String × PerformanceManager
start_provider_call none method_name provider_call_id now self = (none, self)
start_provider_call (some operation_id) method_name provider_call_id now self =
    elim (lookup operation_id self.operations) [
      | none ↦ (none, self)
      | some operation ↦ (
        some provider_call_id,
        record self {
          provider_calls =
              put provider_call_id (record { method_name = method_name; start = now; end = none })
                self.provider_calls;
          operations =
              put operation_id
                (record operation {
                  provider_calls = operation.provider_calls ++ provider_call_id ∷ [];
                })
                self.operations;
        },
      )
    ]

unfoldable pub end_provider_call : String → (now : ℕ) → PerformanceManager → PerformanceManager
end_provider_call provider_call_id now self = elim (lookup provider_call_id self.provider_calls) [
  | none ↦ self
  | some provider_call ↦ record self {
    provider_calls =
        put provider_call_id (record provider_call { end = some now }) self.provider_calls;
  }
]
