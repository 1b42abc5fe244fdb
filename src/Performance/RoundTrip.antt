-- ===== src/Performance/RoundTrip.antt =====
-- blueprints_ng/lcm/performance_manager.py: an operation that is started and ended.
use e_pem.Prelude.{
  ℕ, String, ◌≡◌, refl, true, none, some, List, [], ◌∷◌, ◌++◌, ◌==◌, arith, eq_iff, eq_refl,
  Bool-cases, inl, inr,
}
use e_pem.Result.{ok}
use e_pem.PyList.{contains}
use e_pem.PyDict.{lookup, has, put, has-put, lookup-put_same}
use e_pem.Performance.{
  PerformanceManager, BlueprintPerformance, BlueprintPerformanceType, BlueprintPerformanceOperation,
  find_operation, persist, stop_operation, start_known, start_operation, end_operation,
}
use e_pem.Performance.Coherence.{cleared, end_found-pending}

contains-last : (x : String) (l : List String) → contains (λ o. o == x) (l ++ x ∷ []) ≡ true
unfolding contains
contains-last x [] = ground (arith, eq_refl x)
contains-last x (y ∷ ys) = ground (arith, contains-last x ys)

-- An operation that no blueprint had is found at the blueprint that gets it.
find_operation-put :
    (op id : String) (p q : BlueprintPerformance) (d : List (String × BlueprintPerformance))
    → find_operation op d ≡ none
    → lookup id d ≡ some p
    → contains (λ o. o == op) q.operations ≡ true
    → find_operation op (put id q d) ≡ some id
unfolding find_operation lookup put
find_operation-put op id p q [] absent found listed = absurd (ground arith)
find_operation-put op id p q ((k, r) ∷ d) absent found listed = elim (Bool-cases (k == id)) [
  | inl e ↦ ground (arith, eq_iff k id)
  | inr e ↦ elim (Bool-cases (contains (λ o. o == op) r.operations)) [
    | inl bad ↦ absurd (ground arith)
    | inr other ↦ ground (arith, find_operation-put op id p q d)
  ]
]

persist-operations :
    (l : List (String × BlueprintPerformance)) (s : PerformanceManager)
    → (persist l s).operations ≡ s.operations
unfolding persist
persist-operations [] s = refl
persist-operations ((id, p) ∷ rest) s = persist-operations rest _

start_known-found :
    (id : String) (p : BlueprintPerformance) (type : BlueprintPerformanceType) (name op_id : String)
    (now : ℕ) (s : PerformanceManager)
    → lookup id s.performance_dict ≡ some p
    → find_operation op_id s.performance_dict ≡ none
    → find_operation op_id (start_known id p type name op_id now s).performance_dict ≡ some id
unfolding start_known
start_known-found id p type name op_id now s known new =
    find_operation-put op_id id p (record p { operations = p.operations ++ op_id ∷ [] })
      s.performance_dict new known (contains-last op_id p.operations)

stop-started :
    (id : String) (p : BlueprintPerformance) (type : BlueprintPerformanceType) (name op_id : String)
    (now later : ℕ) (s : PerformanceManager)
    → (has id
          (stop_operation op_id later (start_known id p type name op_id now s)).pending_operations
        ≡ true)
      × (lookup op_id
            (stop_operation op_id later (start_known id p type name op_id now s)).operations
          ≡ some (record {
            op_name = name;
            type = type;
            start = now;
            end = some later;
            provider_calls = [];
          }))
unfolding stop_operation start_known
stop-started id p type name op_id now later s =
    let o : BlueprintPerformanceOperation = record {
      op_name = name;
      type = type;
      start = now;
      end = none;
      provider_calls = [];
    } in
    let ended : BlueprintPerformanceOperation = record {
      op_name = name;
      type = type;
      start = now;
      end = some later;
      provider_calls = [];
    } in
    let there = lookup-put_same op_id o s.operations in
    (
      ground (arith, there, has-put id id op_id s.pending_operations, eq_refl id),
      ground (arith, there, lookup-put_same op_id ended (put op_id o s.operations)),
    )

-- An operation with a new identifier, on a blueprint that is measured, can be ended: ending it returns
-- and sets its end, with its name, type and start as they were given.
pub start-end_operation :
    (id : String) (type : BlueprintPerformanceType) (name op_id : String) (now later : ℕ)
    (s : PerformanceManager) (p : BlueprintPerformance)
    → lookup id s.performance_dict ≡ some p
    → find_operation op_id s.performance_dict ≡ none
    → (after : PerformanceManager) × (end_operation
          (start_operation id type name op_id now s).0
          later
          (start_operation id type name op_id now s).1
        ≡ (ok tt, after))
      × (lookup op_id after.operations
          ≡ some (record {
            op_name = name;
            type = type;
            start = now;
            end = some later;
            provider_calls = [];
          }))
unfolding start_operation end_operation
start-end_operation id type name op_id now later s p known new =
    let begun : PerformanceManager = start_known id p type name op_id now s in
    let stopped : PerformanceManager = stop_operation op_id later begun in
    let found = start_known-found id p type name op_id now s known new in
    let (pending, entry) = stop-started id p type name op_id now later s in
    let ended = end_found-pending op_id id later begun pending in
    (
      persist stopped.performance_dict (cleared id stopped),
      ground (arith, found, ended),
      ground (arith, persist-operations stopped.performance_dict (cleared id stopped), entry),
    )
