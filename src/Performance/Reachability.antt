-- ===== src/Performance/Reachability.antt =====
-- blueprints_ng/lcm/performance_manager.py: what holds after any sequence of calls.
use e_pem.Prelude.{ℕ, String, Option}
use e_pem.Performance.{
  PerformanceManager, BlueprintPerformanceType, add_blueprint, start_operation, end_operation,
  start_provider_call, end_provider_call,
}
use e_pem.Performance.Coherence.{
  IsCoherent, add_blueprint-IsCoherent, start_operation-IsCoherent, end_operation-IsCoherent,
  start_provider_call-IsCoherent, end_provider_call-IsCoherent,
}

-- The calls of the manager, by blueprint workers that run side by side: any sequence may occur.
pub data Step : PerformanceManager → PerformanceManager → Type 0 where
  add : (id type : String) (now : ℕ) (s : PerformanceManager) → Step s (add_blueprint id type now s)
  begin :
      (id : String) (type : BlueprintPerformanceType) (name op_id : String) (now : ℕ)
      (s : PerformanceManager)
      → Step s (start_operation id type name op_id now s).1
  finish :
      (op : Option String) (now : ℕ) (s : PerformanceManager) → Step s (end_operation op now s).1
  begin_call :
      (op : Option String) (name call : String) (now : ℕ) (s : PerformanceManager)
      → Step s (start_provider_call op name call now s).1
  finish_call :
      (call : String) (now : ℕ) (s : PerformanceManager) → Step s (end_provider_call call now s)

pub data Reaches : PerformanceManager → PerformanceManager → Type 0 where
  stay : (s : PerformanceManager) → Reaches s s
  go : {s t u : PerformanceManager} → Step s t → Reaches t u → Reaches s u

Step-IsCoherent : {s t : PerformanceManager} → Step s t → IsCoherent s → IsCoherent t
Step-IsCoherent (add id type now s) c = add_blueprint-IsCoherent id type now s c
Step-IsCoherent (begin id type name op_id now s) c =
    start_operation-IsCoherent id type name op_id now s c
Step-IsCoherent (finish op now s) c = end_operation-IsCoherent op now s c
Step-IsCoherent (begin_call op name call now s) c =
    start_provider_call-IsCoherent op name call now s c
Step-IsCoherent (finish_call call now s) c = end_provider_call-IsCoherent call now s c

-- From a coherent state, whatever calls follow in whatever order, failed ones included, the tables of
-- the manager stay coherent: each pending operation belongs to a blueprint that is measured, no
-- blueprint has two, and each operation of a blueprint is in the table of operations.
pub Reaches-IsCoherent : {s t : PerformanceManager} → Reaches s t → IsCoherent s → IsCoherent t
Reaches-IsCoherent (stay s) c = c
Reaches-IsCoherent (go first rest) c = Reaches-IsCoherent rest (Step-IsCoherent first c)
