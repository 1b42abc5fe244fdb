-- ===== src/Performance/Overlap.antt =====
-- blueprints_ng/lcm/performance_manager.py: operations of one blueprint that overlap.
use e_pem.Prelude.{
  ℕ, String, ◌≡◌, refl, false, some, List, [], ◌∷◌, arith, Bool-cases, Option-cases, inl, inr,
}
use e_pem.Result.{ok, err, key_error}
use e_pem.PyDict.{lookup, has, has-drop_key}
use e_pem.Performance.{
  PerformanceManager, BlueprintPerformance, find_operation, persist, stop_operation, end_operation,
}
use e_pem.Performance.Coherence.{IsCoherent, cleared, end_found-pending, end_found-absent}

persist-same :
    (l : List (String × BlueprintPerformance)) (s : PerformanceManager)
    → ((persist l s).performance_dict ≡ s.performance_dict)
      × ((persist l s).pending_operations ≡ s.pending_operations)
unfolding persist
persist-same [] s = (refl, refl)
persist-same ((id, p) ∷ rest) s = persist-same rest _

stop_operation-same :
    (op : String) (now : ℕ) (s : PerformanceManager)
    → ((stop_operation op now s).performance_dict ≡ s.performance_dict)
      × ((stop_operation op now s).pending_operations ≡ s.pending_operations)
unfolding stop_operation
stop_operation-same op now s = elim (Option-cases (lookup op s.operations)) [
  | inl e ↦ (ground arith, ground arith)
  | inr (o, e) ↦ (ground arith, ground arith)
]

-- Where two operations of one blueprint overlap, ending the first makes ending the second raise
-- KeyError: there is one pending operation for each blueprint, and the first end takes it away. The
-- tables must be coherent, and both operations be recorded for the blueprint.
pub end_operation-overlap :
    (first second id : String) (now later : ℕ) (s s' : PerformanceManager)
    → IsCoherent s
    → find_operation first s.performance_dict ≡ some id
    → find_operation second s.performance_dict ≡ some id
    → end_operation (some first) now s ≡ (ok tt, s')
    → (end_operation (some second) later s').0 ≡ err key_error
unfolding end_operation
end_operation-overlap first second id now later s s' c one two done =
    let t : PerformanceManager = stop_operation first now s in
    elim (Bool-cases (has id t.pending_operations)) [
      | inr e ↦ absurd (ground (arith, end_found-absent first id now s e))
      | inl e ↦
          let ended = end_found-pending first id now s e in
          let (dict, pending) = persist-same t.performance_dict (cleared id t) in
          let (dict_t, pending_t) = stop_operation-same first now s in
          let (dict_l, pending_l) = stop_operation-same second later s' in
          let gone : has id s'.pending_operations ≡ false =
            ground (arith, has-drop_key id s.pending_operations c.unique, ended) in
          ground (arith, end_found-absent second id later s' (ground arith), ended)
    ]
