-- ===== src/Witnesses/Metrics.antt =====
-- The theorems on the performance manager at concrete inputs.
use e_pem.Prelude.{◌≡◌, refl, none, some, [], arith}
use e_pem.Result.{ok, err, key_error}
use e_pem.PyList.{contains}
use e_pem.PyDict.{lookup, has, put, drop_key}
use e_pem.Performance.{
  PerformanceManager, BlueprintPerformance, BlueprintPerformanceType, add_blueprint,
  start_operation, start_known, find_operation, persist, stop_operation, clear_pending, end_found,
  end_operation,
}
use e_pem.Performance.Coherence.{IsCoherent}
use e_pem.Performance.Reachability.{Reaches, add, begin, stay, go, Reaches-IsCoherent}
use e_pem.Performance.Overlap.{end_operation-overlap}
use e_pem.Performance.RoundTrip.{start-end_operation}

abbrev empty : PerformanceManager
empty = record {
  performance_dict = [];
  pending_operations = [];
  operations = [];
  provider_calls = [];
  stored = [];
}

empty-IsCoherent : IsCoherent empty
unfolding has lookup
empty-IsCoherent = record {
  pending = λ k h. h;
  unique = tt;
  listed = λ k p h. absurd (ground arith);
}

abbrev added : PerformanceManager
added = add_blueprint "b1" "vyos" 1 empty

abbrev started : PerformanceManager
started = (start_operation "b1" BlueprintPerformanceType.day0 "create" "o1" 2 added).1

abbrev both : PerformanceManager
both = (start_operation "b1" BlueprintPerformanceType.day2 "add_rule" "o2" 3 started).1

abbrev history : Reaches empty both
history = go (add "b1" "vyos" 1 empty) (
    go (begin "b1" BlueprintPerformanceType.day0 "create" "o1" 2 added)
      (go (begin "b1" BlueprintPerformanceType.day2 "add_rule" "o2" 3 started) (stay both)))

Reaches-IsCoherent_example : IsCoherent both
Reaches-IsCoherent_example = Reaches-IsCoherent history empty-IsCoherent

both-IsCoherent : IsCoherent both
both-IsCoherent = Reaches-IsCoherent history empty-IsCoherent

first_found : find_operation "o1" both.performance_dict ≡ some "b1"
unfolding find_operation start_operation start_known add_blueprint lookup put contains
first_found = refl

second_found : find_operation "o2" both.performance_dict ≡ some "b1"
unfolding find_operation start_operation start_known add_blueprint lookup put contains
second_found = refl

abbrev one_left : PerformanceManager
one_left = (end_operation (some "o1") 4 both).1

first_ended : end_operation (some "o1") 4 both ≡ (ok tt, one_left)
unfolding end_operation end_found clear_pending stop_operation persist find_operation
    start_operation start_known add_blueprint lookup put has drop_key contains
first_ended = refl

end_operation-overlap_example : (end_operation (some "o2") 5 one_left).0 ≡ err key_error
end_operation-overlap_example =
    end_operation-overlap "o1" "o2" "b1" 4 5 both one_left both-IsCoherent first_found second_found
      first_ended

abbrev vyos : BlueprintPerformance
vyos = record { blueprint_type = "vyos"; start = 1; operations = [] }

b1_known : lookup "b1" added.performance_dict ≡ some vyos
unfolding add_blueprint lookup put
b1_known = refl

o1_new : find_operation "o1" added.performance_dict ≡ none
unfolding add_blueprint find_operation put contains
o1_new = refl

start-end_operation_example :
    (after : PerformanceManager) × (end_operation
        (start_operation "b1" BlueprintPerformanceType.day0 "create" "o1" 2 added).0
        7
        started
      ≡ (ok tt, after))
    × (lookup "o1" after.operations
        ≡ some (record {
          op_name = "create";
          type = BlueprintPerformanceType.day0;
          start = 2;
          end = some 7;
          provider_calls = [];
        }))
start-end_operation_example =
    start-end_operation "b1" BlueprintPerformanceType.day0 "create" "o1" 2 7 added vyos b1_known
      o1_new
