-- ===== src/Prometheus/Targets.antt =====
-- models/prometheus/prometheus_model.py: what is found after a target was added.
use e_pem.Prelude.{
  String, ◌≡◌, refl, true, false, none, some, List, [], ◌∷◌, ◌++◌, ◌==◌, arith, eq_iff, Bool-cases,
  Option-cases, inl, inr,
}
use e_pem.Result.{ok}
use e_pem.PyList.{contains, find_index, find_first}
use e_pem.Prometheus.{
  PrometheusTargetModel, PrometheusServerModel, lists, conflict, first_conflict, add_target,
  find_target_by_ipaddress,
}

-- No address of a job without a conflict is an address of the new target.
no_conflict :
    (new_target : PrometheusTargetModel) (ip : String) (l : List String)
    → find_index (lists new_target) l ≡ none
    → lists new_target ip ≡ true
    → contains (λ t. t == ip) l ≡ false
unfolding find_index contains
no_conflict new_target ip [] h k = refl
no_conflict new_target ip (x ∷ xs) h k = elim (Bool-cases (lists new_target x)) [
  | inl e ↦ absurd (ground arith)
  | inr e ↦ ground (arith, no_conflict new_target ip xs, eq_iff x ip)
]

find-appended :
    (new_target : PrometheusTargetModel) (ip : String) (jobs : List PrometheusTargetModel)
    → first_conflict new_target jobs ≡ none
    → lists new_target ip ≡ true
    → find_first (λ job. lists job ip) (jobs ++ new_target ∷ []) ≡ some new_target
unfolding first_conflict conflict find_first
find-appended new_target ip [] h k = rw k refl
find-appended new_target ip (job ∷ jobs) h k =
    elim (Option-cases (find_index (lists new_target) job.targets)) [
      | inr (i, e) ↦ absurd (ground arith)
      | inl e ↦
          ground
            (arith, no_conflict new_target ip job.targets e k, find-appended new_target ip jobs)
    ]

-- A target that shares no address with a job of the server is added as a job of its own, and each of
-- its addresses leads to it.
pub add_target-found :
    (new_target : PrometheusTargetModel) (self after : PrometheusServerModel) (ip : String)
    → first_conflict new_target self.targets ≡ none
    → lists new_target ip ≡ true
    → add_target new_target self ≡ ok after
    → find_target_by_ipaddress ip after ≡ some new_target
unfolding add_target find_target_by_ipaddress
add_target-found new_target self after ip fresh listed e =
    ground (arith, find-appended new_target ip self.targets fresh listed)
