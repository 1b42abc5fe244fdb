-- ===== src/Prometheus.antt =====
-- models/prometheus/prometheus_model.py: a Prometheus server and its scrape targets.
pub mod Targets
use e_pem.Prelude.{ℕ, String, Bool, Option, none, some, List, [], ◌∷◌, ◌++◌, ◌==◌}
use e_pem.Result.{Result, ok, err, value_error, ◌>>=◌}
use e_pem.Exec.{Exec, for_each}
use e_pem.PyList.{contains, find_index, find_first, get_at, set_at, pop_at}

pub record PrometheusTargetModel : Type 0 where
  pub targets : List String
  pub labels : List (String × String)

pub record PrometheusServerModel : Type 0 where
  pub id : String
  pub targets : List PrometheusTargetModel

abbrev pub lists : PrometheusTargetModel → String → Bool
lists job ip = contains (λ t. t == ip) job.targets

-- next(indexes, None): a position in the addresses of `current_target`
unfoldable pub conflict : PrometheusTargetModel → PrometheusTargetModel → Option ℕ
conflict new_target current_target = find_index (lists new_target) current_target.targets

-- The loop over the jobs: the position at the first job that has a conflict.
unfoldable pub first_conflict : PrometheusTargetModel → List PrometheusTargetModel → Option ℕ
unfolding conflict
first_conflict new_target [] = none
first_conflict new_target (job ∷ jobs) =
    let rest = first_conflict new_target jobs in
    elim (conflict new_target job) [ none ↦ rest | some i ↦ some i ]

-- `self.targets[existing_target_index]`: the position among the addresses is used among the jobs.
unfoldable pub add_target :
    PrometheusTargetModel → PrometheusServerModel → Result PrometheusServerModel
unfolding first_conflict
add_target new_target self = elim (first_conflict new_target self.targets) [
  | none ↦ ok (record self { targets = self.targets ++ new_target ∷ [] })
  | some i ↦ do
    existing_target ← get_at self.targets i
    jobs ← set_at self.targets i (record existing_target { labels = new_target.labels })
    ok (record self { targets = jobs })
]

-- a method that changes the server, or raises before it changes anything
unfoldable pub call :
    (PrometheusServerModel → Result PrometheusServerModel) → Exec PrometheusServerModel (Unit {0})
call method self = elim (method self) [ ok self' ↦ (ok tt, self') | err e ↦ (err e, self) ]

unfoldable pub add_targets : List PrometheusTargetModel → Exec PrometheusServerModel (Unit {0})
unfolding call add_target for_each
add_targets targets = for_each targets (λ target. call (add_target target))

unfoldable pub find_target_by_ipaddress :
    String → PrometheusServerModel → Option PrometheusTargetModel
find_target_by_ipaddress ip_a self = find_first (λ job. lists job ip_a) self.targets

unfoldable pub find_job_by_labels : String → PrometheusServerModel → Option PrometheusTargetModel
find_job_by_labels label self =
    find_first (λ target. contains (λ (k, v). k == label) target.labels) self.targets

-- `self.targets.index(target_to_del)` compares jobs field by field. A job equal to the first one that
-- lists the address lists it too, so the index is that job's own.
unfoldable pub del_target_at :
    List String → PrometheusServerModel → Result (PrometheusTargetModel × PrometheusServerModel)
del_target_at [] self = err value_error
del_target_at (ip ∷ ips) self =
    let rest = del_target_at ips self in
    elim (find_index (λ job. lists job ip) self.targets) [
      | none ↦ rest
      | some i ↦ do
        (removed, jobs) ← pop_at self.targets i
        ok (removed, record self { targets = jobs })
    ]

unfoldable pub del_target :
    PrometheusTargetModel
    → PrometheusServerModel
    → Result (PrometheusTargetModel × PrometheusServerModel)
unfolding del_target_at
del_target target_ip self = del_target_at target_ip.targets self

unfoldable pub del_targets : List PrometheusTargetModel → Exec PrometheusServerModel (Unit {0})
unfolding call del_target for_each
del_targets targets =
    for_each targets
      (λ target. call (λ self. do (removed, self') ← del_target target self; ok self'))
