-- ===== src/Topology/Soundness/LifecycleMethods.antt =====
-- topology/topology.py, the uniqueness of names: creation and deletion of the topology.
use e_pem.Prelude.{
  ℕ, zero, suc, ◌≡◌, sym, subst, Bool, none, some, [], arith, inl, inr, Option-cases,
}
use e_pem.Result.{Result, ok, err, value_error}
use e_pem.Exec.{Exec, modify}
use e_pem.Exec.Rules.{Keeps, Keeps-bind, Keeps-pure}
use e_pem.PyList.{get_at}
use e_pem.TopologyModel.{TopologyModel}
use e_pem.TopologyModel.WellFormed.{IsWellFormed}
use e_pem.Topology.{Topology}
use e_pem.Topology.Lifecycle.{
  start_model, create, if_there, delete_vims, drop_model, require_model, delete,
}
use e_pem.Topology.Soundness.{IsSound, sound_rules, locked-IsSound}
use e_pem.Topology.Soundness.VimMethods.{add_vim-IsSound, del_vim-IsSound}

start_model-none :
    (topo : TopologyModel) (s : Topology)
    → s.model ≡ none
    → start_model topo s ≡ (ok tt, record s { model = some (record topo { vims = [] }) })
unfolding start_model
start_model-none topo s e = ground arith

start_model-some :
    (topo : TopologyModel) (s : Topology) (m : TopologyModel)
    → s.model ≡ some m
    → start_model topo s ≡ (err value_error, s)
unfolding start_model
start_model-some topo s m e = ground arith

-- A topology that is created brings its lists, the VIMs apart, as they are.
start_model-IsSound :
    (topo : TopologyModel)
    → IsWellFormed (record topo { vims = [] })
    → Keeps IsSound (start_model topo)
start_model-IsSound topo w = record {
  at = λ s h. elim (Option-cases s.model) [
    | inl e ↦ rw (start_model-none topo s e) (record { in_memory = w; stored = h.stored })
    | inr (m, e) ↦ rw (start_model-some topo s m e) h
  ];
}

pub create-IsSound :
    (topo : TopologyModel) (terraform : Bool)
    → IsWellFormed (record topo { vims = [] })
    → Keeps IsSound (create topo terraform)
unfolding create
create-IsSound topo terraform w = locked-IsSound _ (
    Keeps-bind _ _ (start_model-IsSound topo w)
      (λ _. search (sound_rules, add_vim-IsSound) depth 8))

if_there-IsSound :
    {A : Type 0} (r : Result A) (body : A → Exec Topology (Unit {0}))
    → ((a : A) → Keeps IsSound (body a))
    → Keeps IsSound (if_there r body)
unfolding if_there
if_there-IsSound (err e) body h = Keeps-pure tt
if_there-IsSound (ok a) body h = h a

delete_vims-IsSound : (fuel i : ℕ) (t : Bool) → Keeps IsSound (delete_vims fuel i t)
unfolding delete_vims
delete_vims-IsSound zero i t = search sound_rules
delete_vims-IsSound (suc fuel) i t = Keeps-bind _ _ (search sound_rules) λ vims.
    if_there-IsSound (get_at vims i) _
      λ vim. Keeps-bind _ _ (del_vim-IsSound vim.name t) (λ _. delete_vims-IsSound fuel (suc i) t)

drop_model-IsSound : Keeps IsSound (modify drop_model)
unfolding modify drop_model
drop_model-IsSound = record { at = λ s h. record { in_memory = tt; stored = tt } }

require_model-state : (s : Topology) → (require_model s).1 ≡ s
unfolding require_model
require_model-state s = ground arith

require_model-IsSound : Keeps IsSound require_model
require_model-IsSound = record { at = λ s h. subst IsSound (sym (require_model-state s)) h }

pub delete-IsSound : (t : Bool) → Keeps IsSound (delete t)
unfolding delete
delete-IsSound t =
    search (sound_rules, require_model-IsSound, delete_vims-IsSound, drop_model-IsSound) depth 8
