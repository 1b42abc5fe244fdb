-- ===== src/Topology/Soundness.antt =====
-- No method of topology/topology.py breaks the uniqueness of names, in memory or in the database:
-- the steps.
pub mod VimMethods
pub mod NetMethods
pub mod ItemMethods
pub mod RangeMethods
pub mod LifecycleMethods
use e_pem.Prelude.{
  ℕ, String, ◌≡◌, refl, sym, subst, ap, Option, none, some, List, [], ◌∷◌, map, arith, inl, inr,
}
use e_pem.Result.{Error, Result, Result-cases, ok, err}
use e_pem.Exec.{Exec, except_value_error}
use e_pem.Exec.Rules.{Keeps, keeps_rules}
use e_pem.PyList.{get_at, set_at}
use e_pem.PyList.Keys.{HasUniqueKeys-same, map-set_at}
use e_pem.Vim
use e_pem.Vim.{VimModel}
use e_pem.TopologyModel.{TopologyModel}
use e_pem.TopologyModel.WellFormed.{IsWellFormed, Preserves, with_vims}
use e_pem.Topology.{
  Topology, locked, on_model, read_model, save_topology_from_model, trigger_redis_event,
  trigger_topology_event, os_terraformer, TopologyEventType, Dump,
}
use e_pem.Topology.Steps.{
  on_model-Keeps, read_model-Keeps, os_terraformer-Keeps, except_value_error-Keeps, locked-Keeps,
  save_topology_from_model-Keeps, trigger_redis_event-Keeps, trigger_topology_event-Keeps,
}
use e_pem.Topology.VimUpdates.{vim_method, on_vim, vim_of}

abbrev pub AllSome : {A : Type 0} → (A → Type 0) → Option A → Type 0
AllSome P none = Unit
AllSome P (some a) = P a

-- The names in the model and in the stored document are unique.
pub record IsSound (s : Topology) : Type 0 where
  pub in_memory : AllSome IsWellFormed s.model
  pub stored : AllSome IsWellFormed s.db

module _ {A : Type 0} where
  pub on_model-IsSound :
      (f : TopologyModel → Result (A × TopologyModel)) → Preserves f → Keeps IsSound (on_model f)
  on_model-IsSound f p = on_model-Keeps IsSound f λ s m m' a h e done. record {
    in_memory = p.at m m' a (subst (AllSome IsWellFormed) e h.in_memory) done;
    stored = h.stored;
  }

  pub read_model-IsSound : (f : TopologyModel → Result A) → Keeps IsSound (read_model f)
  read_model-IsSound f = read_model-Keeps IsSound f

  pub os_terraformer-IsSound : (name : String) → Keeps IsSound (os_terraformer {A = A} name)
  os_terraformer-IsSound name = os_terraformer-Keeps IsSound name

  pub except_value_error-IsSound :
      (m : Exec Topology A) → Keeps IsSound m → Keeps IsSound (except_value_error m)
  except_value_error-IsSound m k = except_value_error-Keeps IsSound m k

  pub locked-IsSound : (m : Exec Topology A) → Keeps IsSound m → Keeps IsSound (locked m)
  locked-IsSound m k =
      locked-Keeps IsSound m (λ s n h. record { in_memory = h.in_memory; stored = h.stored }) k

pub save-IsSound : Keeps IsSound save_topology_from_model
save-IsSound = save_topology_from_model-Keeps IsSound λ s m h e. record {
  in_memory = h.in_memory;
  stored = subst (AllSome IsWellFormed) e h.in_memory;
}

pub trigger-IsSound :
    (type : TopologyEventType) (dump : Dump) → Keeps IsSound (trigger_redis_event type dump)
trigger-IsSound type dump =
    trigger_redis_event-Keeps IsSound
      (λ s l h. record { in_memory = h.in_memory; stored = h.stored }) type dump

pub trigger_topology-IsSound :
    (type : TopologyEventType) → Keeps IsSound (trigger_topology_event type)
trigger_topology-IsSound type =
    trigger_topology_event-Keeps IsSound
      (λ s l h. record { in_memory = h.in_memory; stored = h.stored }) type

-- a method of a VIM that leaves its name alone
abbrev pub KeepsName : {A : Type 0} → (VimModel → Result (A × VimModel)) → Type 0
KeepsName {A} f = (v v' : VimModel) (a : A) → f v ≡ ok (a, v') → v.name ≡ v'.name

module _ {A : Type 0} where
  vim_method-Preserves :
      (vim : ℕ) (f : VimModel → Result (A × VimModel)) → KeepsName f → Preserves (vim_method vim f)
  unfolding vim_method
  vim_method-Preserves vim f keeps = record {
    at = λ m m' a w e. elim (Result-cases (get_at m.vims vim)) [
      | inr (x, bad) ↦ absurd (ground arith)
      | inl (v, read) ↦ elim (Result-cases (f v)) [
        | inr (x, bad) ↦ absurd (ground arith)
        | inl ((b, v'), ran) ↦ elim (Result-cases (set_at m.vims vim v')) [
          | inr (x, bad) ↦ absurd (ground arith)
          | inl (l, written) ↦ subst IsWellFormed (ground arith) (
              with_vims m w l (
                HasUniqueKeys-same (λ x. x.name) m.vims l
                  (map-set_at (λ x. x.name) m.vims vim v v' l read (keeps v v' b ran) written)
                  w.vims))
        ]
      ]
    ];
  }

  pub on_vim-IsSound :
      (vim : ℕ) (f : VimModel → Result (A × VimModel)) → KeepsName f → Keeps IsSound (on_vim vim f)
  unfolding on_vim
  on_vim-IsSound vim f keeps =
      on_model-IsSound (vim_method vim f) (vim_method-Preserves vim f keeps)

pub vim_of-IsSound : (vim : ℕ) → Keeps IsSound (vim_of vim)
unfolding vim_of
vim_of-IsSound vim = read_model-IsSound (λ m. get_at m.vims vim)

pub ruleset sound_rules = (
  keeps_rules, read_model-IsSound, os_terraformer-IsSound, except_value_error-IsSound,
  locked-IsSound, save-IsSound, trigger-IsSound, trigger_topology-IsSound, vim_of-IsSound,
  on_model-IsSound,
)
