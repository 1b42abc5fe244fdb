-- ===== src/Topology/Persistence.antt =====
-- Methods of topology/topology.py that return with the stored topology and its dump equal to the
-- model.
use e_pem.Prelude.{◌≡◌, refl, sym, arith, inl, inr, Option-cases}
use e_pem.Result.{Result, ok, err}
use e_pem.Exec.{Exec, ◌>>=◌, after}
use e_pem.Exec.Rules.{Keeps, Ensures, Ensures-bind, Ensures-then, keeps_rules}
use e_pem.TopologyModel.{TopologyModel}
use e_pem.Topology.{
  Topology, TopologyEventType, Dump, locked, acquire, release, read_model, save_topology_from_model,
  trigger_redis_event, trigger_topology_event,
}
use e_pem.Topology.Steps.{
  read_model-Keeps, save-none, save-some, trigger_redis_event-Keeps, trigger_topology_event-Keeps,
}

-- What is stored, and the dump, show the model.
pub record IsSynced (s : Topology) : Type 0 where
  pub stored : s.db ≡ s.model
  pub dumped : s.data_dump ≡ s.model

-- If the action starts from a synchronised object and returns, it leaves one.
pub record Settles {A : Type 0} (m : Exec Topology A) : Type 0 where
  pub at : (s : Topology) (a : A) → IsSynced s → (m s).0 ≡ ok a → IsSynced (m s).1

pub Ensures-save : Ensures IsSynced save_topology_from_model
Ensures-save = record {
  at = λ s a e. elim (Option-cases s.model) [
    | inl h ↦ absurd (ground (arith, e, save-none s h))
    | inr (t, h) ↦ rw (save-some s t h) (record { stored = sym h; dumped = sym h })
  ];
}

module _ {A : Type 0} where
  pub Ensures-locked : (m : Exec Topology A) → Ensures IsSynced m → Ensures IsSynced (locked m)
  unfolding locked acquire release
  Ensures-locked m k = record {
    at = λ s a e.
        let held = k.at (acquire s) a e in record { stored = held.stored; dumped = held.dumped };
  }

  pub Settles-Ensures : (m : Exec Topology A) → Ensures IsSynced m → Settles m
  Settles-Ensures m k = record { at = λ s a p e. k.at s a e }

  pub Settles-Keeps : (m : Exec Topology A) → Keeps IsSynced m → Settles m
  Settles-Keeps m k = record { at = λ s a p e. k.at s p }

  pub Settles-locked : (m : Exec Topology A) → Settles m → Settles (locked m)
  unfolding locked acquire release
  Settles-locked m k = record {
    at = λ s a p e.
        let held = k.at (acquire s) a (record { stored = p.stored; dumped = p.dumped }) e in
        record { stored = held.stored; dumped = held.dumped };
  }

  pub read_model-IsSynced : (f : TopologyModel → Result A) → Keeps IsSynced (read_model f)
  read_model-IsSynced f = read_model-Keeps IsSynced f

module _ {A B : Type 0} where
  after-Settles :
      (r : Result A) (f : A → Exec Topology B) (s : Topology) (b : B)
      → ((a : A) → r ≡ ok a → IsSynced s)
      → ((a : A) → Settles (f a))
      → (after r f s).0 ≡ ok b
      → IsSynced (after r f s).1
  after-Settles (ok a) f s b p k e = (k a).at s b (p a refl) e
  after-Settles (err x) f s b p k e = absurd (ground (arith, e))

  pub Settles-bind :
      (m : Exec Topology A) (f : A → Exec Topology B)
      → Settles m
      → ((a : A) → Settles (f a))
      → Settles (m >>= f)
  unfolding ◌>>=◌
  Settles-bind m f h k = record {
    at = λ s b p e. after-Settles (m s).0 f (m s).1 b (λ a x. h.at s a p x) k e;
  }

pub trigger-IsSynced :
    (type : TopologyEventType) (dump : Dump) → Keeps IsSynced (trigger_redis_event type dump)
trigger-IsSynced type dump =
    trigger_redis_event-Keeps IsSynced (λ s l h. record { stored = h.stored; dumped = h.dumped })
      type dump

pub trigger_topology-IsSynced :
    (type : TopologyEventType) → Keeps IsSynced (trigger_topology_event type)
trigger_topology-IsSynced type =
    trigger_topology_event-Keeps IsSynced (λ s l h. record { stored = h.stored; dumped = h.dumped })
      type

pub ruleset synced_rules = (
  keeps_rules, read_model-IsSynced, trigger-IsSynced, trigger_topology-IsSynced, Ensures-save,
  Ensures-locked, Ensures-bind, Ensures-then,
)
