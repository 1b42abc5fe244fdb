-- ===== src/Topology/Atomicity.antt =====
-- Methods of topology/topology.py that raise before they store: the steps.
pub mod Methods
use e_pem.Prelude.{
  ℕ, suc, ◌-◌, String, ◌≡◌, ◌≢◌, ◌⊎◌, refl, sym, ap, ◌∙◌, subst, Bool-cases, Bool, true, false,
  if◌then◌else◌, Option, none, some, List, [], ◌∷◌, arith, inl, inr, Option-cases,
}
use e_pem.Result.{Error, Result, Result-cases, ok, err, value_error, attribute_error, redis_error}
use e_pem.Exec.{Exec, ◌>>=◌, after, pure, raise, reads, lift, modify, except_value_error, caught}
use e_pem.Exec.Rules.{Keeps, keeps_rules, bind_ok, bind_err}
use e_pem.TopologyModel.{TopologyModel}
use e_pem.Topology.{
  Topology, TopologyEventType, Dump, locked, acquire, release, on_model, read_model,
  save_topology_from_model, trigger_redis_event, trigger_topology_event,
}
use e_pem.Topology.Steps.{
  on_model-Keeps, read_model-Keeps, except_value_error-Keeps, locked-Keeps, save-none, save-some,
  trigger_redis_event-Keeps,
}

-- An action that, where there is a model, returns and leaves the model alone, or fails in Redis.
pub record OnlyRedis {A : Type 0} (m : Exec Topology A) : Type 0 where
  pub at :
      (s : Topology) (t : TopologyModel)
      → s.model ≡ some t
      → ((a : A) × (s' : Topology) × (m s ≡ (ok a, s')) × (s'.model ≡ some t))
        ⊎ ((m s).0 ≡ err redis_error)

pub OnlyRedis-trigger :
    (type : TopologyEventType) (dump : Dump) → OnlyRedis (trigger_redis_event type dump)
unfolding trigger_redis_event
OnlyRedis-trigger type dump = record {
  at = λ s t e. elim (Bool-cases (s.redis type dump)) [
    | inl taken ↦ inl (tt, record s { events = (type, dump) ∷ s.events }, rw taken refl, e)
    | inr refused ↦ inr (rw refused refl)
  ];
}

pub OnlyRedis-pure : {A : Type 0} (a : A) → OnlyRedis (pure a)
unfolding pure
OnlyRedis-pure a = record { at = λ s t e. inl (a, s, refl, e) }

pub OnlyRedis-read : {A : Type 0} (f : TopologyModel → A) → OnlyRedis (read_model (λ m. ok (f m)))
unfolding read_model reads
OnlyRedis-read f = record { at = λ s t e. inl (f t, s, ground arith, e) }

pub OnlyRedis-bind :
    {A B : Type 0} (m : Exec Topology A) (f : A → Exec Topology B)
    → OnlyRedis m
    → ((a : A) → OnlyRedis (f a))
    → OnlyRedis (m >>= f)
OnlyRedis-bind m f h k = record {
  at = λ s t e. elim (h.at s t e) [
    | inr x ↦ inr (ap (λ r. r.0) (bind_err m f s redis_error x))
    | inl (a, s', ran, left) ↦ elim ((k a).at s' t left) [
      | inl (b, s'', rest, kept) ↦ inl (b, s'', bind_ok m f s s' a ran ∙ rest, kept)
      | inr x ↦ inr (ap (λ r. r.0) (bind_ok m f s s' a ran) ∙ x)
    ]
  ];
}

pub OnlyRedis-trigger_topology :
    (type : TopologyEventType) → OnlyRedis (trigger_topology_event type)
unfolding trigger_topology_event
OnlyRedis-trigger_topology type =
    OnlyRedis-bind _ _ (OnlyRedis-read (λ m. m)) (λ m. OnlyRedis-trigger type _)

err-injective : {A : Type 0} {x y : Error} → ◌≡◌ {A = Result A} (err x) (err y) → x ≡ y
err-injective h = ground (arith, h)

module _ (d : Option TopologyModel) where
  abbrev pub HasDb : Topology → Type 0
  HasDb s = s.db ≡ d

  -- Where `d` is stored and the action raises, but not in Redis, `d` is still stored.
  pub record IsAtomic {A : Type 0} (m : Exec Topology A) : Type 0 where
    pub at :
        (s : Topology) (e : Error) → e ≢ redis_error → s.db ≡ d → (m s).0 ≡ err e → (m s).1.db ≡ d

  module _ {A : Type 0} where
    pub IsAtomic-Keeps : (m : Exec Topology A) → Keeps HasDb m → IsAtomic m
    IsAtomic-Keeps m k = record { at = λ s e n p h. k.at s p }

    pub IsAtomic-locked : (m : Exec Topology A) → IsAtomic m → IsAtomic (locked m)
    unfolding locked acquire release
    IsAtomic-locked m k = record { at = λ s e n p h. k.at (acquire s) e n p h }

    caught-err : (r : Result A) (s : Topology) (e : Error) → (caught (r, s)).0 ≡ err e → r ≡ err e
    caught-err (ok a) s e h = absurd (ground (arith, h))
    caught-err (err value_error) s e h = absurd (ground (arith, h))
    caught-err (err _) s e h = ground (arith, h)

    caught-db : (r : Result A) (s : Topology) → (caught (r, s)).1 ≡ s
    caught-db (ok a) s = refl
    caught-db (err value_error) s = refl
    caught-db (err _) s = refl

    pub IsAtomic-except : (m : Exec Topology A) → IsAtomic m → IsAtomic (except_value_error m)
    unfolding except_value_error
    IsAtomic-except m k = record {
      at = λ s e n p h.
          subst HasDb (sym (caught-db (m s).0 (m s).1))
            (k.at s e n p (caught-err (m s).0 (m s).1 e h));
    }

  module _ {A B : Type 0} where
    after-IsAtomic :
        (r : Result A) (f : A → Exec Topology B) (s : Topology) (e : Error)
        → e ≢ redis_error
        → s.db ≡ d
        → ((a : A) → IsAtomic (f a))
        → (after r f s).0 ≡ err e
        → (after r f s).1.db ≡ d
    after-IsAtomic (ok a) f s e n p k h = (k a).at s e n p h
    after-IsAtomic (err x) f s e n p k h = p

    -- What comes before may fail if it stores nothing.
    pub IsAtomic-bind :
        (m : Exec Topology A) (f : A → Exec Topology B)
        → Keeps HasDb m
        → ((a : A) → IsAtomic (f a))
        → IsAtomic (m >>= f)
    unfolding ◌>>=◌
    IsAtomic-bind m f h k = record {
      at = λ s e n p x. after-IsAtomic (m s).0 f (m s).1 e n (h.at s p) k x;
    }

  module _ {A B : Type 0} where
    after-pure-IsAtomic :
        (r : Result A) (b : B) (s : Topology) (e : Error)
        → (r ≡ err e → s.db ≡ d)
        → (after r (λ _. pure b) s).0 ≡ err e
        → (after r (λ _. pure b) s).1.db ≡ d
    unfolding pure
    after-pure-IsAtomic (ok a) b s e k h = absurd (ground (arith, h))
    after-pure-IsAtomic (err x) b s e k h = k (ground (arith, h))

    pub IsAtomic-pure : (m : Exec Topology A) (b : B) → IsAtomic m → IsAtomic (m >>= λ _. pure b)
    unfolding ◌>>=◌
    IsAtomic-pure m b k = record {
      at = λ s e n p h. after-pure-IsAtomic (m s).0 b (m s).1 e (k.at s e n p) h;
    }

  -- What comes after storing may fail in Redis only.
  pub IsAtomic-save :
      {B : Type 0} (f : Unit {0} → Exec Topology B)
      → OnlyRedis (f tt)
      → IsAtomic (save_topology_from_model >>= f)
  IsAtomic-save f k = record {
    at = λ s e n p h. elim (Option-cases s.model) [
      | inl none_there ↦
          rw
            (bind_err save_topology_from_model f s attribute_error
              (ap (λ r. r.0) (save-none s none_there)))
            (rw (save-none s none_there) p)
      | inr (t, there) ↦
          let saved : Topology = record s { data_dump = some t; db = some t } in
          let goes_on = bind_ok save_topology_from_model f s saved tt (save-some s t there) in
          let failed : (f tt saved).0 ≡ err e = sym (ap (λ r. r.0) goes_on) ∙ h in
          elim (k.at saved t there) [
            | inl (a, s', ran, left) ↦ absurd (ground (arith, failed, ran))
            | inr x ↦ absurd (n (err-injective (sym failed ∙ x)))
          ]
    ];
  }

  pub IsAtomic-save_last : IsAtomic save_topology_from_model
  IsAtomic-save_last = record {
    at = λ s e n p h. elim (Option-cases s.model) [
      | inl none_there ↦ rw (save-none s none_there) p
      | inr (t, there) ↦ absurd (ground (arith, h, save-some s t there))
    ];
  }

  pub on_model-HasDb :
      {A : Type 0} (f : TopologyModel → Result (A × TopologyModel)) → Keeps HasDb (on_model f)
  on_model-HasDb f = on_model-Keeps HasDb f (λ s m m' a p e h. p)

  pub read_model-HasDb : {A : Type 0} (f : TopologyModel → Result A) → Keeps HasDb (read_model f)
  read_model-HasDb f = read_model-Keeps HasDb f

  pub trigger-HasDb :
      (type : TopologyEventType) (dump : Dump) → Keeps HasDb (trigger_redis_event type dump)
  trigger-HasDb type dump = trigger_redis_event-Keeps HasDb (λ s l p. p) type dump

pub ruleset never_rules =
    (OnlyRedis-trigger, OnlyRedis-pure, OnlyRedis-read, OnlyRedis-trigger_topology, OnlyRedis-bind)

pub ruleset db_rules = (keeps_rules, on_model-HasDb, read_model-HasDb, trigger-HasDb)

pub ruleset atomic_rules =
    (db_rules, never_rules, IsAtomic-locked, IsAtomic-bind, IsAtomic-save, IsAtomic-save_last)
