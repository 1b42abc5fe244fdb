-- ===== src/Performance/Coherence.antt =====
-- blueprints_ng/lcm/performance_manager.py: the tables of the manager fit together.
use e_pem.Prelude.{
  ℕ, String, ◌≡◌, sym, subst, true, false, ◌⊎◌, Option, none, some, List, [], ◌∷◌, ◌++◌, ◌==◌,
  arith, eq_iff, eq_refl, Bool-cases, Option-cases, inl, inr,
}
use e_pem.Result.{ok, err, key_error}
use e_pem.PyList.{All}
use e_pem.PyList.Everywhere.{All-append, All-imp}
use e_pem.PyDict.{
  lookup, has, put, drop_key, has-put, lookup-put_same, lookup-put_other, lookup-drop_key, IsDict,
  IsDict-put, IsDict-drop_key,
}
use e_pem.Performance.{
  PerformanceManager, BlueprintPerformance, BlueprintPerformanceType, BlueprintPerformanceOperation,
  add_blueprint, start_known, start_operation, find_operation, persist, stop_operation,
  clear_pending, end_found, end_operation, start_provider_call, end_provider_call,
}

-- A pending operation belongs to a blueprint that is measured, no blueprint has two of them, and each
-- operation of a blueprint is in the table of operations.
pub record IsCoherent (s : PerformanceManager) : Type 0 where
  pub pending : (k : String) → has k s.pending_operations ≡ true → has k s.performance_dict ≡ true
  pub unique : IsDict s.pending_operations
  pub listed :
      (k : String) (p : BlueprintPerformance)
      → lookup k s.performance_dict ≡ some p
      → All (λ o. has o s.operations ≡ true) p.operations

grown :
    (id : String) (o : BlueprintPerformanceOperation)
    (d : List (String × BlueprintPerformanceOperation)) (l : List String)
    → All (λ x. has x d ≡ true) l
    → All (λ x. has x (put id o d) ≡ true) l
grown id o d l h = All-imp _ _ l (λ x k. ground (arith, has-put x id o d)) h

-- What is read after an assignment is what was assigned, or what was there.
put-cases :
    {V : Type 0} (j key : String) (v w : V) (d : List (String × V))
    → lookup j (put key v d) ≡ some w
    → (w ≡ v) ⊎ (lookup j d ≡ some w)
put-cases j key v w d h = elim (Bool-cases (key == j)) [
  | inl e ↦
      let same : key ≡ j = ground (arith, eq_iff key j) in
      let read : lookup j (put key v d) ≡ some v = rw (← same) (lookup-put_same key v d) in
      inl (ground (arith, h, read))
  | inr e ↦ inr (ground (arith, h, lookup-put_other j key v d e))
]

pub add_blueprint-IsCoherent :
    (id type : String) (now : ℕ) (s : PerformanceManager)
    → IsCoherent s
    → IsCoherent (add_blueprint id type now s)
unfolding add_blueprint
add_blueprint-IsCoherent id type now s c = record {
  pending = λ k h. ground (
    arith,
    has-put k id (record { blueprint_type = type; start = now; operations = [] })
        s.performance_dict,
    c.pending k h,
  );
  unique = c.unique;
  listed = λ k p h.
      elim (put-cases k id (record { blueprint_type = type; start = now; operations = [] }) p
        s.performance_dict h) [
          | inl e ↦ subst (λ x. All (λ o. has o s.operations ≡ true) x.operations) (sym e) tt
          | inr e ↦ c.listed k p e
        ];
}

start_known-IsCoherent :
    (id : String) (p : BlueprintPerformance) (type : BlueprintPerformanceType) (name op_id : String)
    (now : ℕ) (s : PerformanceManager)
    → lookup id s.performance_dict ≡ some p
    → IsCoherent s
    → IsCoherent (start_known id p type name op_id now s)
unfolding start_known
start_known-IsCoherent id p type name op_id now s found c =
    let more : BlueprintPerformance = record p { operations = p.operations ++ op_id ∷ [] } in
    let operation : BlueprintPerformanceOperation = record {
      op_name = name;
      type = type;
      start = now;
      end = none;
      provider_calls = [];
    } in
    record {
      pending = λ k h. ground (
        arith,
        has-put k id more s.performance_dict,
        has-put k id op_id s.pending_operations,
        c.pending k,
      );
      unique = IsDict-put id op_id s.pending_operations c.unique;
      listed = λ k q h. elim (put-cases k id more q s.performance_dict h) [
        | inl e ↦
            subst (λ x. All (λ o. has o (put op_id operation s.operations) ≡ true) x.operations)
              (sym e)
              (All-append _ p.operations (op_id ∷ [])
                (grown op_id operation s.operations p.operations (c.listed id p found))
                (ground (arith, has-put op_id op_id operation s.operations, eq_refl op_id), tt))
        | inr e ↦ grown op_id operation s.operations q.operations (c.listed k q e)
      ];
    }

pub start_operation-IsCoherent :
    (id : String) (type : BlueprintPerformanceType) (name op_id : String) (now : ℕ)
    (s : PerformanceManager)
    → IsCoherent s
    → IsCoherent (start_operation id type name op_id now s).1
unfolding start_operation
start_operation-IsCoherent id type name op_id now s c =
    elim (Option-cases (lookup id s.performance_dict)) [
      | inl e ↦ rw (start_operation, e) c
      | inr (p, e) ↦ rw (start_operation, e) (start_known-IsCoherent id p type name op_id now s e c)
    ]

-- Only the collection changes when the metrics are stored.
persist-IsCoherent :
    (l : List (String × BlueprintPerformance)) (s : PerformanceManager)
    → IsCoherent s
    → IsCoherent (persist l s)
unfolding persist
persist-IsCoherent [] s c = c
persist-IsCoherent ((id, p) ∷ rest) s c =
    persist-IsCoherent rest _ (record { pending = c.pending; unique = c.unique; listed = c.listed })

-- The table of operations may grow.
with_operation-IsCoherent :
    (id : String) (o : BlueprintPerformanceOperation) (s : PerformanceManager)
    → IsCoherent s
    → IsCoherent (record s { operations = put id o s.operations })
with_operation-IsCoherent id o s c = record {
  pending = c.pending;
  unique = c.unique;
  listed = λ k p h. grown id o s.operations p.operations (c.listed k p h);
}

stop_operation-IsCoherent :
    (id : String) (now : ℕ) (s : PerformanceManager)
    → IsCoherent s
    → IsCoherent (stop_operation id now s)
unfolding stop_operation
stop_operation-IsCoherent id now s c = elim (Option-cases (lookup id s.operations)) [
  | inl e ↦ rw (stop_operation, e) c
  | inr (o, e) ↦
      rw (stop_operation, e) (with_operation-IsCoherent id (record o { end = some now }) s c)
]

abbrev pub cleared : String → PerformanceManager → PerformanceManager
cleared id s = record s { pending_operations = drop_key id s.pending_operations }

pub end_found-pending :
    (op_id id : String) (now : ℕ) (s : PerformanceManager)
    → has id (stop_operation op_id now s).pending_operations ≡ true
    → end_found op_id id now s ≡ (
      ok tt,
      persist
          (stop_operation op_id now s).performance_dict
          (cleared id (stop_operation op_id now s)),
    )
unfolding end_found clear_pending
end_found-pending op_id id now s e = ground arith

pub end_found-absent :
    (op_id id : String) (now : ℕ) (s : PerformanceManager)
    → has id (stop_operation op_id now s).pending_operations ≡ false
    → end_found op_id id now s ≡ (err key_error, stop_operation op_id now s)
unfolding end_found clear_pending
end_found-absent op_id id now s e = ground arith

end_found-IsCoherent :
    (op_id id : String) (now : ℕ) (s : PerformanceManager)
    → IsCoherent s
    → IsCoherent (end_found op_id id now s).1
end_found-IsCoherent op_id id now s c =
    let stopped = stop_operation-IsCoherent op_id now s c in
    let t : PerformanceManager = stop_operation op_id now s in
    elim (Bool-cases (has id t.pending_operations)) [
      | inr e ↦ rw (end_found-absent op_id id now s e) stopped
      | inl e ↦ rw (end_found-pending op_id id now s e) (
          persist-IsCoherent t.performance_dict (cleared id t) (record {
            pending = λ k h. stopped.pending k (lookup-drop_key k id t.pending_operations "" h);
            unique = IsDict-drop_key id t.pending_operations stopped.unique;
            listed = stopped.listed;
          }))
    ]

pub end_operation-IsCoherent :
    (op : Option String) (now : ℕ) (s : PerformanceManager)
    → IsCoherent s
    → IsCoherent (end_operation op now s).1
unfolding end_operation
end_operation-IsCoherent none now s c = c
end_operation-IsCoherent (some op_id) now s c =
    elim (Option-cases (find_operation op_id s.performance_dict)) [
      | inl e ↦ rw (end_operation, e) c
      | inr (id, e) ↦ rw (end_operation, e) (end_found-IsCoherent op_id id now s c)
    ]

pub start_provider_call-IsCoherent :
    (op : Option String) (name call : String) (now : ℕ) (s : PerformanceManager)
    → IsCoherent s
    → IsCoherent (start_provider_call op name call now s).1
unfolding start_provider_call
start_provider_call-IsCoherent none name call now s c = c
start_provider_call-IsCoherent (some op_id) name call now s c =
    elim (Option-cases (lookup op_id s.operations)) [
      | inl e ↦ rw (start_provider_call, e) c
      | inr (o, e) ↦
          let grow =
            with_operation-IsCoherent op_id
              (record o { provider_calls = o.provider_calls ++ call ∷ [] }) s c in
          rw (start_provider_call, e)
            (record { pending = grow.pending; unique = grow.unique; listed = grow.listed })
    ]

pub end_provider_call-IsCoherent :
    (call : String) (now : ℕ) (s : PerformanceManager)
    → IsCoherent s
    → IsCoherent (end_provider_call call now s)
unfolding end_provider_call
end_provider_call-IsCoherent call now s c = elim (Option-cases (lookup call s.provider_calls)) [
  | inl e ↦ rw (end_provider_call, e) c
  | inr (x, e) ↦
      rw (end_provider_call, e)
        (record { pending = c.pending; unique = c.unique; listed = c.listed })
]
