-- ===== src/TopologyModel/Registry.antt =====
-- What the lists of the topology model promise: a finite map from names to items.
-- The lists are searched by position and name; clients need the map alone.
use e_pem.Prelude.{
  ℕ, String, ◌≡◌, refl, Option, none, some, List, [], ◌∷◌, ◌++◌, ◌==◌, arith, eq_iff, if◌then◌else◌,
  Option-cases, inl, inr,
}
use e_pem.Result.{Error, Result, Result-cases, ok, err, value_error, ◌>>=◌, ◌>>◌}
use e_pem.PyList.{contains, find_index, get_at, set_at, pop_at, index_or, remove_first}
use e_pem.PyList.Search.{find_index-none, find_index-some, replace_first}
use e_pem.PyList.Keyed.{
  named, view, HasUniqueKeys, contains-eq_view, HasUniqueKeys-append, HasUniqueKeys-remove_first,
  HasUniqueKeys-replace_first, view-append, view-remove_first, view-replace_first,
}

-- What an operation that succeeds does to the items: `s` becomes `set l s`, whose map `map` gives,
-- and names stay unique.
abbrev pub Becomes :
    {A S B : Type 0} (key : A → String)
    → List A
    → (List A → S)
    → Result (B × S)
    → B
    → (String → Option A)
    → Type 0
Becomes {A} key before set result b map =
    (l : List A) × (result ≡ ok (b, set l))
    × ((j : String) → view key l j ≡ map j)
    × (HasUniqueKeys key before → HasUniqueKeys key l)

module _ {A S : Type 0} (key : A → String) (items : S → List A) (set : List A → S → S)
    (missing : Error) (guard : A → Result (Unit {0})) where
  -- Deletion by name: of an item that is there and that `guard` lets go, of one that it protects by
  -- an exception, and of a name that is not there.
  pub record IsDeletable (del : String → S → Result (A × S)) : Type 0 where
    pub del_present :
        (k : String) (x : A) (s : S)
        → HasUniqueKeys key (items s)
        → view key (items s) k ≡ some x
        → guard x ≡ ok tt
        → Becomes key
            (items s)
            (λ l. set l s)
            (del k s)
            x
            (λ j. if k == j then none else view key (items s) j)
    pub del_protected :
        (k : String) (x : A) (s : S) (e : Error)
        → view key (items s) k ≡ some x
        → guard x ≡ err e
        → del k s ≡ err e
    pub del_absent : (k : String) (s : S) → view key (items s) k ≡ none → del k s ≡ err missing

  -- The contract of a registry.
  pub record IsRegistry (add : A → S → Result (A × S)) (get : String → S → Result A)
      (upd : A → S → Result (A × S)) (del : String → S → Result (A × S)) : Type 0 where
    pub add_new :
        (a : A) (s : S)
        → view key (items s) (key a) ≡ none
        → Becomes key
            (items s)
            (λ l. set l s)
            (add a s)
            a
            (λ j. if key a == j then some a else view key (items s) j)
    pub add_taken :
        (a x : A) (s : S) → view key (items s) (key a) ≡ some x → add a s ≡ err value_error
    pub get_present : (k : String) (x : A) (s : S) → view key (items s) k ≡ some x → get k s ≡ ok x
    pub get_absent : (k : String) (s : S) → view key (items s) k ≡ none → get k s ≡ err missing
    pub upd_present :
        (a x : A) (s : S)
        → view key (items s) (key a) ≡ some x
        → Becomes key
            (items s)
            (λ l. set l s)
            (upd a s)
            a
            (λ j. if key a == j then some a else view key (items s) j)
    pub upd_absent : (a : A) (s : S) → view key (items s) (key a) ≡ none → upd a s ≡ err missing
    pub deletable : IsDeletable del

  abbrev index_of : String → S → Result ℕ
  index_of k s = index_or missing (find_index (named key k) (items s))

  abbrev pub add_item : A → S → Result (A × S)
  add_item a s =
      if contains (named key (key a)) (items s)
      then err value_error
      else ok (a, set (items s ++ a ∷ []) s)

  abbrev pub get_item : String → S → Result A
  get_item k s = do i ← index_of k s; get_at (items s) i

  abbrev pub upd_item : A → S → Result (A × S)
  upd_item a s = do i ← index_of (key a) s; l ← set_at (items s) i a; ok (a, set l s)

  abbrev pub pop_item : String → S → Result (A × S)
  pop_item k s = do i ← index_of k s; (x, l) ← pop_at (items s) i; ok (x, set l s)

  abbrev pub pop_guarded : String → S → Result (A × S)
  pop_guarded k s = do
    i ← index_of k s
    x ← get_at (items s) i
    guard x
    (y, l) ← pop_at (items s) i
    ok (y, set l s)

  -- The ways in which the topology model writes its operations meet the contract.
  pub pop_guarded-IsDeletable : IsDeletable pop_guarded
  unfolding index_or
  pop_guarded-IsDeletable = record {
    del_present = λ k x s unique present free. (
      remove_first (named key k) (items s),
      (let (i, at) = find_index-some (named key k) (items s) x present in
          ground (arith, at.found, at.read, at.popped)),
      (λ j. view-remove_first key k (items s) j unique),
      HasUniqueKeys-remove_first key (named key k) (items s),
    );
    del_protected = λ k x s e present held.
        let (i, at) = find_index-some (named key k) (items s) x present in
        ground (arith, at.found, at.read);
    del_absent = λ k s absent. ground (arith, find_index-none (named key k) (items s) absent);
  }

  pub pop_item-IsDeletable : ((x : A) → guard x ≡ ok tt) → IsDeletable pop_item
  unfolding index_or
  pop_item-IsDeletable free = record {
    del_present = λ k x s unique present _. (
      remove_first (named key k) (items s),
      (let (i, at) = find_index-some (named key k) (items s) x present in
          ground (arith, at.found, at.popped)),
      (λ j. view-remove_first key k (items s) j unique),
      HasUniqueKeys-remove_first key (named key k) (items s),
    );
    del_protected = λ k x s e present held. absurd (ground (arith, free x));
    del_absent = λ k s absent. ground (arith, find_index-none (named key k) (items s) absent);
  }

  pub items-IsRegistry :
      {del : String → S → Result (A × S)}
      → IsDeletable del
      → IsRegistry add_item get_item upd_item del
  unfolding index_or
  items-IsRegistry deletable = record {
    add_new = λ a s absent. (
      items s ++ a ∷ [],
      ground (arith, contains-eq_view key (key a) (items s)),
      (λ j. ground (arith, view-append key (items s) a j, eq_iff (key a) j)),
      HasUniqueKeys-append key (items s) a (ground (arith, contains-eq_view key (key a) (items s))),
    );
    add_taken = λ a x s taken. ground (arith, contains-eq_view key (key a) (items s));
    get_present = λ k x s present.
        let (i, at) = find_index-some (named key k) (items s) x present in
        ground (arith, at.found, at.read);
    get_absent = λ k s absent. ground (arith, find_index-none (named key k) (items s) absent);
    upd_present = λ a x s present. (
      replace_first (named key (key a)) a (items s),
      (let (i, at) = find_index-some (named key (key a)) (items s) x present in
          ground (arith, at.found, at.written a)),
      (λ j.
          view-replace_first key (key a) a (items s) j refl
            (ground (arith, contains-eq_view key (key a) (items s)))),
      HasUniqueKeys-replace_first key (key a) a (items s) refl,
    );
    upd_absent = λ a s absent. ground (arith, find_index-none (named key (key a)) (items s) absent);
    deletable = deletable;
  }

-- What an operation of a registry leaves, whatever it was called with.
module _ {A S : Type 0} {key : A → String} {items : S → List A} {set : List A → S → S}
    {missing : Error} {guard : A → Result (Unit {0})} {add : A → S → Result (A × S)}
    {get : String → S → Result A} {upd : A → S → Result (A × S)} {del : String → S → Result (A × S)}
    (registry : IsRegistry key items set missing guard add get upd del) where
  -- another list with unique names in the place of the old one
  abbrev pub Replaced : S → S → Type 0
  Replaced s s' = (l : List A) × (s' ≡ set l s) × HasUniqueKeys key l

  replaced :
      {r : Result (A × S)} {a b : A} {map : String → Option A} (s s' : S)
      → HasUniqueKeys key (items s)
      → Becomes key (items s) (λ l. set l s) r a map
      → r ≡ ok (b, s')
      → Replaced s s'
  replaced s s' u (l, e, views, keeps) h = (l, ground arith, keeps u)

  pub add-Replaced :
      (a b : A) (s s' : S) → HasUniqueKeys key (items s) → add a s ≡ ok (b, s') → Replaced s s'
  add-Replaced a b s s' u e = elim (Option-cases (view key (items s) (key a))) [
    | inl h ↦ replaced s s' u (registry.add_new a s h) e
    | inr (x, h) ↦ absurd (ground (arith, registry.add_taken a x s h))
  ]

  pub upd-Replaced :
      (a b : A) (s s' : S) → HasUniqueKeys key (items s) → upd a s ≡ ok (b, s') → Replaced s s'
  upd-Replaced a b s s' u e = elim (Option-cases (view key (items s) (key a))) [
    | inr (x, h) ↦ replaced s s' u (registry.upd_present a x s h) e
    | inl h ↦ absurd (ground (arith, registry.upd_absent a s h))
  ]

  pub del-Replaced :
      (k : String) (b : A) (s s' : S)
      → HasUniqueKeys key (items s)
      → del k s ≡ ok (b, s')
      → Replaced s s'
  del-Replaced k b s s' u e = elim (Option-cases (view key (items s) k)) [
    | inl h ↦ absurd (ground (arith, registry.deletable.del_absent k s h))
    | inr (x, h) ↦ elim (Result-cases (guard x)) [
      | inl (_, free) ↦ replaced s s' u (registry.deletable.del_present k x s u h free) e
      | inr (z, held) ↦ absurd (ground (arith, registry.deletable.del_protected k x s z h held))
    ]
  ]
