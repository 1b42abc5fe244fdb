-- ===== src/References/Restoring.antt =====
-- A state stored with references is loaded as it was.
use e_pem.Prelude.{
  String, ◌≡◌, refl, ap, ◌∙◌, subst, Bool, true, ◌||◌, some, List, [], ◌∷◌, ◌++◌, ◌==◌, map, arith,
  Bool-cases, inl, inr,
}
use e_pem.Result.{Result, ok}
use e_pem.PyDict.{lookup, has, has-lookup}
use e_pem.References.{
  NodeClass, Value, Members, text, reference, scalar, node, last, member, plain, deployable,
  configuration, find_field_occurrences, get_id, to_reference, to_resource, is_resource,
  is_reference, override_variables_in_dict, override_variables_in_dict_ref,
}
use e_pem.References.Rewriting.{has_key, HasKeysOnce, AllOnce, paths, paths_in, find-paths}
use e_pem.References.Recursion.{transform, transform_in}
use e_pem.References.Traversal.{edit_all-transform}

-- An object of the classes of resources is registered under its identifier.
unfoldable pub IsRegistered : List (String × Value) → NodeClass → Members → Type 0
IsRegistered registered plain ms = Unit
IsRegistered registered deployable ms =
    (id : String) × (get_id ms ≡ some (text id))
    × (lookup id registered ≡ some (node deployable ms))
IsRegistered registered configuration ms =
    (id : String) × (get_id ms ≡ some (text id))
    × (lookup id registered ≡ some (node configuration ms))

-- An object holds no reference, and every resource in it is registered under its identifier.
unfoldable mutual
  unfolding IsRegistered

  pub IsHeld : List (String × Value) → Value → Type 0
  IsHeld registered (text s) = Unit
  IsHeld registered (reference id) = ⊥
  IsHeld registered scalar = Unit
  IsHeld registered (node c ms) = IsRegistered registered c ms × AreHeld registered ms

  pub AreHeld : List (String × Value) → Members → Type 0
  AreHeld registered last = Unit
  AreHeld registered (member key value rest) = IsHeld registered value × AreHeld registered rest

map-empty : (l : List (List String)) → map (λ p. [] ++ p) l ≡ l
map-empty [] = refl
map-empty (p ∷ l) = ap (λ m. p ∷ m) (map-empty l)

find-root :
    (check_fun : Value → Bool) (v : Value)
    → find_field_occurrences check_fun v [] ≡ paths check_fun v
find-root check_fun v = find-paths check_fun v [] ∙ map-empty (paths check_fun v)

to_reference-text :
    (registered : String → Bool) (c : NodeClass) (ms : Members) (id : String)
    → get_id ms ≡ some (text id)
    → registered id ≡ true
    → to_reference registered (node c ms) ≡ ok (reference id)
unfolding to_reference
to_reference-text registered c ms id g h = ground (arith, g, h)

to_resource-found :
    (registered : List (String × Value)) (id : String) (v : Value)
    → lookup id registered ≡ some v
    → to_resource registered (reference id) ≡ ok v
unfolding to_resource
to_resource-found registered id v found = ground (arith, found)

module _ (registered : List (String × Value)) where
  abbrev store : Value → Result Value
  store v = transform is_resource (to_reference (λ id. has id registered)) v

  abbrev load : Value → Result Value
  load v = transform is_reference (to_resource registered) v

  abbrev store_in : Members → Result Members
  store_in ms = transform_in is_resource (to_reference (λ id. has id registered)) ms

  abbrev load_in : Members → Result Members
  load_in ms = transform_in is_reference (to_resource registered) ms

  -- what is stored, loads as the object, and holds no resource and no key twice
  abbrev Stored : Value → Type 0
  Stored v =
      (w : Value) × (store v ≡ ok w) × (load w ≡ ok v) × HasKeysOnce w × (paths is_resource w ≡ [])

  abbrev StoredIn : Members → Type 0
  StoredIn ms =
      (ns : Members) × (store_in ms ≡ ok ns)
      × (load_in ns ≡ ok ms)
      × AllOnce ns
      × (paths_in is_resource ns ≡ [])
      × ((key : String) → has_key key ns ≡ has_key key ms)
      × ((id : String) → get_id ms ≡ some (text id) → get_id ns ≡ some (text id))

  store_object :
      (c : NodeClass) (ms : Members)
      → IsRegistered registered c ms
      → StoredIn ms
      → Stored (node c ms)
  unfolding transform HasKeysOnce paths IsRegistered IsHeld to_reference to_resource
  store_object plain ms r (ns, s, l, u, p, k, i) = (node plain ns, rw s refl, rw l refl, u, p)
  store_object deployable ms (id, g, found) (ns, s, l, u, p, k, i) = (
    reference id,
    rw s (
        to_reference-text (λ j. has j registered) deployable ns id (i id g)
          (has-lookup id registered (node deployable ms) found)),
    to_resource-found registered id (node deployable ms) found,
    tt,
    refl,
  )
  store_object configuration ms (id, g, found) (ns, s, l, u, p, k, i) = (
    reference id,
    rw s (
        to_reference-text (λ j. has j registered) configuration ns id (i id g)
          (has-lookup id registered (node configuration ms) found)),
    to_resource-found registered id (node configuration ms) found,
    tt,
    refl,
  )

  mutual
    unfolding transform HasKeysOnce paths IsRegistered IsHeld to_reference to_resource has_key
        get_id

    store_any : (v : Value) → HasKeysOnce v → IsHeld registered v → Stored v
    store_any (text s) u h = (text s, refl, refl, tt, refl)
    store_any (reference id) u h = absurd h
    store_any scalar u h = (scalar, refl, refl, tt, refl)
    store_any (node c ms) u h = store_object c ms h.0 (store_members ms u h.1)

    store_members : (ms : Members) → AllOnce ms → AreHeld registered ms → StoredIn ms
    store_members last u h = (last, refl, refl, tt, refl, λ key. refl, λ id g. g)
    store_members (member key v rest) u h =
        let one = store_any v u.1 h.0 in
        let many = store_members rest u.2 h.1 in
        (
          member key one.0 many.0,
          rw (one.1, many.1) refl,
          rw (one.2, many.2) refl,
          (many.5 key ∙ u.0, one.3, many.3),
          rw (one.4, many.4) refl,
          λ j. ap (λ b. key == j || b) (many.5 j),
          λ id. elim (Bool-cases (key == "id")) [
            | inl e ↦ rw e λ g.
                let same : v ≡ text id = ground (arith, g) in
                let kept : ok (text id) ≡ ok one.0 = subst (λ x. store x ≡ ok one.0) same one.1 in
                ground (arith, kept)
            | inr e ↦ rw e (many.6 id)
          ],
        )

-- Where no key occurs twice, no text is a reference and each resource in the state is registered under
-- its identifier, the state can be stored; what is stored holds no resource any more, and loading it
-- with the same registered resources gives the state back.
pub override_ref-override :
    (registered : List (String × Value)) (state : Members)
    → HasKeysOnce (node plain state)
    → IsHeld registered (node plain state)
    → (stored : Members) × (override_variables_in_dict registered state ≡ ok (node plain stored))
      × (find_field_occurrences is_resource (node plain stored) [] ≡ [])
      × (override_variables_in_dict_ref registered stored ≡ ok (node plain state))
unfolding override_variables_in_dict override_variables_in_dict_ref HasKeysOnce IsHeld paths
    transform
override_ref-override registered state u h =
    let kept = store_members registered state u h.1 in
    (
      kept.0,
      rw (find-root is_resource (node plain state)) (
          edit_all-transform is_resource (to_reference (λ id. has id registered)) (node plain state)
            (node plain kept.0) u (rw (kept.1) refl)),
      find-root is_resource (node plain kept.0) ∙ kept.4,
      rw (find-root is_reference (node plain kept.0)) (
          edit_all-transform is_reference (to_resource registered) (node plain kept.0)
            (node plain state) kept.3 (rw (kept.2) refl)),
    )
