-- ===== src/Network/Reservations.antt =====
-- Reserving and releasing ranges of a network (NetworkModel.add_reserved_range, release_range).
use e_pem.Prelude.{
  ℕ, zero, suc, subst, ◌≤◌, ◌<◌, ◌≡◌, refl, ◌⊎◌, ◌↔◌, inl, inr, String, Bool, false, Option, none,
  some, List, [], ◌∷◌, ◌++◌, arith, eq_iff, Bool-cases, Option-cases,
}
use e_pem.Result.{ok}
use e_pem.PyList.{All, contains, find_index, find_first, remove_first}
use e_pem.PyList.Everywhere.{All-append, All-remove_first}
use e_pem.PyList.Search.{find_index-none, find_index-some}
use e_pem.Network.{
  IPv4ReservedRange, NetworkModel, overlaps, add_reserved_range, release_range, remove_object,
  is_released, check_owner,
}

-- No range is `==` to one that stands behind it.
abbrev pub HasNoOverlap : List IPv4ReservedRange → Type 0
HasNoOverlap [] = Unit
HasNoOverlap (r ∷ rs) = All (λ s. overlaps r s ≡ false) rs × HasNoOverlap rs

abbrev pub IsOrdered : IPv4ReservedRange → Type 0
IsOrdered r = r.start ≤ r.end

-- `==` does not see a range that lies strictly inside the other.
abbrev pub IsClearOf : IPv4ReservedRange → IPv4ReservedRange → Type 0
IsClearOf new old =
    (old.end < new.start) ⊎ (new.end < old.start) ⊎ (old.start < new.start) × (new.end < old.end)

not-overlaps_iff :
    (old new : IPv4ReservedRange)
    → IsOrdered old
    → IsOrdered new
    → (overlaps old new ≡ false) ↔ IsClearOf new old
unfolding overlaps
not-overlaps_iff old new h k = ((λ e. ground arith), λ c. ground arith)

contains_clear :
    (new : IPv4ReservedRange) (l : List IPv4ReservedRange)
    → All IsOrdered l
    → IsOrdered new
    → (contains (λ item. overlaps item new) l ≡ false) ↔ All (IsClearOf new) l
unfolding contains
contains_clear new [] h k = ((λ e. tt), λ c. refl)
contains_clear new (r ∷ rs) h k =
    let here = not-overlaps_iff r new h.0 k in
    let there = contains_clear new rs h.1 k in
    (
      (λ e. (here.0 (ground arith), there.0 (ground arith))),
      λ c. ground (arith, here.1 c.0, there.1 c.1),
    )

-- A new range is accepted exactly when each range that is reserved already has no address in common
-- with it or strictly contains it; all the ranges involved have their start before their end.
pub add_reserved_range_accepts :
    (self : NetworkModel) (new : IPv4ReservedRange)
    → All IsOrdered self.reserved_ranges
    → IsOrdered new
    → (add_reserved_range new self
        ≡ ok (record self { reserved_ranges = self.reserved_ranges ++ new ∷ [] }))
      ↔ All (IsClearOf new) self.reserved_ranges
unfolding add_reserved_range
add_reserved_range_accepts self new h k =
    let iff = contains_clear new self.reserved_ranges h k in
    ((λ e. iff.0 (ground arith)), λ c. ground (arith, iff.1 c))

not-contains-All :
    (new : IPv4ReservedRange) (l : List IPv4ReservedRange)
    → contains (λ item. overlaps item new) l ≡ false
    → All (λ s. overlaps s new ≡ false) l
unfolding contains
not-contains-All new [] e = tt
not-contains-All new (r ∷ rs) e = ground (arith, not-contains-All new rs)

HasNoOverlap-snoc :
    (new : IPv4ReservedRange) (l : List IPv4ReservedRange)
    → HasNoOverlap l
    → All (λ s. overlaps s new ≡ false) l
    → HasNoOverlap (l ++ new ∷ [])
HasNoOverlap-snoc new [] h k = (tt, tt)
HasNoOverlap-snoc new (r ∷ rs) h k =
    (All-append _ rs (new ∷ []) h.0 (k.0, tt), HasNoOverlap-snoc new rs h.1 k.1)

pub add_reserved_range-HasNoOverlap :
    (self : NetworkModel) (new : IPv4ReservedRange) {after : NetworkModel}
    → HasNoOverlap self.reserved_ranges
    → add_reserved_range new self ≡ ok after
    → HasNoOverlap after.reserved_ranges
unfolding add_reserved_range
add_reserved_range-HasNoOverlap self new {after} h e =
    elim (Bool-cases (contains (λ item. overlaps item new) self.reserved_ranges)) [
      | inl bad ↦ absurd (ground arith)
      | inr good ↦
          let same : record self { reserved_ranges = self.reserved_ranges ++ new ∷ [] } ≡ after =
            ground arith in
          subst (λ n. HasNoOverlap n.reserved_ranges) same
            (HasNoOverlap-snoc new self.reserved_ranges h
              (not-contains-All new self.reserved_ranges good))
    ]

-- Of two reservations the later is apart from the earlier, or strictly inside it.
abbrev pub AreNested : List IPv4ReservedRange → Type 0
AreNested [] = Unit
AreNested (r ∷ rs) = All (λ s. IsClearOf s r) rs × AreNested rs

AreNested-snoc :
    (new : IPv4ReservedRange) (l : List IPv4ReservedRange)
    → AreNested l
    → All (IsClearOf new) l
    → AreNested (l ++ new ∷ [])
AreNested-snoc new [] h k = (tt, tt)
AreNested-snoc new (r ∷ rs) h k =
    (All-append _ rs (new ∷ []) h.0 (k.0, tt), AreNested-snoc new rs h.1 k.1)

-- An accepted range is the last of the reservations, and of any two of them the later still has no
-- address in common with the earlier or lies strictly inside it: an overlap at an end, or around an
-- earlier range, is refused. All the ranges involved have their start before their end.
pub add_reserved_range-AreNested :
    (self : NetworkModel) (new : IPv4ReservedRange) {after : NetworkModel}
    → All IsOrdered self.reserved_ranges
    → IsOrdered new
    → AreNested self.reserved_ranges
    → add_reserved_range new self ≡ ok after
    → (after.reserved_ranges ≡ self.reserved_ranges ++ new ∷ []) × AreNested after.reserved_ranges
unfolding add_reserved_range
add_reserved_range-AreNested self new {after} ordered k h e =
    elim (Bool-cases (contains (λ item. overlaps item new) self.reserved_ranges)) [
      | inl bad ↦ absurd (ground arith)
      | inr good ↦
          let same : record self { reserved_ranges = self.reserved_ranges ++ new ∷ [] } ≡ after =
            ground arith in
          subst
            (λ n.
              (n.reserved_ranges ≡ self.reserved_ranges ++ new ∷ []) × AreNested n.reserved_ranges)
            same
            (
              refl,
              AreNested-snoc new self.reserved_ranges h
                  ((contains_clear new self.reserved_ranges ordered k).0 good),
            )
    ]

pub HasNoOverlap-remove_first :
    (p : IPv4ReservedRange → Bool) (l : List IPv4ReservedRange)
    → HasNoOverlap l
    → HasNoOverlap (remove_first p l)
unfolding remove_first
HasNoOverlap-remove_first p [] h = tt
HasNoOverlap-remove_first p (r ∷ rs) h = ground (
  arith,
  HasNoOverlap-remove_first p rs h.1,
  All-remove_first (λ s. overlaps r s ≡ false) p rs h.0,
)

module _ (p : IPv4ReservedRange → Bool) where
  found-overlaps :
      (r t : IPv4ReservedRange) (l : List IPv4ReservedRange)
      → All (λ s. overlaps r s ≡ false) l
      → find_first p l ≡ some t
      → overlaps r t ≡ false
  unfolding find_first
  found-overlaps r t [] h e = absurd (ground arith)
  found-overlaps r t (s ∷ ss) h e = elim (Bool-cases (p s)) [
    | inl yes_p ↦ ground (arith, h.0)
    | inr no_p ↦ found-overlaps r t ss h.1 (ground arith)
  ]

  -- Where no range is `==` to one behind it, `remove` takes out the object itself.
  remove_object_at :
      (l : List IPv4ReservedRange) (i : ℕ) (t : IPv4ReservedRange)
      → HasNoOverlap l
      → find_index p l ≡ some i
      → find_first p l ≡ some t
      → remove_object i t l ≡ remove_first p l
  unfolding remove_object remove_first find_index find_first
  remove_object_at [] i t h e f = refl
  remove_object_at (r ∷ rs) zero t h e f = ground arith
  remove_object_at (r ∷ rs) (suc i) t h e f =
      ground (arith, remove_object_at rs i t h.1, found-overlaps r t rs h.0)

  remove_first-absent : (l : List IPv4ReservedRange) → find_first p l ≡ none → remove_first p l ≡ l
  unfolding remove_first find_first
  remove_first-absent [] e = refl
  remove_first-absent (r ∷ rs) e = ground (arith, remove_first-absent rs)

-- the assertion of `release_range` holds, or is not reached
abbrev pub MayRelease : String → Option IPv4ReservedRange → List IPv4ReservedRange → Type 0
MayRelease owner none l = Unit
MayRelease owner (some ip_range) l = (l ≡ []) ⊎ (owner ≡ ip_range.owner)

check_owner-ok :
    (owner : String) (ip_range : Option IPv4ReservedRange) (l : List IPv4ReservedRange)
    → MayRelease owner ip_range l
    → check_owner owner ip_range l ≡ ok tt
unfolding check_owner
check_owner-ok owner none l h = refl
check_owner-ok owner (some ip_range) [] h = refl
check_owner-ok owner (some ip_range) (r ∷ rs) h = ground (arith, eq_iff owner ip_range.owner)

-- Where no range is `==` to one behind it and the assertion holds, `release_range` returns the first
-- range that passes the test of the loop (the owner's name, or `==` to the given range), takes out
-- that range and no other, and changes nothing if there is none.
pub release_range_first :
    (owner : String) (ip_range : Option IPv4ReservedRange) (self : NetworkModel)
    → HasNoOverlap self.reserved_ranges
    → MayRelease owner ip_range self.reserved_ranges
    → release_range owner ip_range self
      ≡ ok (
        find_first (is_released owner ip_range) self.reserved_ranges,
        record self {
          reserved_ranges = remove_first (is_released owner ip_range) self.reserved_ranges;
        },
      )
unfolding release_range
release_range_first owner ip_range self h may =
    let l = self.reserved_ranges in
    let p = is_released owner ip_range in
    elim (Option-cases (find_first p l)) [
      | inl absent ↦ ground (
        arith,
        check_owner-ok owner ip_range l may,
        find_index-none p l absent,
        remove_first-absent p l absent,
      )
      | inr (t, found) ↦
          let (i, at) = find_index-some p l t found in
          ground (
            arith,
            check_owner-ok owner ip_range l may,
            at.found,
            at.read,
            remove_object_at p l i t h at.found found,
          )
    ]
