-- ===== src/Network/RoundTrip.antt =====
-- models/network/network_models.py: a range that is reserved and released again.
use e_pem.Prelude.{
  String, ◌≡◌, refl, sym, subst, true, false, some, List, [], ◌∷◌, ◌++◌, arith, inl, inr,
  Bool-cases,
}
use e_pem.Result.{ok}
use e_pem.PyList.{contains, find_first, remove_first}
use e_pem.Network.{
  IPv4ReservedRange, NetworkModel, overlaps, add_reserved_range, release_range, is_released,
}
use e_pem.Network.Reservations.{
  HasNoOverlap, IsOrdered, add_reserved_range-HasNoOverlap, release_range_first,
}

overlaps_self : (r : IPv4ReservedRange) → IsOrdered r → overlaps r r ≡ true
unfolding overlaps
overlaps_self r h = ground arith

-- A range at the end that is `==` to none before it is the first that passes the test.
released-last :
    (owner : String) (r : IPv4ReservedRange) (l : List IPv4ReservedRange)
    → IsOrdered r
    → contains (λ item. overlaps item r) l ≡ false
    → (find_first (is_released owner (some r)) (l ++ r ∷ []) ≡ some r)
      × (remove_first (is_released owner (some r)) (l ++ r ∷ []) ≡ l)
unfolding contains find_first remove_first is_released
released-last owner r [] h c =
    (ground (arith, overlaps_self r h), ground (arith, overlaps_self r h))
released-last owner r (x ∷ xs) h c =
    let (found, rest) = released-last owner r xs h (ground arith) in (ground arith, ground arith)

-- Releasing a range that was just reserved, by its owner, gives back the range and the network as it
-- was. Before, no reservation is `==` to one behind it, and the range has its start before its end.
pub release-add_reserved_range :
    (self after : NetworkModel) (r : IPv4ReservedRange)
    → HasNoOverlap self.reserved_ranges
    → IsOrdered r
    → add_reserved_range r self ≡ ok after
    → release_range r.owner (some r) after ≡ ok (some r, self)
unfolding add_reserved_range
release-add_reserved_range self after r clear ordered added =
    elim (Bool-cases (contains (λ item. overlaps item r) self.reserved_ranges)) [
      | inl taken ↦ absurd (ground arith)
      | inr new ↦
          let fuller : NetworkModel = record self {
            reserved_ranges = self.reserved_ranges ++ r ∷ [];
          } in
          let same : fuller ≡ after = ground arith in
          let (found, rest) = released-last r.owner r self.reserved_ranges ordered new in
          let run =
            release_range_first r.owner (some r) fuller
              (subst (λ n. HasNoOverlap n.reserved_ranges) (sym same)
                (add_reserved_range-HasNoOverlap self r clear added))
              (inr refl) in
          subst (λ n. release_range r.owner (some r) n ≡ ok (some r, self)) same
            (ground (arith, run, found, rest))
    ]
