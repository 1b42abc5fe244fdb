-- ===== src/Ipam/Safety.antt =====
-- The free ranges of a network keep clear of every reserved range.
use e_pem.Prelude.{
  ◌+◌, ◌-◌, ◌≤◌, ◌<◌, ◌≡◌, ◌≢◌, subst, sym, ◌⊎◌, List, [], ◌∷◌, ◌++◌, arith, inl, inr,
}
use e_pem.Result.{ok}
use e_pem.Network.{IPv4Pool, IPv4Network}
use e_pem.PyList.{All}
use e_pem.PyList.Everywhere.{All-imp}
use e_pem.Ipam.{
  carve_all, broadcast_address, nth_address, nth_last_address, get_available_network_ip,
}
use e_pem.Ipam.Sorting.{IsSorted, sorted, sorted-IsSorted, All-sorted, All-sorted_inv}
use e_pem.Ipam.Carving.{Carved, All-front}
use e_pem.Ipam.Loop.{Below, Below-nil, carve_all-Round, Below-Carved, carve_all-All, IsKept}

-- the two ranges have no address in common
abbrev pub Apart : IPv4Pool → IPv4Pool → Type 0
Apart r g = (r.end < g.start) ⊎ (g.end < r.start)

-- A reserved range that starts no later than another ends no later than it: none lies strictly
-- inside another.
abbrev pub HasNoNesting : List IPv4Pool → Type 0
HasNoNesting l = All (λ r. All (λ s. r.start ≤ s.start → r.end ≤ s.end) l) l

abbrev EndsBefore : IPv4Pool → List IPv4Pool → Type 0
EndsBefore r = All (λ s. r.end ≤ s.end)

abbrev HasSortedEnds : List IPv4Pool → Type 0
HasSortedEnds [] = Unit
HasSortedEnds (r ∷ rs) = EndsBefore r rs × HasSortedEnds rs

EndsBefore-lem :
    (r : IPv4Pool) (rs : List IPv4Pool)
    → All (λ s. r.start ≤ s.start) rs
    → All (λ s. r.start ≤ s.start → r.end ≤ s.end) rs
    → EndsBefore r rs
EndsBefore-lem r [] h k = tt
EndsBefore-lem r (s ∷ ss) h k = (k.0 h.0, EndsBefore-lem r ss h.1 k.1)

HasSortedEnds-lem :
    (rs : List IPv4Pool)
    → IsSorted rs
    → All (λ r. All (λ s. r.start ≤ s.start → r.end ≤ s.end) rs) rs
    → HasSortedEnds rs
HasSortedEnds-lem [] s h = tt
HasSortedEnds-lem (r ∷ rs) s h =
    (EndsBefore-lem r rs s.0 h.0.1, HasSortedEnds-lem rs s.1 (All-imp _ _ rs (λ x k. k.1) h.1))

sorted-HasSortedEnds : (l : List IPv4Pool) → HasNoNesting l → HasSortedEnds (sorted l)
sorted-HasSortedEnds l h = HasSortedEnds-lem (sorted l) (sorted-IsSorted l) (
    All-sorted _ l
      (All-imp _ _ l (λ r k. All-sorted (λ s. r.start ≤ s.start → r.end ≤ s.end) l k) h))

module _ (cidr : IPv4Network) where
  Apart-IsKept :
      (r : IPv4Pool) (rs : List IPv4Pool) → EndsBefore r rs → All (IsKept (Apart r) cidr) rs
  Apart-IsKept r [] h = tt
  Apart-IsKept r (s ∷ ss) h = (
    (λ l apart checked lt pos. (omega (arith, h.0), inl (omega (arith, h.0)))),
    Apart-IsKept r ss h.1,
  )

  Apart-Carved :
      (r : IPv4Pool) (front : List IPv4Pool) (last : IPv4Pool) {after : List IPv4Pool}
      (c : Carved r front last after)
      → All (λ g. g.end < r.start) front
      → last.end ≢ r.start
      → All (Apart r) c.front' × Apart r c.last'
  Apart-Carved r front last c below ne = (
    All-front (Apart r) r front last c (All-imp _ _ front (λ g h. inr h) below)
        (λ _ pos. inr (omega arith)),
    elim c.how [
      | inl (le, f, l) ↦ rw l (inr (omega (arith, ne)))
      | inr (lt, pos, f, l) ↦ rw l (inl (omega arith))
    ],
  )

  end-Carved :
      (r : IPv4Pool) (front : List IPv4Pool) (last : IPv4Pool) {after : List IPv4Pool}
      (c : Carved r front last after)
      → last.end ≡ c.last'.end
  end-Carved r front last c = elim c.how [ inl (le, f, l) ↦ rw l | inr (lt, pos, f, l) ↦ rw l ]

  carve_all-Apart :
      (rs front : List IPv4Pool) (last : IPv4Pool) {out : List IPv4Pool}
      → IsSorted rs
      → HasSortedEnds rs
      → Below front rs
      → All (λ r. last.end ≢ r.start) rs
      → carve_all cidr rs (front ++ last ∷ []) ≡ ok out
      → All (λ r. All (Apart r) out) rs
  carve_all-Apart [] front last s ends below ne e = tt
  carve_all-Apart (r ∷ rs) front last s ends below ne e =
      let round = carve_all-Round cidr r rs front last below e in
      let both = Apart-Carved r front last round.step below.0 ne.0 in
      let below' = Below-Carved r front last rs round.step s.0 below.1 in
      (
        carve_all-All (Apart r) cidr rs round.step.front' round.step.last' s.1 below'
            (Apart-IsKept r rs ends.0) both.0 both.1 round.rest,
        carve_all-Apart rs round.step.front' round.step.last' s.1 ends.1 below'
            (subst (λ n. All (λ r. n ≢ r.start) rs) (end-Carved r front last round.step) ne.1)
            round.rest,
      )

  -- what a free range is: strictly inside the network
  abbrev pub IsInside : IPv4Pool → Type 0
  IsInside g = (cidr.network_address < g.start) × (g.end < broadcast_address cidr)

  IsInside-IsKept : (rs : List IPv4Pool) → All (IsKept IsInside cidr) rs
  IsInside-IsKept [] = tt
  IsInside-IsKept (r ∷ rs) =
      ((λ l inside checked lt pos. (omega arith, omega arith)), IsInside-IsKept rs)

  -- a range that starts at the last address that may be given out
  abbrev pub StartsAtLast : IPv4Pool → Type 0
  StartsAtLast r = r.start ≡ broadcast_address cidr - 1

  pub get_available_network_ip-Apart :
      (reserved : List IPv4Pool) {out : List IPv4Pool}
      → HasNoNesting reserved
      → All (λ r. ¬ StartsAtLast r) reserved
      → get_available_network_ip cidr reserved ≡ ok out
      → All (λ r. All (Apart r) out) reserved
  unfolding get_available_network_ip nth_address nth_last_address
  get_available_network_ip-Apart reserved flat ne e = All-sorted_inv _ reserved (
      carve_all-Apart (sorted reserved) []
        (record { start = cidr.network_address + 4; end = broadcast_address cidr - 1 })
        (sorted-IsSorted reserved) (sorted-HasSortedEnds reserved flat)
        (Below-nil (sorted reserved))
        (All-sorted _ reserved (All-imp _ _ reserved (λ r h k. h (sym k)) ne)) (ground arith))

  pub get_available_network_ip-IsInside :
      (reserved : List IPv4Pool) {out : List IPv4Pool}
      → get_available_network_ip cidr reserved ≡ ok out
      → All IsInside out
  unfolding get_available_network_ip nth_address nth_last_address
  get_available_network_ip-IsInside reserved e =
      carve_all-All IsInside cidr (sorted reserved) []
        (record { start = cidr.network_address + 4; end = broadcast_address cidr - 1 })
        (sorted-IsSorted reserved) (Below-nil (sorted reserved)) (IsInside-IsKept (sorted reserved))
        tt (ground arith, ground arith) (ground arith)
