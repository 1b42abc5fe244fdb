-- ===== src/Ipam/Completeness.antt =====
-- `get_range_in_cidr` finds a range whenever the network has a long enough block of addresses that
-- no reservation touches.
use e_pem.Prelude.{
  ℕ, ◌+◌, ◌-◌, ◌≤◌, ◌<◌, ◌≡◌, refl, ◌⊎◌, List, [], ◌∷◌, ◌++◌, arith, inl, inr, leb, ltb, Bool-cases,
  ltb→lt,
}
use e_pem.Result.{ok}
use e_pem.Network.{IPv4Pool, IPv4Network}
use e_pem.PyList.{All, remove_first}
use e_pem.PyList.Everywhere.{All-imp}
use e_pem.Ipam.{
  address_limit, carve, carve_all, broadcast_address, nth_address, nth_last_address,
  get_available_network_ip, pick_range, get_range_in_cidr, pool_eq,
}
use e_pem.Ipam.Sorting.{IsSorted, sorted, sorted-IsSorted, All-sorted}
use e_pem.Ipam.Carving.{Carved, carve-shape, carve-within, carve-beyond, kept, shortened, behind}
use e_pem.Ipam.Loop.{Below, Below-nil, Below-Carved, IsChecked, IsChecked-check_reserved}
use e_pem.Ipam.Safety.{IsInside, get_available_network_ip-IsInside}

module _ (x n : ℕ) where
  abbrev Holds : IPv4Pool → Type 0
  Holds g = (g.start ≤ x) × (x + n ≤ g.end)

  abbrev Has : List IPv4Pool → Type 0
  Has [] = ⊥
  Has (g ∷ gs) = Holds g ⊎ Has gs

  -- the reservation has no address in common with the block
  abbrev pub Spares : IPv4Pool → Type 0
  Spares r = (r.end < x) ⊎ (x + n < r.start)

  Has-left : (xs ys : List IPv4Pool) → Has xs → Has (xs ++ ys)
  Has-left (g ∷ gs) ys (inl h) = inl h
  Has-left (g ∷ gs) ys (inr h) = inr (Has-left gs ys h)
  Has-left [] ys h = absurd h

  Has-right : (xs : List IPv4Pool) (g : IPv4Pool) → Holds g → Has (xs ++ g ∷ [])
  Has-right [] g h = inl h
  Has-right (y ∷ ys) g h = inr (Has-right ys g h)

  module _ (long : 0 < n) where
    Has-remove_first :
        (c : IPv4Pool) (xs : List IPv4Pool)
        → c.end ≤ c.start
        → Has xs
        → Has (remove_first (λ g. pool_eq g c) xs)
    unfolding remove_first pool_eq
    Has-remove_first c [] thin h = absurd h
    Has-remove_first c (g ∷ gs) thin h = ground (arith, Has-remove_first c gs thin)

    Has-kept :
        (r : IPv4Pool) (front : List IPv4Pool) (last : IPv4Pool)
        → Has (front ++ shortened r last ∷ [])
        → Has (kept r front last)
    unfolding kept
    Has-kept r front last h =
        ground (arith, Has-remove_first (shortened r last) (front ++ shortened r last ∷ []))

    Has-Carved :
        (r : IPv4Pool) (front : List IPv4Pool) (last : IPv4Pool) {after : List IPv4Pool}
        (c : Carved r front last after)
        → Spares r
        → Has front ⊎ Holds last
        → Has c.front' ⊎ Holds c.last'
    Has-Carved r front last c spares h = elim c.how [
      | inl (le, f, l) ↦ rw (f, l) h
      | inr (lt, pos, f, l) ↦ rw (f, l) (within lt pos h)
    ]
      where
        within :
            r.start < last.end
            → 0 < r.start
            → Has front ⊎ Holds last
            → Has (kept r front last) ⊎ Holds (behind r last)
        within lt pos (inl old) =
            inl (Has-kept r front last (Has-left front (shortened r last ∷ []) old))
        within lt pos (inr here) = elim spares [
          | inl before ↦ inr (omega arith, omega arith)
          | inr past ↦ inl (
              Has-kept r front last (Has-right front (shortened r last) (omega arith, omega arith)))
        ]

carve-ok :
    (r : IPv4Pool) (front : List IPv4Pool) (last : IPv4Pool)
    → All (λ g. g.end < r.start) front
    → 0 < r.start
    → r.end + 1 < address_limit
    → (after : List IPv4Pool) × (carve r (front ++ last ∷ []) ≡ ok after)
carve-ok r front last below pos fits = elim (Bool-cases (ltb r.start last.end)) [
  | inl h ↦ (
    kept r front last ++ behind r last ∷ [],
    ground (arith, carve-within r front last below (ltb→lt _ _ h)),
  )
  | inr h ↦ (front ++ last ∷ [], carve-beyond r front last below (ground arith))
]

pick_range-ok :
    (x n : ℕ) (ranges : List IPv4Pool)
    → Has x n ranges
    → All (λ g. g.end < address_limit) ranges
    → (r : IPv4Pool) × (pick_range n ranges ≡ ok r) × (r.end ≡ r.start + n)
unfolding pick_range
pick_range-ok x n [] h small = absurd h
pick_range-ok x n (g ∷ gs) h small = elim (Bool-cases (leb (g.start + n) g.end)) [
  | inl fits ↦ (record { start = g.start; end = g.start + n }, ground arith, refl)
  | inr no_fit ↦
      let (r, e, long) = pick_range-ok x n gs (ground arith) small.1 in (r, ground arith, long)
]

-- The network is one of those whose addresses have a predecessor and a successor.
abbrev pub IsAmidst : IPv4Network → Type 0
IsAmidst cidr = (0 < cidr.network_address) × (broadcast_address cidr + 1 < address_limit)

module _ (cidr : IPv4Network) (x n : ℕ) (long : 0 < n) (amidst : IsAmidst cidr) where
  carve_all-Has :
      (rs front : List IPv4Pool) (last : IPv4Pool)
      → IsSorted rs
      → Below front rs
      → All (IsChecked cidr) rs
      → All (Spares x n) rs
      → Has x n front ⊎ Holds x n last
      → (out : List IPv4Pool) × (carve_all cidr rs (front ++ last ∷ []) ≡ ok out) × Has x n out
  unfolding carve_all
  carve_all-Has [] front last s below checked spares h = (
    front ++ last ∷ [],
    refl,
    elim h [
      | inl old ↦ Has-left x n front (last ∷ []) old
      | inr here ↦ Has-right x n front last here
    ],
  )
  carve_all-Has (r ∷ rs) front last s below checked spares h =
      let (after, cut) =
        carve-ok r front last below.0 (omega (arith, checked.0.from))
          (omega (arith, checked.0.to)) in
      let c = carve-shape r front last below.0 cut in
      let (out, e, has) =
        carve_all-Has rs c.front' c.last' s.1 (Below-Carved r front last rs c s.0 below.1) checked.1
          spares.1 (Has-Carved x n long r front last c spares.0 h) in
      (out, ground (arith, IsChecked-check_reserved cidr r checked.0, c.shape), has)

  module _ (reserved : List IPv4Pool) (checked : All (IsChecked cidr) reserved)
      (spares : All (Spares x n) reserved) (low : cidr.network_address + 4 ≤ x)
      (high : x + n < broadcast_address cidr) where
    get_available_network_ip-Has :
        (out : List IPv4Pool) × (get_available_network_ip cidr reserved ≡ ok out) × Has x n out
    unfolding get_available_network_ip nth_address nth_last_address
    get_available_network_ip-Has =
        let (out, e, has) =
          carve_all-Has (sorted reserved) []
            (record { start = cidr.network_address + 4; end = broadcast_address cidr - 1 })
            (sorted-IsSorted reserved) (Below-nil (sorted reserved)) (All-sorted _ reserved checked)
            (All-sorted _ reserved spares) (inr (low, omega arith)) in
        (out, ground (arith, e), has)

    -- If a block of at least two addresses between the fourth and the last but one address of the
    -- network has no address in common with a reserved range, every reserved range lies in the
    -- network in order, and the network is neither the first nor the last of the address space, then
    -- `get_range_in_cidr` returns a range of the block's length: as far from its start to its end
    -- as in the block.
    pub get_range_in_cidr_finds :
        (r : IPv4Pool) × (get_range_in_cidr cidr reserved n ≡ ok r) × (r.end ≡ r.start + n)
    unfolding get_range_in_cidr
    get_range_in_cidr_finds =
        let (out, e, has) = get_available_network_ip-Has in
        let small =
          All-imp (IsInside cidr) (λ g. g.end < address_limit) out
            (λ g h. omega (arith, h.1, amidst.1))
            (get_available_network_ip-IsInside cidr reserved e) in
        let (r, picked, length) = pick_range-ok x n out has small in
        (r, ground (arith, e, picked), length)
