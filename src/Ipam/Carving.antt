-- ===== src/Ipam/Carving.antt =====
-- One step of the outer loop of `get_available_network_ip`, on the shape that the list of free
-- ranges has: ranges that end before the reservation, and behind them one that reaches the end of
-- the network.
use e_pem.Prelude.{
  ℕ, ◌+◌, ◌-◌, ◌≤◌, ◌<◌, ◌≡◌, refl, ◌⊎◌, inl, inr, none, some, List, [], ◌∷◌, ◌++◌, arith, leb, ltb,
  if◌then◌else◌, ltb→lt, Bool-cases,
}
use e_pem.Result.{ok, err, address_value_error}
use e_pem.Network.{IPv4Pool}
use e_pem.PyList.{All, find_index, get_at, set_at, remove_first, length}
use e_pem.PyList.Everywhere.{All-append, All-remove_first}
use e_pem.Ipam.{pool_eq, carve, address_limit, reaches_past}

find_index-snoc :
    (s : ℕ) (front : List IPv4Pool) (last : IPv4Pool)
    → All (λ g. g.end < s) front
    → find_index (reaches_past s) (front ++ last ∷ [])
      ≡ (if ltb s last.end then some (length front) else none)
unfolding find_index
find_index-snoc s [] last h = refl
find_index-snoc s (g ∷ gs) last h = ground (arith, find_index-snoc s gs last h.1)

get_at-snoc :
    (front : List IPv4Pool) (last : IPv4Pool) → get_at (front ++ last ∷ []) (length front) ≡ ok last
unfolding get_at
get_at-snoc [] last = refl
get_at-snoc (g ∷ gs) last = get_at-snoc gs last

set_at-snoc :
    (front : List IPv4Pool) (last v : IPv4Pool)
    → set_at (front ++ last ∷ []) (length front) v ≡ ok (front ++ v ∷ [])
unfolding set_at
set_at-snoc [] last v = refl
set_at-snoc (g ∷ gs) last v = ground (arith, set_at-snoc gs last v)

-- the range that ends before the reservation, if there is room for it
abbrev pub shortened : IPv4Pool → IPv4Pool → IPv4Pool
shortened r last = record { start = last.start; end = r.start - 1 }

-- the range behind the reservation
abbrev pub behind : IPv4Pool → IPv4Pool → IPv4Pool
behind r last = record { start = r.end + 1; end = last.end }

unfoldable pub kept : IPv4Pool → List IPv4Pool → IPv4Pool → List IPv4Pool
unfolding pool_eq
kept r front last =
    if leb (r.start - 1) last.start
    then remove_first (λ g. pool_eq g (shortened r last)) (front ++ shortened r last ∷ [])
    else front ++ shortened r last ∷ []

-- the ranges before the last one, and the last one, after a reservation is carved out
pub record Carved (r : IPv4Pool) (front : List IPv4Pool) (last : IPv4Pool) (after : List IPv4Pool)
    : Type 0 where
  pub front' : List IPv4Pool
  pub last' : IPv4Pool
  pub shape : after ≡ front' ++ last' ∷ []
  pub how :
      (last.end ≤ r.start) × (front' ≡ front) × (last' ≡ last)
      ⊎ (r.start < last.end)
        × (0 < r.start)
        × (front' ≡ kept r front last)
        × (last' ≡ behind r last)

module _ (r : IPv4Pool) (front : List IPv4Pool) (last : IPv4Pool)
    (below : All (λ g. g.end < r.start) front) where
  pub carve-beyond : last.end ≤ r.start → carve r (front ++ last ∷ []) ≡ ok (front ++ last ∷ [])
  unfolding carve
  carve-beyond h = ground (arith, find_index-snoc r.start front last below)

  pub carve-within :
      r.start < last.end
      → carve r (front ++ last ∷ []) ≡ (
          if ltb r.start 1
          then err address_value_error
          else if ltb (r.end + 1) address_limit
          then ok (kept r front last ++ behind r last ∷ [])
          else err address_value_error)
  unfolding carve kept
  carve-within h = ground (
    arith,
    find_index-snoc r.start front last below,
    get_at-snoc front last,
    set_at-snoc front last (shortened r last),
  )

  pub carve-shape :
      {after : List IPv4Pool} → carve r (front ++ last ∷ []) ≡ ok after → Carved r front last after
  carve-shape {after} e = elim (Bool-cases (ltb r.start last.end)) [
    | inl h ↦ record {
      front' = kept r front last;
      last' = behind r last;
      shape = ground (arith, carve-within (ltb→lt _ _ h));
      how = inr (ltb→lt _ _ h, (ground (arith, carve-within (ltb→lt _ _ h))), refl, refl);
    }
    | inr h ↦ record {
      front' = front;
      last' = last;
      shape = ground (arith, carve-beyond (ground arith));
      how = inl (ground arith, refl, refl);
    }
  ]

-- A property of the free ranges that survives cutting survives the step.
module _ {κ} (P : IPv4Pool → Type κ) (r : IPv4Pool) (front : List IPv4Pool) (last : IPv4Pool) where
  All-kept : All P front → P (shortened r last) → All P (kept r front last)
  unfolding kept
  All-kept h p = ground (
    arith,
    All-append P front (shortened r last ∷ []) h (p, tt),
    All-remove_first P (λ g. pool_eq g (shortened r last)) (front ++ shortened r last ∷ []),
  )

  pub All-front :
      {after : List IPv4Pool} (c : Carved r front last after)
      → All P front
      → (r.start < last.end → 0 < r.start → P (shortened r last))
      → All P c.front'
  All-front c h step = elim c.how [
    | inl (_, f, l) ↦ rw f h
    | inr (lt, pos, f, l) ↦ rw f (All-kept h (step lt pos))
  ]

  pub All-Carved :
      {after : List IPv4Pool} (c : Carved r front last after)
      → All P front
      → P last
      → (r.start < last.end → 0 < r.start → P (shortened r last) × P (behind r last))
      → All P c.front' × P c.last'
  All-Carved c h p step = (
    All-front c h (λ lt pos. (step lt pos).0),
    elim c.how [ inl (_, f, l) ↦ rw l p | inr (lt, pos, f, l) ↦ rw l (step lt pos).1 ],
  )
