-- ===== src/Ipam/Sorting.antt =====
-- `sorted(reserved_ranges, key=...)` of utils/ipam.py: the four bytes of an address order as its
-- number does, and Python's sort is stable.
use e_pem.Prelude.{◌≤◌, List, [], ◌∷◌, arith, leb, if◌then◌else◌}
use e_pem.Network.{IPv4Pool}
use e_pem.PyList.{All}
use e_pem.PyList.Everywhere.{All-imp}

unfoldable pub insort : IPv4Pool → List IPv4Pool → List IPv4Pool
insort r [] = r ∷ []
insort r (s ∷ ss) = if leb r.start s.start then r ∷ s ∷ ss else s ∷ insort r ss

unfoldable pub sorted : List IPv4Pool → List IPv4Pool
unfolding insort
sorted [] = []
sorted (r ∷ rs) = insort r (sorted rs)

-- by start, and by the relation `R` between each range and those behind it
abbrev pub IsSorted : List IPv4Pool → Type 0
IsSorted [] = Unit
IsSorted (r ∷ rs) = All (λ s. r.start ≤ s.start) rs × IsSorted rs

module _ {κ} (P : IPv4Pool → Type κ) where
  pub All-insort : (r : IPv4Pool) (rs : List IPv4Pool) → P r → All P rs → All P (insort r rs)
  unfolding insort
  All-insort r [] p h = (p, tt)
  All-insort r (s ∷ ss) p h = ground (arith, All-insort r ss p h.1)

  pub All-sorted : (rs : List IPv4Pool) → All P rs → All P (sorted rs)
  unfolding sorted
  All-sorted [] h = tt
  All-sorted (r ∷ rs) h = All-insort r (sorted rs) h.0 (All-sorted rs h.1)

  pub All-insort_inv : (r : IPv4Pool) (rs : List IPv4Pool) → All P (insort r rs) → P r × All P rs
  unfolding insort
  All-insort_inv r [] h = h
  All-insort_inv r (s ∷ ss) h = ground (arith, All-insort_inv r ss)

  pub All-sorted_inv : (rs : List IPv4Pool) → All P (sorted rs) → All P rs
  unfolding sorted
  All-sorted_inv [] h = tt
  All-sorted_inv (r ∷ rs) h =
      let both = All-insort_inv r (sorted rs) h in (both.0, All-sorted_inv rs both.1)

insort-IsSorted : (r : IPv4Pool) (rs : List IPv4Pool) → IsSorted rs → IsSorted (insort r rs)
unfolding insort
insort-IsSorted r [] h = (tt, tt)
insort-IsSorted r (s ∷ ss) h = ground (
  arith,
  insort-IsSorted r ss h.1,
  All-insort (λ t. s.start ≤ t.start) r ss,
  All-imp (λ t. s.start ≤ t.start) (λ t. r.start ≤ t.start) ss,
)

pub sorted-IsSorted : (rs : List IPv4Pool) → IsSorted (sorted rs)
unfolding sorted
sorted-IsSorted [] = tt
sorted-IsSorted (r ∷ rs) = insort-IsSorted r (sorted rs) (sorted-IsSorted rs)
