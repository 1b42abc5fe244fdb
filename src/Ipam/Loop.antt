-- ===== src/Ipam/Loop.antt =====
-- Induction over the outer loop of `get_available_network_ip`.
use e_pem.Prelude.{◌≤◌, ◌<◌, ◌≡◌, subst, List, [], ◌∷◌, ◌++◌, arith, inl, inr}
use e_pem.Result.{Result-cases, ok}
use e_pem.Network.{IPv4Pool, IPv4Network}
use e_pem.PyList.{All}
use e_pem.PyList.Everywhere.{All-append}
use e_pem.Ipam.{carve, carve_all, check_reserved, broadcast_address}
use e_pem.Ipam.Sorting.{IsSorted}
use e_pem.Ipam.Carving.{Carved, carve-shape, All-front, All-Carved, shortened, behind}

-- the ranges before the last one end before every reservation that is still to come
abbrev pub Below : List IPv4Pool → List IPv4Pool → Type 0
Below front = All (λ r. All (λ g. g.end < r.start) front)

pub Below-nil : (rs : List IPv4Pool) → Below [] rs
Below-nil [] = tt
Below-nil (r ∷ rs) = (tt, Below-nil rs)

-- what the two checks at the head of the loop let through
pub record IsChecked (cidr : IPv4Network) (r : IPv4Pool) : Type 0 where
  pub ordered : r.start ≤ r.end
  pub from : cidr.network_address ≤ r.start
  pub to : r.end ≤ broadcast_address cidr

pub check_reserved-IsChecked :
    (cidr : IPv4Network) (r : IPv4Pool) → check_reserved cidr r ≡ ok tt → IsChecked cidr r
unfolding check_reserved
check_reserved-IsChecked cidr r e = record {
  ordered = ground arith;
  from = ground arith;
  to = ground arith;
}

pub IsChecked-check_reserved :
    (cidr : IPv4Network) (r : IPv4Pool) → IsChecked cidr r → check_reserved cidr r ≡ ok tt
unfolding check_reserved
IsChecked-check_reserved cidr r h = ground arith

pub record Round (cidr : IPv4Network) (r : IPv4Pool) (rs front : List IPv4Pool) (last : IPv4Pool)
    (out : List IPv4Pool) : Type 0 where
  pub checked : IsChecked cidr r
  pub after : List IPv4Pool
  pub step : Carved r front last after
  pub rest : carve_all cidr rs (step.front' ++ step.last' ∷ []) ≡ ok out

module _ (cidr : IPv4Network) (r : IPv4Pool) (rs front : List IPv4Pool) (last : IPv4Pool) where
  pub carve_all-Round :
      {out : List IPv4Pool}
      → Below front (r ∷ rs)
      → carve_all cidr (r ∷ rs) (front ++ last ∷ []) ≡ ok out
      → Round cidr r rs front last out
  unfolding carve_all
  carve_all-Round {out} below e = elim (Result-cases (check_reserved cidr r)) [
    | inr (x, bad) ↦ absurd (ground arith)
    | inl (_, good) ↦ elim (Result-cases (carve r (front ++ last ∷ []))) [
      | inr (x, bad) ↦ absurd (ground arith)
      | inl (after, cut) ↦
          let step = carve-shape r front last below.0 cut in
          record {
            checked = check_reserved-IsChecked cidr r good;
            after = after;
            step = step;
            rest = subst (λ l. carve_all cidr rs l ≡ ok out) step.shape (ground arith);
          }
    ]
  ]

module _ (r : IPv4Pool) (front : List IPv4Pool) (last : IPv4Pool) where
  pub Below-Carved :
      (rs : List IPv4Pool) {after : List IPv4Pool} (c : Carved r front last after)
      → All (λ s. r.start ≤ s.start) rs
      → Below front rs
      → Below c.front' rs
  Below-Carved [] c sorted below = tt
  Below-Carved (s ∷ ss) c sorted below = (
    All-front (λ g. g.end < s.start) r front last c below.0 (λ _ pos. omega (arith, sorted.0)),
    Below-Carved ss c sorted.1 below.1,
  )

-- A property that every cut keeps holds of all the ranges that the loop returns.
module _ {κ} (P : IPv4Pool → Type κ) (cidr : IPv4Network) where
  abbrev pub IsKept : IPv4Pool → Type κ
  IsKept r =
      (l : IPv4Pool)
      → P l
      → IsChecked cidr r
      → r.start < l.end
      → 0 < r.start
      → P (shortened r l) × P (behind r l)

  pub carve_all-All :
      (rs front : List IPv4Pool) (last : IPv4Pool) {out : List IPv4Pool}
      → IsSorted rs
      → Below front rs
      → All IsKept rs
      → All P front
      → P last
      → carve_all cidr rs (front ++ last ∷ []) ≡ ok out
      → All P out
  unfolding carve_all
  carve_all-All [] front last sorted below keep h p e =
      subst (All P) (ground (arith, e)) (All-append P front (last ∷ []) h (p, tt))
  carve_all-All (r ∷ rs) front last sorted below keep h p e =
      let round = carve_all-Round cidr r rs front last below e in
      let both = All-Carved P r front last round.step h p (keep.0 last p round.checked) in
      carve_all-All rs round.step.front' round.step.last' sorted.1
        (Below-Carved r front last rs round.step sorted.0 below.1) keep.1 both.0 both.1 round.rest
