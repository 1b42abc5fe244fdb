-- ===== src/Ipam/Choice.antt =====
-- `get_range_in_cidr`: what is known of the range that it returns.
use e_pem.Prelude.{ℕ, ◌+◌, ◌≤◌, ◌≡◌, List, [], ◌∷◌, arith, subst, refl, leb, Bool-cases, inl, inr}
use e_pem.Result.{ok, Result-cases}
use e_pem.Network.{IPv4Pool, IPv4Network}
use e_pem.PyList.{All}
use e_pem.PyList.Everywhere.{All-imp, All-and}
use e_pem.Ipam.{get_available_network_ip, pick_range, get_range_in_cidr}
use e_pem.Ipam.Safety.{
  Apart, HasNoNesting, StartsAtLast, IsInside, get_available_network_ip-Apart,
  get_available_network_ip-IsInside,
}

abbrev prefix : IPv4Pool → ℕ → IPv4Pool
prefix g n = record { start = g.start; end = g.start + n }

module _ {κ μ} (P : IPv4Pool → Type κ) (Q : IPv4Pool → Type μ) (n : ℕ)
    (cut : (g : IPv4Pool) → P g → g.start + n ≤ g.end → Q (prefix g n)) where
  pub pick_range-All :
      (ranges : List IPv4Pool) {r : IPv4Pool} → All P ranges → pick_range n ranges ≡ ok r → Q r
  unfolding pick_range
  pick_range-All [] h e = absurd (ground arith)
  pick_range-All (g ∷ gs) h e = elim (Bool-cases (leb (g.start + n) g.end)) [
    | inl long ↦ subst Q (ground arith) (cut g h.0 (ground arith))
    | inr short ↦ pick_range-All gs h.1 (ground arith)
  ]

-- A range that may be given out: it has no address in common with a reserved range, lies strictly
-- between the network's address and its broadcast address, and its last address is `n` behind its
-- first.
pub record IsFree (cidr : IPv4Network) (reserved : List IPv4Pool) (n : ℕ) (r : IPv4Pool)
    : Type 0 where
  pub apart : All (λ s. Apart s r) reserved
  pub inside : IsInside cidr r
  pub length : r.end ≡ r.start + n

ApartFrom : IPv4Pool → List IPv4Pool → Type 0
ApartFrom r = All (λ s. Apart s r)

-- the free ranges are apart from each reservation: by range instead of by reservation
by_range :
    (reserved out : List IPv4Pool)
    → All (λ r. All (Apart r) out) reserved
    → All (λ g. All (λ r. Apart r g) reserved) out
by_range reserved [] h = tt
by_range reserved (g ∷ gs) h = (
  All-imp _ _ reserved (λ r k. k.0) h,
  by_range reserved gs (All-imp _ _ reserved (λ r k. k.1) h),
)

Apart-prefix :
    (n : ℕ) (g : IPv4Pool) (reserved : List IPv4Pool)
    → g.start + n ≤ g.end
    → All (λ r. Apart r g) reserved
    → All (λ r. Apart r (prefix g n)) reserved
Apart-prefix n g [] fits h = tt
Apart-prefix n g (r ∷ rs) fits h = (omega (arith, h.0), Apart-prefix n g rs fits h.1)

module _ (cidr : IPv4Network) (reserved : List IPv4Pool) (n : ℕ) {r : IPv4Pool} where
  -- A range that `get_range_in_cidr` returns has no address in common with any reserved range, if no
  -- reserved range lies inside another and none starts at the last address before the broadcast
  -- address. It lies strictly between the network's address and the broadcast address, and its end
  -- is its start plus the length that was asked for.
  pub get_range_in_cidr-IsFree :
      HasNoNesting reserved
      → All (λ s. ¬ StartsAtLast cidr s) reserved
      → get_range_in_cidr cidr reserved n ≡ ok r
      → IsFree cidr reserved n r
  unfolding get_range_in_cidr
  get_range_in_cidr-IsFree flat ne e =
      elim (Result-cases (get_available_network_ip cidr reserved)) [
        | inr (x, bad) ↦ absurd (ground arith)
        | inl (out, good) ↦
            pick_range-All (λ g. All (λ s. Apart s g) reserved × IsInside cidr g)
              (IsFree cidr reserved n) n
              (λ g h fits. record {
                apart = Apart-prefix n g reserved fits h.0;
                inside = (omega arith, omega arith);
                length = refl;
              })
              out
              (All-and _ _ out
                (by_range reserved out (get_available_network_ip-Apart cidr reserved flat ne good))
                (get_available_network_ip-IsInside cidr reserved good))
              (ground arith)
      ]
