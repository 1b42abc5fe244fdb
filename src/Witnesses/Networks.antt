-- ===== src/Witnesses/Networks.antt =====
-- The theorems on address ranges at concrete inputs.
use e_pem.Prelude.{◌+◌, ◌<◌, ◌↔◌, ◌≡◌, refl, arith, List, [], ◌∷◌, ◌++◌, some}
use e_pem.Result.{ok}
use e_pem.PyList.{All, contains, remove_first, find_index, get_at, set_at}
use e_pem.Network.{IPv4Pool, overlaps, add_reserved_range, release_range}
use e_pem.Network.Reservations.{
  AreNested, IsClearOf, add_reserved_range_accepts, add_reserved_range-AreNested,
}
use e_pem.Network.RoundTrip.{release-add_reserved_range}
use e_pem.Ipam.{
  get_range_in_cidr, get_available_network_ip, nth_address, nth_last_address, broadcast_address,
  carve_all, carve, cut_at, check_reserved, check_range_in_cidr, in_network, address_plus,
  address_minus, pick_range, is_long_enough, pool_eq,
}
use e_pem.Ipam.Sorting.{sorted, insort}
use e_pem.Ipam.Safety.{HasNoNesting, StartsAtLast}
use e_pem.Ipam.Loop.{IsChecked}
use e_pem.Ipam.Completeness.{Spares, IsAmidst, get_range_in_cidr_finds}
use e_pem.Ipam.Choice.{IsFree, get_range_in_cidr-IsFree}
use e_pem.Witnesses.Data.{cidr, pool, held, held_pool, mgmt, new_pool, new_range}

abbrev pools : List IPv4Pool
pools = pool ∷ held_pool ∷ []

pub pools-HasNoNesting : HasNoNesting pools
pools-HasNoNesting = (
  (λ _. ground arith, (λ _. ground arith, tt)),
  ((λ x. ground arith, (λ _. ground arith, tt)), tt),
)

pub pools_end : All (λ s. ¬ StartsAtLast cidr s) pools
unfolding broadcast_address
pools_end = (λ h. ground arith, (λ h. ground arith, tt))

pub pool_chosen : get_range_in_cidr cidr pools 20 ≡ ok new_pool
unfolding get_range_in_cidr get_available_network_ip nth_address nth_last_address broadcast_address
    sorted insort carve_all carve cut_at check_reserved check_range_in_cidr in_network address_plus
    address_minus pick_range is_long_enough pool_eq find_index get_at set_at remove_first
pool_chosen = refl

get_range_in_cidr-IsFree_example : IsFree cidr pools 20 new_pool
get_range_in_cidr-IsFree_example =
    get_range_in_cidr-IsFree cidr pools 20 pools-HasNoNesting pools_end pool_chosen

pools-IsChecked : All (IsChecked cidr) pools
unfolding broadcast_address
pools-IsChecked = (
  record { ordered = ground arith; from = ground arith; to = ground arith },
  (record { ordered = ground arith; from = ground arith; to = ground arith }, tt),
)

pools_spared : All (Spares 2640 20) pools
pools_spared = ground arith

cidr-IsAmidst : IsAmidst cidr
unfolding broadcast_address
cidr-IsAmidst = ground arith

below_last : 2640 + 20 < broadcast_address cidr
unfolding broadcast_address
below_last = ground arith

get_range_in_cidr_finds_example :
    (r : IPv4Pool) × (get_range_in_cidr cidr pools 20 ≡ ok r) × (r.end ≡ r.start + 20)
get_range_in_cidr_finds_example =
    get_range_in_cidr_finds cidr 2640 20 (ground arith) cidr-IsAmidst pools pools-IsChecked
      pools_spared (ground arith) below_last

add_reserved_range_accepts_example :
    (add_reserved_range new_range mgmt
      ≡ ok (record mgmt { reserved_ranges = held ∷ new_range ∷ [] }))
    ↔ All (IsClearOf new_range) (held ∷ [])
add_reserved_range_accepts_example =
    add_reserved_range_accepts mgmt new_range (ground arith) (ground arith)

new_range_added :
    add_reserved_range new_range mgmt ≡ ok (record mgmt { reserved_ranges = held ∷ new_range ∷ [] })
unfolding add_reserved_range contains overlaps
new_range_added = refl

add_reserved_range-AreNested_example :
    ((held ∷ new_range ∷ []) ≡ held ∷ [] ++ new_range ∷ []) × AreNested (held ∷ new_range ∷ [])
add_reserved_range-AreNested_example =
    add_reserved_range-AreNested mgmt new_range (ground arith) (ground arith) (tt, tt)
      new_range_added

release-add_reserved_range_example :
    release_range "b2" (some new_range) (record mgmt { reserved_ranges = held ∷ new_range ∷ [] })
    ≡ ok (some new_range, mgmt)
release-add_reserved_range_example =
    release-add_reserved_range mgmt (record mgmt { reserved_ranges = held ∷ new_range ∷ [] })
      new_range (tt, tt) (ground arith) new_range_added
