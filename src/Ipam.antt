-- ===== src/Ipam.antt =====
-- utils/ipam.py: the free ranges of a network, and the choice of one. The branches that convert
-- text to addresses are left out: every caller passes addresses. Arithmetic on addresses and the
-- items of a network follow the standard library's `ipaddress`, with the exceptions it raises.
pub mod Sorting
pub mod Carving
pub mod Loop
pub mod Safety
pub mod Choice
pub mod Completeness
use e_pem.Prelude.{
  ℕ, ◌+◌, ◌-◌, ◌^◌, Bool, none, some, List, [], ◌∷◌, ◌++◌, ◌&&◌, leb, ltb, nat_eq, not,
  if◌then◌else◌,
}
use e_pem.Result.{
  Result, ok, err, raise_if, value_error, index_error, address_value_error, ◌>>=◌, ◌>>◌,
}
use e_pem.Network.{IPv4Pool, IPv4Network}
use e_pem.PyList.{find_index, get_at, set_at, remove_first}
use Sorting.{sorted}

abbrev pub address_limit : ℕ
address_limit = 2 ^ 32

-- address + n
unfoldable pub address_plus : ℕ → ℕ → Result ℕ
address_plus a n = if ltb (a + n) address_limit then ok (a + n) else err address_value_error

-- address - n
unfoldable pub address_minus : ℕ → ℕ → Result ℕ
address_minus a n = if ltb a n then err address_value_error else ok (a - n)

unfoldable pub broadcast_address : IPv4Network → ℕ
broadcast_address cidr = cidr.network_address + (2 ^ (32 - cidr.prefixlen) - 1)

-- cidr[n]
unfoldable pub nth_address : IPv4Network → ℕ → Result ℕ
nth_address cidr n =
    if ltb (broadcast_address cidr) (cidr.network_address + n)
    then err index_error
    else ok (cidr.network_address + n)

-- cidr[-(n + 1)]
unfoldable pub nth_last_address : IPv4Network → ℕ → Result ℕ
nth_last_address cidr n =
    if ltb (broadcast_address cidr) (cidr.network_address + n)
    then err index_error
    else ok (broadcast_address cidr - n)

-- ip in cidr
unfoldable pub in_network : IPv4Network → ℕ → Bool
in_network cidr ip = leb cidr.network_address ip && leb ip (broadcast_address cidr)

unfoldable pub is_ip_in_range : (ip ip_min ip_max : ℕ) → Bool
is_ip_in_range ip ip_min ip_max = leb ip_min ip && leb ip ip_max

unfoldable pub check_range_in_cidr : (ip_min ip_max : ℕ) → IPv4Network → Bool
unfolding in_network
check_range_in_cidr ip_min ip_max cidr = in_network cidr ip_min && in_network cidr ip_max

-- `==` of two pools
unfoldable pub pool_eq : IPv4Pool → IPv4Pool → Bool
pool_eq a b = nat_eq a.start b.start && nat_eq a.end b.end

-- the two checks at the head of the outer loop
unfoldable pub check_reserved : IPv4Network → IPv4Pool → Result (Unit {0})
unfolding check_range_in_cidr
check_reserved cidr reserved = do
  raise_if (ltb reserved.end reserved.start) value_error
  raise_if (not (check_range_in_cidr reserved.start reserved.end cidr)) value_error

abbrev pub reaches_past : ℕ → IPv4Pool → Bool
reaches_past start range = ltb start range.end

-- the body of the `if`, at the range that the inner loop stops at
unfoldable pub cut_at : IPv4Pool → List IPv4Pool → ℕ → Result (List IPv4Pool)
unfolding address_plus address_minus pool_eq
cut_at reserved available i = do
  ava_range ← get_at available i
  new_end ← address_minus reserved.start 1
  let shortened : IPv4Pool = record { start = ava_range.start; end = new_end }
  ranges ← set_at available i shortened
  next_start ← address_plus reserved.end 1
  let kept =
      if leb new_end ava_range.start then remove_first (λ r. pool_eq r shortened) ranges else ranges
  ok (kept ++ (record { start = next_start; end = ava_range.end }) ∷ [])

-- the inner loop, which stops at the first range that ends after the reservation starts
unfoldable pub carve : IPv4Pool → List IPv4Pool → Result (List IPv4Pool)
unfolding cut_at
carve reserved available = elim (find_index (reaches_past reserved.start) available) [
  | none ↦ ok available
  | some i ↦ cut_at reserved available i
]

-- the outer loop
unfoldable pub carve_all : IPv4Network → List IPv4Pool → List IPv4Pool → Result (List IPv4Pool)
carve_all cidr [] available = ok available
carve_all cidr (r ∷ rs) available = do
  check_reserved cidr r
  remaining ← carve r available
  carve_all cidr rs remaining

unfoldable pub get_available_network_ip : IPv4Network → List IPv4Pool → Result (List IPv4Pool)
get_available_network_ip cidr reserved_ranges = do
  first ← nth_address cidr 4
  last ← nth_last_address cidr 1
  carve_all cidr (sorted reserved_ranges) ((record { start = first; end = last }) ∷ [])

-- int(ip_max) - int(ip_min) >= range_length, over the integers
unfoldable pub is_long_enough : ℕ → IPv4Pool → Bool
is_long_enough range_length range = leb (range.start + range_length) range.end

-- the final loop
unfoldable pub pick_range : ℕ → List IPv4Pool → Result IPv4Pool
unfolding is_long_enough address_plus
pick_range range_length [] = err value_error
pick_range range_length (ava_range ∷ rest) =
    if is_long_enough range_length ava_range
    then (do
      end ← address_plus ava_range.start range_length
      ok (record { start = ava_range.start; end = end }))
    else pick_range range_length rest

unfoldable pub get_range_in_cidr : IPv4Network → List IPv4Pool → ℕ → Result IPv4Pool
get_range_in_cidr cidr reserved_ranges range_length = do
  available_ranges ← get_available_network_ip cidr reserved_ranges
  pick_range range_length available_ranges
