-- ===== src/Network.antt =====
-- models/network/network_models.py: address pools, reserved ranges, networks, routers and PDUs.
-- An IPv4 address is the number that `int(address)` gives. Of each model the fields that some
-- operation reads or writes are kept.
pub mod Reservations
pub mod RoundTrip
use mathlib.Core.Option
use e_pem.Prelude.{
  ℕ, zero, suc, String, Bool, Option, none, some, List, [], ◌∷◌, ◌++◌, ◌&&◌, ◌||◌, ◌==◌, leb,
  if◌then◌else◌,
}
use e_pem.Result.{Result, ok, err, value_error, assertion_error, ◌>>=◌, ◌>>◌}
use e_pem.PyList.{contains, find_index, find_first, get_at}

pub data NetworkTypeEnum : Type 0 where
  vlan vxlan gre flat : NetworkTypeEnum

pub record IPv4Pool : Type 0 where
  pub start : ℕ
  pub end : ℕ

pub record IPv4ReservedRange : Type 0 where
  pub pool : IPv4Pool
  pub open pool use *
  pub owner : String

-- __eq__ of a reserved range: `overlaps self other` is `self == other`
unfoldable pub overlaps : IPv4ReservedRange → IPv4ReservedRange → Bool
overlaps self other =
    (leb other.start self.start && leb self.start other.end)
    || (leb other.start self.end && leb self.end other.end)

pub record IPv4Network : Type 0 where
  pub network_address : ℕ
  pub prefixlen : ℕ

pub record NetworkModel : Type 0 where
  pub name : String
  pub external : Bool
  pub type : NetworkTypeEnum
  pub ids : List (List (String × String))
  pub cidr : IPv4Network
  pub allocation_pool : List IPv4Pool
  pub reserved_ranges : List IPv4ReservedRange

-- `in` compares each item, on the left, with the new range.
unfoldable pub add_reserved_range : IPv4ReservedRange → NetworkModel → Result NetworkModel
add_reserved_range reserved_range self =
    if contains (λ item. overlaps item reserved_range) self.reserved_ranges
    then err value_error
    else ok (record self { reserved_ranges = self.reserved_ranges ++ reserved_range ∷ [] })

-- `remove` stops at the first item that is the object or is `==` to it: at the object's own
-- position, or before it at an item that overlaps it.
unfoldable pub remove_object :
    ℕ → IPv4ReservedRange → List IPv4ReservedRange → List IPv4ReservedRange
remove_object i target [] = []
remove_object zero target (x ∷ xs) = xs
remove_object (suc i) target (x ∷ xs) =
    if overlaps x target then xs else x ∷ remove_object i target xs

-- the loop's test, past the assertion
unfoldable pub is_released : String → Option IPv4ReservedRange → IPv4ReservedRange → Bool
unfolding overlaps
is_released owner none reserved_range = reserved_range.owner == owner
is_released owner (some ip_range) reserved_range = overlaps reserved_range ip_range

-- `assert owner == ip_range.owner`, which the loop reaches if there is a range at all
unfoldable pub check_owner :
    String → Option IPv4ReservedRange → List IPv4ReservedRange → Result (Unit {0})
check_owner owner none ranges = ok tt
check_owner owner (some ip_range) [] = ok tt
check_owner owner (some ip_range) (r ∷ rs) =
    if owner == ip_range.owner then ok tt else err assertion_error

unfoldable pub release_at : NetworkModel → ℕ → Result (Option IPv4ReservedRange × NetworkModel)
unfolding remove_object
release_at self i = do
  reserved_range ← get_at self.reserved_ranges i
  ok (
    some reserved_range,
    record self { reserved_ranges = remove_object i reserved_range self.reserved_ranges },
  )

unfoldable pub release_range :
    String
    → Option IPv4ReservedRange
    → NetworkModel
    → Result (Option IPv4ReservedRange × NetworkModel)
unfolding release_at check_owner is_released
release_range owner ip_range self = do
  check_owner owner ip_range self.reserved_ranges
  elim (find_index (is_released owner ip_range) self.reserved_ranges) [
    | none ↦ ok (none, self)
    | some i ↦ release_at self i
  ]

pub record RouterPortModel : Type 0 where
  pub net : String
  pub ip_addr : ℕ

-- `external_gateway_info` is a dictionary or None; of its entries `enable_snat` is read.
pub record GatewayInfo : Type 0 where
  pub enable_snat : Option Bool

pub record RouterModel : Type 0 where
  pub name : String
  pub ports : List RouterPortModel
  pub external_gateway_info : Option GatewayInfo

pub data PduType : Type 0 where
  linux gnb lwgateway ru cudu core5g : PduType

pub record NetworkInterfaceModel : Type 0 where
  pub name : String
  pub mgmt : Bool
  pub ip : ℕ

pub record PduModel : Type 0 where
  pub name : String
  pub area : ℕ
  pub type : PduType
  pub instance_type : String
  pub network_interfaces : List NetworkInterfaceModel
  pub locked_by : Option String

-- None where no interface is the management one
unfoldable pub get_mgmt_ip : PduModel → Option ℕ
get_mgmt_ip self =
    Option.map (λ interface. interface.ip) (find_first (λ i. i.mgmt) self.network_interfaces)
