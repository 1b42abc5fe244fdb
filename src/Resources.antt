-- ===== src/Resources.antt =====
-- blueprints_ng/resources.py: what a blueprint deploys and configures.
use e_pem.Prelude.{
  ℕ, String, Bool, true, false, Option, none, some, List, [], ◌∷◌, ◌++◌, ◌==◌, if◌then◌else◌,
}
use e_pem.Text.{last_part}
use e_pem.Result.{Result, ok, err, index_error, key_error, ◌>>=◌}
use e_pem.PyList.{contains, find_first, remove_first}
use e_pem.PyDict.{lookup, has}

pub record VmResourceImage : Type 0 where
  pub name : String
  pub url : Option String
  pub check_sha512sum : Bool

pub record VmResourceFlavor : Type 0 where
  pub name : Option String
  pub vcpu_count : String
  pub memory_mb : String
  pub storage_gb : String

pub record VmResourceNetworkInterfaceAddress : Type 0 where
  pub interface_name : String
  pub mac : String
  pub ip : String
  pub cidr : String

pub record VmResourceNetworkInterface : Type 0 where
  pub fixed : VmResourceNetworkInterfaceAddress
  pub floating : Option VmResourceNetworkInterfaceAddress

pub record VmResource : Type 0 where
  pub area : ℕ
  pub name : String
  pub image : VmResourceImage
  pub flavor : VmResourceFlavor
  pub username : String
  pub password : String
  pub become_password : Option String
  pub management_network : String
  pub additional_networks : List String
  pub require_floating_ip : Bool
  pub created : Bool
  pub access_ip : Option String
  pub network_interfaces : List (String × List VmResourceNetworkInterface)
  pub state : Option String

pub record HelmChartResource : Type 0 where
  pub area : ℕ
  pub name : String
  pub chart : String
  pub chart_as_path : Bool
  pub repo : Option String
  pub version : Option String
  pub namespace : String
  pub created : Bool

pub record NetResource : Type 0 where
  pub area : ℕ
  pub name : String
  pub cidr : String

-- The classes below Resource. A configuration refers to the machine that it configures by that one's
-- identifier, since Python shares the object.
pub data ResourceValue : Type 0 where
  vm : VmResource → ResourceValue
  helm_chart : HelmChartResource → ResourceValue
  net : NetResource → ResourceValue
  vm_configuration : Option String → ResourceValue
  other_configuration : ResourceValue

pub record Resource : Type 0 where
  pub id : Option String
  pub value : ResourceValue

-- the area of a ResourceDeployable
unfoldable pub deployed_in : ResourceValue → Option ℕ
deployed_in (vm r) = some r.area
deployed_in (helm_chart r) = some r.area
deployed_in (net r) = some r.area
deployed_in (vm_configuration r) = none
deployed_in other_configuration = none

unfoldable pub get_prefix : VmResourceNetworkInterfaceAddress → String
get_prefix self = last_part b'/' self.cidr

-- model_post_init; `unique` is what list(set(…)) makes of a list.
unfoldable pub model_post_init : (unique : List String → List String) → VmResource → VmResource
model_post_init unique self =
    let networks = unique self.additional_networks in
    record self {
      additional_networks =
          if contains (λ n. n == self.management_network) networks
          then remove_first (λ n. n == self.management_network) networks
          else networks;
    }

unfoldable pub get_all_connected_network_names : VmResource → List String
get_all_connected_network_names self = self.management_network ∷ self.additional_networks

-- network_interfaces[network]
unfoldable pub interfaces_of : String → VmResource → Result (List VmResourceNetworkInterface)
interfaces_of network self = elim (lookup network self.network_interfaces) [
  | none ↦ err key_error
  | some interfaces ↦ ok interfaces
]

abbrev first_of : List VmResourceNetworkInterface → Result VmResourceNetworkInterface
first_of [] = err index_error
first_of (interface ∷ rest) = ok interface

unfoldable pub get_management_interface : VmResource → Result VmResourceNetworkInterface
unfolding interfaces_of
get_management_interface self = interfaces_of self.management_network self >>= first_of

-- the loop of get_additional_interfaces
unfoldable pub interfaces_of_all :
    List String → VmResource → Result (List VmResourceNetworkInterface)
unfolding interfaces_of
interfaces_of_all [] self = ok []
interfaces_of_all (key ∷ keys) self = do
  interfaces ← interfaces_of key self
  rest ← interfaces_of_all keys self
  ok (interfaces ++ rest)

unfoldable pub get_additional_interfaces : VmResource → Result (List VmResourceNetworkInterface)
unfolding interfaces_of_all
get_additional_interfaces self = interfaces_of_all self.additional_networks self

-- the two nested loops over the interfaces
unfoldable pub search_interfaces :
    (VmResourceNetworkInterface → Bool)
    → List (String × List VmResourceNetworkInterface)
    → Option VmResourceNetworkInterface
search_interfaces test [] = none
search_interfaces test ((network, net_interface_list) ∷ rest) =
    let later = search_interfaces test rest in
    elim (find_first test net_interface_list) [ some found ↦ some found | none ↦ later ]

unfoldable pub get_network_interface_by_name :
    String → VmResource → Option VmResourceNetworkInterface
unfolding search_interfaces
get_network_interface_by_name name self =
    search_interfaces (λ i. i.fixed.interface_name == name) self.network_interfaces

unfoldable pub get_network_interface_by_fixed_mac :
    String → VmResource → Option VmResourceNetworkInterface
unfolding search_interfaces
get_network_interface_by_fixed_mac mac self =
    search_interfaces (λ i. i.fixed.mac == mac) self.network_interfaces

-- True or None: the function has no other return.
unfoldable pub check_if_network_connected_by_name : String → VmResource → Option Bool
check_if_network_connected_by_name network_name self =
    if has network_name self.network_interfaces then some true else none

unfoldable pub check_if_network_connected_by_cidr : String → VmResource → Bool
unfolding search_interfaces
check_if_network_connected_by_cidr cidr self =
    elim (search_interfaces (λ i. i.fixed.cidr == cidr) self.network_interfaces) [
      | some found ↦ true
      | none ↦ false
    ]
