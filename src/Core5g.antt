-- ===== src/Core5g.antt =====
-- models/blueprint_ng/core5g/common.py and the state in blueprints_ng/modules/generic_5g/generic_5g.py:
-- the configuration of a 5G core, with its searches.
pub mod Day2
pub mod Lists
pub mod Restoring
pub mod Validity
pub mod SliceValidity
pub mod Undoing
pub mod Stars
use e_pem.Prelude.{
  ℕ, String, Bool, Option, none, some, List, [], ◌∷◌, ◌++◌, ◌==◌, nat_eq, if◌then◌else◌,
}
use e_pem.Result.{Result, ok, err, type_error, ◌>>=◌}
use e_pem.PyList.{find_first}

pub data SliceType : Type 0 where
  embb urllc mmtc : SliceType

pub record SubDataNets : Type 0 where
  pub net_name : String
  pub dnn : String
  pub dns : String
  pub pools : List String

pub record NetworkEndPoints : Type 0 where
  pub mgt : Option String
  pub wan : Option String
  pub data_nets : List SubDataNets

pub record SubSliceProfiles : Type 0 where
  pub slice_id : String
  pub slice_type : SliceType
  pub dnn_list : List String

pub record SubSnssai : Type 0 where
  pub slice_id : String
  pub slice_type : SliceType
  pub pdu_session_ids : List String

pub record SubSubscribers : Type 0 where
  pub imsi : String
  pub k : String
  pub opc : String
  pub snssai : List SubSnssai

pub record SubConfig : Type 0 where
  pub network_endpoints : NetworkEndPoints
  pub plmn : String
  pub slice_profiles : Option (List SubSliceProfiles)
  pub subscribers : List SubSubscribers

pub record SubSlices : Type 0 where
  pub slice_type : SliceType
  pub slice_id : String

pub record SubArea : Type 0 where
  pub id : ℕ
  pub nci : String
  pub core : Bool
  pub slices : Option (List SubSlices)

pub record Create5gModel : Type 0 where
  pub config : SubConfig
  pub areas : List SubArea

-- an optional list where it is read as a list
abbrev pub listed : {A : Type 0} → Option (List A) → List A
listed none = []
listed (some l) = l

-- a change inside an optional list, which needs one to be there
abbrev pub map_given : {A : Type 0} → (List A → List A) → Option (List A) → Option (List A)
map_given f none = none
map_given f (some l) = some (f l)

unfoldable pub get_area : ℕ → Create5gModel → Option SubArea
get_area area_id self = find_first (λ area. nat_eq area.id area_id) self.areas

-- Without profiles the loop raises TypeError.
unfoldable pub get_slice_profile : String → Create5gModel → Result (Option SubSliceProfiles)
get_slice_profile slice_id self = elim self.config.slice_profiles [
  | none ↦ err type_error
  | some profiles ↦ ok (find_first (λ slice. slice.slice_id == slice_id) profiles)
]

-- the inner loop of get_slices_profiles_for_area
unfoldable pub profiles_of :
    Create5gModel → List SubSlices → Result (List (Option SubSliceProfiles))
unfolding get_slice_profile
profiles_of self [] = ok []
profiles_of self (slice ∷ slices) = do
  profile ← get_slice_profile slice.slice_id self
  others ← profiles_of self slices
  ok (profile ∷ others)

-- The profile of a slice that has none is None, and is in the list too.
unfoldable pub profiles_in :
    ℕ → Create5gModel → List SubArea → Result (List (Option SubSliceProfiles))
unfolding profiles_of
profiles_in area_id self [] = ok []
profiles_in area_id self (area ∷ areas) =
    let rest = profiles_in area_id self areas in
    if nat_eq area.id area_id
    then (elim area.slices [
      | none ↦ err type_error
      | some slices ↦ (do mine ← profiles_of self slices; others ← rest; ok (mine ++ others))
    ])
    else rest

unfoldable pub get_slices_profiles_for_area :
    ℕ → Create5gModel → Result (List (Option SubSliceProfiles))
unfolding profiles_in
get_slices_profiles_for_area area_id self = profiles_in area_id self self.areas

-- the areas that are deployed; a child goes by its identifier, and an external router is none
pub record EdgeAreaInfo : Type 0 where
  pub area : ℕ
  pub upf : Option String
  pub router : Option String

pub record RanAreaInfo : Type 0 where
  pub area : ℕ
  pub pdu_name : String

-- the state of a blueprint that was created
pub record Generic5gState : Type 0 where
  pub current_config : Create5gModel
  pub edge_areas : List (String × EdgeAreaInfo)
  pub ran_areas : List (String × RanAreaInfo)
  pub core_deployed : Bool
