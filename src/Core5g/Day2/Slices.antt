-- ===== src/Core5g/Day2/Slices.antt =====
-- blueprints_ng/modules/generic_5g/generic_5g.py: the slices of a configuration, how one is added to areas
-- and to the configuration, and taken out.
use e_pem.Prelude.{
  ℕ, String, Bool, true, false, not, ◌&&◌, Option, none, some, List, [], ◌∷◌, ◌++◌, ◌==◌, nat_eq,
  if◌then◌else◌,
}
use e_pem.Result.{
  Result, ok, err, raise_if, value_error, type_error, attribute_error, blueprint_exception,
}
use e_pem.Exec.{◌>>=◌, ◌>>◌, pure, lift, reads, modify, for_each}
use e_pem.PyList.{select, contains}
use e_pem.Core5g.{listed, map_given, get_area, SubSliceProfiles, SubSlices, SubArea, Create5gModel}
use e_pem.Core5g.Day2.Changes.{
  Method, on_config, on_slice_profiles, on_areas, refuse_if, has_slice, has_area,
}

-- an item of `area_ids`, as `int` reads it: the text of a number, or another one, such as "*"
pub data AreaId : Type 0 where
  number : ℕ → AreaId
  star : AreaId
  word : String → AreaId

pub record Core5gAddSliceModel : Type 0 where
  pub slice : SubSliceProfiles
  pub area_ids : Option (List AreaId)

unfoldable pub all_dnns : List SubSliceProfiles → List String
all_dnns [] = []
all_dnns (slice ∷ slices) = slice.dnn_list ++ all_dnns slices

-- len(list(set(l))) < len(l)
unfoldable pub has_duplicate : List String → Bool
unfolding contains
has_duplicate [] = false
has_duplicate (name ∷ names) =
    if contains (λ other. other == name) names then true else has_duplicate names

unfoldable pub configuration_feasibility_check : Create5gModel → Result (Unit {0})
unfolding all_dnns has_duplicate
configuration_feasibility_check c = elim c.config.slice_profiles [
  | none ↦ err type_error
  | some profiles ↦ raise_if (has_duplicate (all_dnns profiles)) blueprint_exception
]

-- the check of a copy to which the slice is appended
unfoldable pub check_with : SubSliceProfiles → Create5gModel → Result (Unit {0})
unfolding configuration_feasibility_check
check_with slice c = elim c.config.slice_profiles [
  | none ↦ err attribute_error
  | some profiles ↦ configuration_feasibility_check (on_slice_profiles (λ l. l ++ slice ∷ []) c)
]

-- int(id)
abbrev pub int : AreaId → Result ℕ
int (number n) = ok n
int star = err value_error
int (word text) = err value_error

-- area.slices.append(slice), where the area has slices
abbrev pub with_slice : SubSlices → SubArea → SubArea
with_slice slice area = record area { slices = map_given (λ l. l ++ slice ∷ []) area.slices }

-- `area.slices.append(slice)` for the area that `get_area` finds
unfoldable pub append_slice : SubSlices → ℕ → List SubArea → List SubArea
append_slice slice area_id [] = []
append_slice slice area_id (area ∷ areas) =
    if nat_eq area.id area_id
    then with_slice slice area ∷ areas
    else area ∷ append_slice slice area_id areas

-- There is an area, and its slices are no None.
unfoldable pub may_append : ℕ → Create5gModel → Result (Unit {0})
unfolding get_area
may_append area_id c = elim (get_area area_id c) [
  | none ↦ err attribute_error
  | some area ↦ (elim area.slices [ none ↦ err attribute_error | some l ↦ ok tt ])
]

unfoldable pub check_area : AreaId → Method
unfolding reads lift ◌>>=◌
check_area id = do area_id ← lift (int id); refuse_if (λ c. not (has_area area_id c))

unfoldable pub add_to_area : SubSlices → AreaId → Method
unfolding append_slice may_append modify lift reads ◌>>=◌
add_to_area slice id = do
  area_id ← lift (int id)
  reads (λ self. may_append area_id self.current_config)
  modify (on_config (on_areas (append_slice slice area_id)))

-- `area_ids == "*"`: a list is not a text.
abbrev pub is_star : List AreaId → Bool
is_star area_ids = false

-- the loop over all areas
unfoldable pub append_all : SubSlices → List SubArea → Result (Unit {0}) × List SubArea
append_all slice [] = (ok tt, [])
append_all slice (area ∷ areas) =
    let (r, rest) = append_all slice areas in
    elim area.slices [
      | none ↦ (err attribute_error, area ∷ areas)
      | some l ↦ (r, record area { slices = some (l ++ slice ∷ []) } ∷ rest)
    ]

unfoldable pub add_to_every_area : SubSlices → Method
unfolding append_all
add_to_every_area slice self =
    let (r, areas) = append_all slice self.current_config.areas in
    (r, on_config (on_areas (λ old. areas)) self)

unfoldable pub add_to_areas : SubSlices → List AreaId → Method
unfolding check_area add_to_area for_each add_to_every_area ◌>>=◌
add_to_areas slice area_ids =
    if is_star area_ids
    then add_to_every_area slice
    else for_each area_ids check_area >> for_each area_ids (add_to_area slice)

abbrev pub is_empty : List AreaId → Bool
is_empty [] = true
is_empty (id ∷ ids) = false

unfoldable pub day2_add_slice_generic : Core5gAddSliceModel → (oss : Bool) → Method
unfolding check_with add_to_areas reads modify pure ◌>>=◌
day2_add_slice_generic model oss = do
  reads (λ self. check_with model.slice self.current_config)
  refuse_if (has_slice model.slice.slice_id)
  refuse_if (λ c. oss && is_empty (listed model.area_ids))
  if is_empty (listed model.area_ids)
      then pure tt
      else add_to_areas
          (record { slice_type = model.slice.slice_type; slice_id = model.slice.slice_id })
          (listed model.area_ids)
  modify (on_config (on_slice_profiles (λ l. l ++ model.slice ∷ [])))

abbrev pub slices_without : String → List SubSlices → List SubSlices
slices_without slice_id = select (λ slice. not (slice.slice_id == slice_id))

-- The loop of day2_del_slice over the areas: those before the first without slices stay changed.
unfoldable pub filter_areas : String → List SubArea → Result (Unit {0}) × List SubArea
filter_areas slice_id [] = (ok tt, [])
filter_areas slice_id (area ∷ areas) =
    let (r, rest) = filter_areas slice_id areas in
    elim area.slices [
      | none ↦ (err type_error, area ∷ areas)
      | some l ↦ (r, record area { slices = some (slices_without slice_id l) } ∷ rest)
    ]

unfoldable pub delete_from_areas : String → Method
unfolding filter_areas
delete_from_areas slice_id self =
    let (r, areas) = filter_areas slice_id self.current_config.areas in
    (r, on_config (on_areas (λ old. areas)) self)

unfoldable pub delete_from_profiles : String → Method
delete_from_profiles slice_id self = elim self.current_config.config.slice_profiles [
  | none ↦ (err type_error, self)
  | some l ↦ (
    ok tt,
    on_config (on_slice_profiles (select (λ slice. not (slice.slice_id == slice_id)))) self,
  )
]
