-- ===== src/Core5g/Lists.antt =====
-- Lists of slices, DNNs and areas: what the changes of the configuration leave in them.
use mathlib.Core.List.{append_assoc}
use e_pem.Prelude.{
  ℕ, String, ◌≡◌, sym, subst, Bool, false, none, List, [], ◌∷◌, ◌++◌, ◌==◌, arith, nat_eq,
  Bool-cases, inl, inr, Option-cases,
}
use e_pem.PyList.{All, select, find_first}
use e_pem.PyList.Everywhere.{All-append, All-select, contains-append}
use e_pem.Core5g.{SubSliceProfiles, SubSlices, SubArea, Create5gModel, get_area}
use e_pem.Core5g.Day2.{all_dnns, has_duplicate, has_area, append_slice, filter_areas}

has_duplicate-back :
    (xs ys : List String) → has_duplicate (xs ++ ys) ≡ false → has_duplicate ys ≡ false
unfolding has_duplicate
has_duplicate-back [] ys h = h
has_duplicate-back (x ∷ xs) ys h = has_duplicate-back xs ys (ground arith)

-- A part in the middle that is left out brings no duplicate in.
has_duplicate-middle :
    (xs ys zs : List String)
    → has_duplicate (xs ++ (ys ++ zs)) ≡ false
    → has_duplicate (xs ++ zs) ≡ false
unfolding has_duplicate
has_duplicate-middle [] ys zs h = has_duplicate-back ys zs h
has_duplicate-middle (x ∷ xs) ys zs h =
    let p : String → Bool = λ other. other == x in
    let all = contains-append p xs (ys ++ zs) in
    let behind = contains-append p ys zs in
    let kept = contains-append p xs zs in
    let rest = has_duplicate-middle xs ys zs in ground (arith, h, all, behind, kept, rest)

has_duplicate-chosen :
    (p : SubSliceProfiles → Bool) (before : List String) (l : List SubSliceProfiles)
    → has_duplicate (before ++ all_dnns l) ≡ false
    → has_duplicate (before ++ all_dnns (select p l)) ≡ false
unfolding all_dnns select
has_duplicate-chosen p before [] h = h
has_duplicate-chosen p before (slice ∷ l) h = elim (Bool-cases (p slice)) [
  | inl e ↦ rw e (
      subst (λ x. has_duplicate x ≡ false)
        (append_assoc before slice.dnn_list (all_dnns (select p l)))
        (has_duplicate-chosen p (before ++ slice.dnn_list) l (
          subst (λ x. has_duplicate x ≡ false)
            (sym (append_assoc before slice.dnn_list (all_dnns l))) h)))
  | inr e ↦
      rw e (
        has_duplicate-chosen p before l (has_duplicate-middle before slice.dnn_list (all_dnns l) h))
]

-- Without some of its slices, a configuration has no more DNNs in two of them.
pub has_duplicate-select :
    (p : SubSliceProfiles → Bool) (l : List SubSliceProfiles)
    → has_duplicate (all_dnns l) ≡ false
    → has_duplicate (all_dnns (select p l)) ≡ false
has_duplicate-select p l h = has_duplicate-chosen p [] l h

abbrev pub LacksArea : ℕ → List SubArea → Type 0
LacksArea area_id = All (λ area. nat_eq area.id area_id ≡ false)

abbrev pub HasAreasOnce : List SubArea → Type 0
HasAreasOnce [] = Unit
HasAreasOnce (area ∷ areas) = LacksArea area.id areas × HasAreasOnce areas

LacksArea-get_area :
    (area_id : ℕ) (areas : List SubArea)
    → find_first (λ area. nat_eq area.id area_id) areas ≡ none
    → LacksArea area_id areas
unfolding find_first
LacksArea-get_area area_id [] h = tt
LacksArea-get_area area_id (area ∷ areas) h = ground (arith, LacksArea-get_area area_id areas)

pub LacksArea-has_area :
    (area_id : ℕ) (c : Create5gModel) → has_area area_id c ≡ false → LacksArea area_id c.areas
unfolding get_area
LacksArea-has_area area_id c h = LacksArea-get_area area_id c.areas (ground (arith, h))

pub HasAreasOnce-append :
    (areas : List SubArea) (area : SubArea)
    → LacksArea area.id areas
    → HasAreasOnce areas
    → HasAreasOnce (areas ++ area ∷ [])
HasAreasOnce-append [] area h u = (tt, tt)
HasAreasOnce-append (other ∷ areas) area h u = (
  All-append _ areas (area ∷ []) u.0 (ground (arith, h.0), tt),
  HasAreasOnce-append areas area h.1 u.1,
)

pub HasAreasOnce-select :
    (p : SubArea → Bool) (areas : List SubArea) → HasAreasOnce areas → HasAreasOnce (select p areas)
unfolding select
HasAreasOnce-select p [] u = tt
HasAreasOnce-select p (area ∷ areas) u = ground (
  arith,
  HasAreasOnce-select p areas u.1,
  All-select (λ other. nat_eq other.id area.id ≡ false) p areas u.0,
)

LacksArea-filter_areas :
    (slice_id : String) (area_id : ℕ) (areas : List SubArea)
    → LacksArea area_id areas
    → LacksArea area_id (filter_areas slice_id areas).1
unfolding filter_areas
LacksArea-filter_areas slice_id area_id [] h = tt
LacksArea-filter_areas slice_id area_id (area ∷ areas) h = elim (Option-cases area.slices) [
  | inl e ↦ rw e h
  | inr (l, e) ↦ rw e (h.0, LacksArea-filter_areas slice_id area_id areas h.1)
]

pub HasAreasOnce-filter_areas :
    (slice_id : String) (areas : List SubArea)
    → HasAreasOnce areas
    → HasAreasOnce (filter_areas slice_id areas).1
unfolding filter_areas
HasAreasOnce-filter_areas slice_id [] u = tt
HasAreasOnce-filter_areas slice_id (area ∷ areas) u = elim (Option-cases area.slices) [
  | inl e ↦ rw e u
  | inr (l, e) ↦ rw e (
    LacksArea-filter_areas slice_id area.id areas u.0,
    HasAreasOnce-filter_areas slice_id areas u.1,
  )
]

LacksArea-append_slice :
    (slice : SubSlices) (at area_id : ℕ) (areas : List SubArea)
    → LacksArea area_id areas
    → LacksArea area_id (append_slice slice at areas)
unfolding append_slice
LacksArea-append_slice slice at area_id [] h = tt
LacksArea-append_slice slice at area_id (area ∷ areas) h = elim (Bool-cases (nat_eq area.id at)) [
  | inl e ↦ rw e h
  | inr e ↦ rw e (h.0, LacksArea-append_slice slice at area_id areas h.1)
]

pub HasAreasOnce-append_slice :
    (slice : SubSlices) (at : ℕ) (areas : List SubArea)
    → HasAreasOnce areas
    → HasAreasOnce (append_slice slice at areas)
unfolding append_slice
HasAreasOnce-append_slice slice at [] u = tt
HasAreasOnce-append_slice slice at (area ∷ areas) u = elim (Bool-cases (nat_eq area.id at)) [
  | inl e ↦ rw e u
  | inr e ↦ rw e (
    LacksArea-append_slice slice at area.id areas u.0,
    HasAreasOnce-append_slice slice at areas u.1,
  )
]
