-- ===== src/Core5g/Stars.antt =====
-- The areas of a new slice: the star for all of them.
use e_pem.Prelude.{◌≡◌, refl, ap, Bool, false, ◌&&◌, some, [], ◌∷◌, ◌++◌}
use e_pem.Result.{Error, Result, ok, err, raise_if, value_error}
use e_pem.Exec.{after, ◌>>=◌, lift, reads, modify, raise, try_except, or_handle, for_each}
use e_pem.Core5g.{SubSliceProfiles, SubSlices, Generic5gState}
use e_pem.Core5g.Day2.{
  Method, star, Core5gAddSliceModel, Generic5gBlueprint, on_config, on_slice_profiles, put_back,
  or_restore, has_slice, check_with, check_area, add_to_areas, day2_add_slice_generic,
  day2_add_slice,
}

-- `m` raises and changes nothing
abbrev FailsAt : Method → Generic5gState → Type 0
FailsAt m self = (e : Error) × (m self ≡ (err e, self))

after-fails :
    (r : Result (Unit {0})) (rest : Unit {0} → Method) (self : Generic5gState)
    → FailsAt (rest tt) self
    → (e : Error) × (after r rest self ≡ (err e, self))
after-fails (ok a) rest self h = h
after-fails (err e) rest self h = (e, refl)

check-FailsAt :
    (test : Generic5gState → Result (Unit {0})) (rest : Unit {0} → Method) (self : Generic5gState)
    → FailsAt (rest tt) self
    → FailsAt (reads test >>= rest) self
unfolding reads ◌>>=◌
check-FailsAt test rest self h = after-fails (test self) rest self h

first-FailsAt :
    (m : Method) (rest : Unit {0} → Method) (self : Generic5gState)
    → FailsAt m self
    → FailsAt (m >>= rest) self
unfolding ◌>>=◌
first-FailsAt m rest self (e, h) = (e, ap (λ r. after r.0 rest r.1) h)

star-FailsAt :
    (slice : SubSlices) (self : Generic5gState) → FailsAt (add_to_areas slice (star ∷ [])) self
unfolding add_to_areas check_area for_each lift ◌>>=◌
star-FailsAt slice self = (value_error, refl)

-- a request to add a slice to the area "*"
abbrev pub everywhere : SubSliceProfiles → Core5gAddSliceModel
everywhere slice = record { slice = slice; area_ids = some (star ∷ []) }

module _ (slice : SubSliceProfiles) (oss : Bool) (self : Generic5gState) where
  generic-FailsAt : FailsAt (day2_add_slice_generic (everywhere slice) oss) self
  unfolding day2_add_slice_generic
  generic-FailsAt =
      let placed : SubSlices = record {
        slice_type = slice.slice_type;
        slice_id = slice.slice_id;
      } in
      check-FailsAt (λ s. check_with slice s.current_config) _ self
        (check-FailsAt (λ s. raise_if (has_slice slice.slice_id s.current_config) _) _ self
          (check-FailsAt (λ s. raise_if (oss && false) _) _ self
            (first-FailsAt (add_to_areas placed (star ∷ []))
              (λ _. modify (on_config (on_slice_profiles (λ l. l ++ slice ∷ [])))) self
              (star-FailsAt placed self))))

  -- A request to add a slice to the area "*" always raises, whatever the blueprint, the slice and the mode
  -- are, and changes nothing.
  pub add_slice-FailsAt :
      (blueprint : Generic5gBlueprint)
      → (e : Error) × (day2_add_slice blueprint (everywhere slice) oss self ≡ (err e, self))
  unfolding day2_add_slice or_restore try_except modify raise ◌>>=◌
  add_slice-FailsAt blueprint =
      let failed =
        first-FailsAt (day2_add_slice_generic (everywhere slice) oss)
          (λ _. blueprint.add_slice (everywhere slice) oss) self generic-FailsAt in
      (failed.0, ap (or_handle (put_back self.current_config)) failed.1)
