-- ===== src/Core5g/Day2.antt =====
-- The day-2 functions of blueprints_ng/modules/generic_5g/generic_5g.py: each changes the
-- configuration, lets the blueprint follow, and puts a copy back where that raises.
pub mod Changes
pub mod Slices
use e_pem.Prelude.{ℕ, String, Bool, true, false, not, [], ◌∷◌, ◌++◌, ◌==◌, nat_eq}
use e_pem.Result.{ok}
use e_pem.Exec.{◌>>=◌, ◌>>◌}
use e_pem.PyList.{select}
use e_pem.Core5g.{SubDataNets, SubSubscribers, SubArea}
unfoldable pub use e_pem.Core5g.Day2.Changes.{
  Method, on_config, on_subscribers, on_slice_profiles, on_data_nets, on_areas, refuse_if, refusal,
  unless, put_back, or_restore, change, has_subscriber, has_dnn, has_slice, has_area,
  knows_no_slice_of, uses_dnn,
}
pub use e_pem.Core5g.Day2.Slices.{AreaId, number, star, word, Core5gAddSliceModel}
unfoldable pub use e_pem.Core5g.Day2.Slices.{
  all_dnns, has_duplicate, configuration_feasibility_check, int, with_slice, append_slice,
  check_area, add_to_area, is_star, append_all, add_to_every_area, add_to_areas, is_empty,
  day2_add_slice_generic, slices_without, filter_areas, delete_from_areas, delete_from_profiles,
  check_with, may_append,
}

-- The methods that the blueprint of a core overrides.
pub record Generic5gBlueprint : Type 0 where
  pub add_ues : SubSubscribers → Method
  pub del_ues : (imsi : String) → Method
  pub add_dnn : SubDataNets → Method
  pub del_dnn : (dnn : String) → Method
  pub add_slice : Core5gAddSliceModel → (oss : Bool) → Method
  pub del_slice : (slice_id : String) → Method
  pub add_tac : SubArea → Method
  pub del_tac : (area_id : ℕ) → Method

module _ (blueprint : Generic5gBlueprint) where
  unfoldable pub day2_add_ues : SubSubscribers → Method
  unfolding unless change
  day2_add_ues model =
      unless (λ c. ok (has_subscriber model.imsi c))
        (unless (knows_no_slice_of model)
          (change (on_subscribers (λ l. l ++ model ∷ [])) (blueprint.add_ues model)))

  unfoldable pub day2_del_ues : String → Method
  unfolding unless change
  day2_del_ues imsi =
      unless (λ c. ok (not (has_subscriber imsi c)))
        (change (on_subscribers (select (λ x. not (x.imsi == imsi)))) (blueprint.del_ues imsi))

  unfoldable pub day2_add_dnn : SubDataNets → Method
  unfolding unless change
  day2_add_dnn model =
      unless (λ c. ok (has_dnn model.dnn c))
        (change (on_data_nets (λ l. l ++ model ∷ [])) (blueprint.add_dnn model))

  unfoldable pub day2_del_dnn : String → Method
  unfolding unless change
  day2_del_dnn dnn =
      unless (λ c. ok (not (has_dnn dnn c)))
        (unless (uses_dnn dnn)
          (change (on_data_nets (select (λ x. not (x.dnn == dnn)))) (blueprint.del_dnn dnn)))

  -- day2_add_slice_oss and day2_add_slice_operator
  unfoldable pub day2_add_slice : Core5gAddSliceModel → (oss : Bool) → Method
  unfolding day2_add_slice_generic or_restore ◌>>=◌
  day2_add_slice model oss self =
      or_restore self.current_config
        (day2_add_slice_generic model oss >> blueprint.add_slice model oss) self

  -- The slices are taken out before the `try`.
  unfoldable pub day2_del_slice : String → Method
  unfolding delete_from_areas delete_from_profiles or_restore ◌>>=◌
  day2_del_slice slice_id self =
      (delete_from_areas slice_id
          >> (delete_from_profiles slice_id
              >> or_restore self.current_config (blueprint.del_slice slice_id)))
        self

  unfoldable pub day2_add_tac : SubArea → Method
  unfolding unless change
  day2_add_tac model =
      unless (λ c. ok (has_area model.id c))
        (change (on_areas (λ l. l ++ model ∷ [])) (blueprint.add_tac model))

  unfoldable pub day2_del_tac : ℕ → Method
  unfolding unless change
  day2_del_tac area_id =
      unless (λ c. ok (not (has_area area_id c)))
        (change (on_areas (select (λ x. not (nat_eq x.id area_id)))) (blueprint.del_tac area_id))

-- a request for one of these functions
pub data Day2Request : Type 0 where
  add_ues : SubSubscribers → Day2Request
  del_ues : String → Day2Request
  add_dnn : SubDataNets → Day2Request
  del_dnn : String → Day2Request
  add_slice_oss add_slice_operator : Core5gAddSliceModel → Day2Request
  del_slice : String → Day2Request
  add_tac : SubArea → Day2Request
  del_tac : ℕ → Day2Request

unfoldable pub call : Generic5gBlueprint → Day2Request → Method
unfolding day2_add_ues day2_del_ues day2_add_dnn day2_del_dnn day2_add_slice day2_del_slice
    day2_add_tac day2_del_tac
call blueprint (add_ues model) = day2_add_ues blueprint model
call blueprint (del_ues imsi) = day2_del_ues blueprint imsi
call blueprint (add_dnn model) = day2_add_dnn blueprint model
call blueprint (del_dnn dnn) = day2_del_dnn blueprint dnn
call blueprint (add_slice_oss model) = day2_add_slice blueprint model true
call blueprint (add_slice_operator model) = day2_add_slice blueprint model false
call blueprint (del_slice slice_id) = day2_del_slice blueprint slice_id
call blueprint (add_tac model) = day2_add_tac blueprint model
call blueprint (del_tac area_id) = day2_del_tac blueprint area_id
