-- ===== src/Core5g/Validity/Functions.antt =====
-- blueprints_ng/modules/generic_5g/generic_5g.py: the day-2 functions but the addition of a slice keep a
-- configuration valid.
use e_pem.Prelude.{
  ℕ, String, ◌≡◌, Bool, false, not, Option, none, some, List, [], ◌∷◌, ◌++◌, nat_eq, ◌==◌, arith,
}
use e_pem.Result.{Result, ok, err, type_error}
use e_pem.Exec.{try_except}
use e_pem.Exec.Rules.{Keeps, Keeps-bind}
use e_pem.PyList.{select}
use e_pem.PyList.Keyed.{HasUniqueKeys, HasUniqueKeys-append, HasUniqueKeys-select}
use e_pem.Core5g.{
  listed, map_given, SubDataNets, SubSliceProfiles, SubSubscribers, SubArea, Create5gModel,
  Generic5gState,
}
use e_pem.Core5g.Day2.{
  Method, Generic5gBlueprint, on_config, on_subscribers, on_data_nets, on_areas, on_slice_profiles,
  or_restore, has_subscriber, has_dnn, uses_dnn, knows_no_slice_of, has_area, all_dnns,
  has_duplicate, delete_from_areas, delete_from_profiles, day2_add_ues, day2_del_ues, day2_add_dnn,
  day2_del_dnn, day2_del_slice, day2_add_tac, day2_del_tac,
}
use e_pem.Core5g.Lists.{
  has_duplicate-select, LacksArea-has_area, HasAreasOnce-append, HasAreasOnce-select,
  HasAreasOnce-filter_areas,
}
use e_pem.Core5g.Validity.{
  IsValid, HoldsValid, KeepsValidity, KeepsAt, handled, KeepsAt-change, KeepsAt-unless,
}

passed : {b : Bool} → ◌≡◌ {A = Result Bool} (ok b) (ok false) → b ≡ false
passed h = ground (arith, h)

Keeps-or_restore :
    (c : Create5gModel) (follow : Method)
    → IsValid c
    → Keeps HoldsValid follow
    → Keeps HoldsValid (or_restore c follow)
unfolding or_restore try_except
Keeps-or_restore c follow v k = record { at = λ s h. handled c (follow s) v (λ _. k.at s h) }

Keeps-delete_from_areas : (slice_id : String) → Keeps HoldsValid (delete_from_areas slice_id)
unfolding delete_from_areas
Keeps-delete_from_areas slice_id = record {
  at = λ s v. record {
    subscribers = v.subscribers;
    data_nets = v.data_nets;
    slices = v.slices;
    dnns = v.dnns;
    areas = HasAreasOnce-filter_areas slice_id s.current_config.areas v.areas;
  };
}

module _ (p : SubSliceProfiles → Bool) where
  HasUniqueKeys-given :
      (o : Option (List SubSliceProfiles))
      → HasUniqueKeys SubSliceProfiles.slice_id (listed o)
      → HasUniqueKeys SubSliceProfiles.slice_id (listed (map_given (select p) o))
  HasUniqueKeys-given none h = h
  HasUniqueKeys-given (some l) h = HasUniqueKeys-select _ p l h

  has_duplicate-given :
      (o : Option (List SubSliceProfiles))
      → has_duplicate (all_dnns (listed o)) ≡ false
      → has_duplicate (all_dnns (listed (map_given (select p) o))) ≡ false
  has_duplicate-given none h = h
  has_duplicate-given (some l) h = has_duplicate-select p l h

abbrev either_state :
    Option (List SubSliceProfiles)
    → Generic5gState
    → Generic5gState
    → Result (Unit {0}) × Generic5gState
either_state o s t = elim o [ none ↦ (err type_error, s) | some l ↦ (ok tt, t) ]

one_of :
    (o : Option (List SubSliceProfiles)) (s t : Generic5gState)
    → HoldsValid s
    → HoldsValid t
    → HoldsValid (either_state o s t).1
one_of none s t v w = v
one_of (some l) s t v w = w

Keeps-delete_from_profiles : (slice_id : String) → Keeps HoldsValid (delete_from_profiles slice_id)
unfolding delete_from_profiles
Keeps-delete_from_profiles slice_id = record {
  at = λ s v.
      let p : SubSliceProfiles → Bool = λ slice. not (slice.slice_id == slice_id) in
      one_of s.current_config.config.slice_profiles s (on_config (on_slice_profiles (select p)) s) v
        (record {
          subscribers = v.subscribers;
          data_nets = v.data_nets;
          slices = HasUniqueKeys-given p s.current_config.config.slice_profiles v.slices;
          dnns = has_duplicate-given p s.current_config.config.slice_profiles v.dnns;
          areas = v.areas;
        });
}

module _ (blueprint : Generic5gBlueprint) (follows : KeepsValidity blueprint)
    (self : Generic5gState) where
  abbrev c : Create5gModel
  c = self.current_config

  pub KeepsAt-add_ues : (model : SubSubscribers) → KeepsAt (day2_add_ues blueprint model) self
  unfolding day2_add_ues
  KeepsAt-add_ues model =
      KeepsAt-unless (λ d. ok (has_subscriber model.imsi d)) _ self
        λ absent. KeepsAt-unless (knows_no_slice_of model) _ self λ known.
          KeepsAt-change (on_subscribers (λ l. l ++ model ∷ [])) (blueprint.add_ues model) self
            (λ v. record {
              subscribers =
                  HasUniqueKeys-append SubSubscribers.imsi c.config.subscribers model
                    (passed absent) v.subscribers;
              data_nets = v.data_nets;
              slices = v.slices;
              dnns = v.dnns;
              areas = v.areas;
            })
            (follows.add_ues model)

  pub KeepsAt-del_ues : (imsi : String) → KeepsAt (day2_del_ues blueprint imsi) self
  unfolding day2_del_ues
  KeepsAt-del_ues imsi =
      KeepsAt-unless (λ d. ok (not (has_subscriber imsi d))) _ self
        λ present.
          KeepsAt-change (on_subscribers (select (λ x. not (x.imsi == imsi))))
            (blueprint.del_ues imsi) self
            (λ v. record {
              subscribers =
                  HasUniqueKeys-select SubSubscribers.imsi (λ x. not (x.imsi == imsi))
                    c.config.subscribers v.subscribers;
              data_nets = v.data_nets;
              slices = v.slices;
              dnns = v.dnns;
              areas = v.areas;
            })
            (follows.del_ues imsi)

  pub KeepsAt-add_dnn : (model : SubDataNets) → KeepsAt (day2_add_dnn blueprint model) self
  unfolding day2_add_dnn
  KeepsAt-add_dnn model =
      KeepsAt-unless (λ d. ok (has_dnn model.dnn d)) _ self
        λ absent.
          KeepsAt-change (on_data_nets (λ l. l ++ model ∷ [])) (blueprint.add_dnn model) self
            (λ v. record {
              subscribers = v.subscribers;
              data_nets =
                  HasUniqueKeys-append SubDataNets.dnn c.config.network_endpoints.data_nets model
                    (passed absent) v.data_nets;
              slices = v.slices;
              dnns = v.dnns;
              areas = v.areas;
            })
            (follows.add_dnn model)

  pub KeepsAt-del_dnn : (dnn : String) → KeepsAt (day2_del_dnn blueprint dnn) self
  unfolding day2_del_dnn
  KeepsAt-del_dnn dnn =
      KeepsAt-unless (λ d. ok (not (has_dnn dnn d))) _ self
        λ present. KeepsAt-unless (uses_dnn dnn) _ self λ unused.
          KeepsAt-change (on_data_nets (select (λ x. not (x.dnn == dnn)))) (blueprint.del_dnn dnn)
            self
            (λ v. record {
              subscribers = v.subscribers;
              data_nets =
                  HasUniqueKeys-select SubDataNets.dnn (λ x. not (x.dnn == dnn))
                    c.config.network_endpoints.data_nets v.data_nets;
              slices = v.slices;
              dnns = v.dnns;
              areas = v.areas;
            })
            (follows.del_dnn dnn)

  pub KeepsAt-del_slice : (slice_id : String) → KeepsAt (day2_del_slice blueprint slice_id) self
  unfolding day2_del_slice
  KeepsAt-del_slice slice_id = record {
    at = λ v.
        (Keeps-bind _ _ (Keeps-delete_from_areas slice_id) (λ a.
            Keeps-bind _ _ (Keeps-delete_from_profiles slice_id) (λ b.
              Keeps-or_restore c (blueprint.del_slice slice_id) v (follows.del_slice slice_id)))).at
          self v;
  }

  pub KeepsAt-add_tac : (model : SubArea) → KeepsAt (day2_add_tac blueprint model) self
  unfolding day2_add_tac
  KeepsAt-add_tac model =
      KeepsAt-unless (λ d. ok (has_area model.id d)) _ self
        λ absent.
          KeepsAt-change (on_areas (λ l. l ++ model ∷ [])) (blueprint.add_tac model) self
            (λ v. record {
              subscribers = v.subscribers;
              data_nets = v.data_nets;
              slices = v.slices;
              dnns = v.dnns;
              areas =
                  HasAreasOnce-append c.areas model (LacksArea-has_area model.id c (passed absent))
                    v.areas;
            })
            (follows.add_tac model)

  pub KeepsAt-del_tac : (area_id : ℕ) → KeepsAt (day2_del_tac blueprint area_id) self
  unfolding day2_del_tac
  KeepsAt-del_tac area_id =
      KeepsAt-unless (λ d. ok (not (has_area area_id d))) _ self
        λ present.
          KeepsAt-change (on_areas (select (λ x. not (nat_eq x.id area_id))))
            (blueprint.del_tac area_id) self
            (λ v. record {
              subscribers = v.subscribers;
              data_nets = v.data_nets;
              slices = v.slices;
              dnns = v.dnns;
              areas = HasAreasOnce-select (λ x. not (nat_eq x.id area_id)) c.areas v.areas;
            })
            (follows.del_tac area_id)
