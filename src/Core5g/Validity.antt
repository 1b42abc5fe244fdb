-- ===== src/Core5g/Validity.antt =====
-- What a configuration of a 5G core keeps, whatever day-2 functions are called and whichever raise.
pub mod Functions
use e_pem.Prelude.{
  ℕ, String, ◌≡◌, refl, Bool, true, false, not, Option, none, some, List, [], ◌∷◌, ◌++◌, nat_eq,
  ◌==◌, arith,
}
use e_pem.Result.{Result, ok, err, type_error}
use e_pem.Exec.{after, ◌>>=◌, reads, modify, raise, try_except, or_handle}
use e_pem.Exec.Rules.{Keeps, Keeps-bind, keeps_rules}
use e_pem.PyList.{select}
use e_pem.PyList.Keyed.{HasUniqueKeys, HasUniqueKeys-append, HasUniqueKeys-select}
use e_pem.Core5g.{
  listed, map_given, SubDataNets, SubSliceProfiles, SubSubscribers, SubSlices, SubArea, SubConfig,
  Create5gModel, Generic5gState,
}
use e_pem.Core5g.Day2.{
  Method, AreaId, Core5gAddSliceModel, Generic5gBlueprint, on_config, on_subscribers, on_data_nets,
  on_areas, on_slice_profiles, unless, put_back, or_restore, change, has_subscriber, has_dnn,
  uses_dnn, knows_no_slice_of, has_area, all_dnns, has_duplicate, append_slice, check_area,
  add_to_area, add_to_areas, refusal, delete_from_areas, delete_from_profiles, day2_add_ues,
  day2_del_ues, day2_add_dnn, day2_del_dnn, day2_del_slice, day2_add_tac, day2_del_tac,
}
use e_pem.Core5g.Lists.{
  has_duplicate-select, HasAreasOnce, LacksArea-has_area, HasAreasOnce-append, HasAreasOnce-select,
  HasAreasOnce-filter_areas, HasAreasOnce-append_slice,
}

-- Subscribers, data networks, slices and areas occur once, and no two slices share a DNN.
pub record IsValid (c : Create5gModel) : Type 0 where
  pub subscribers : HasUniqueKeys SubSubscribers.imsi c.config.subscribers
  pub data_nets : HasUniqueKeys SubDataNets.dnn c.config.network_endpoints.data_nets
  pub slices : HasUniqueKeys SubSliceProfiles.slice_id (listed c.config.slice_profiles)
  pub dnns : has_duplicate (all_dnns (listed c.config.slice_profiles)) ≡ false
  pub areas : HasAreasOnce c.areas

abbrev pub HoldsValid : Generic5gState → Type 0
HoldsValid self = IsValid self.current_config

-- The overriding methods keep a configuration valid.
pub record KeepsValidity (blueprint : Generic5gBlueprint) : Type 0 where
  pub add_ues : (model : SubSubscribers) → Keeps HoldsValid (blueprint.add_ues model)
  pub del_ues : (imsi : String) → Keeps HoldsValid (blueprint.del_ues imsi)
  pub add_dnn : (model : SubDataNets) → Keeps HoldsValid (blueprint.add_dnn model)
  pub del_dnn : (dnn : String) → Keeps HoldsValid (blueprint.del_dnn dnn)
  pub add_slice :
      (model : Core5gAddSliceModel) (oss : Bool) → Keeps HoldsValid (blueprint.add_slice model oss)
  pub del_slice : (slice_id : String) → Keeps HoldsValid (blueprint.del_slice slice_id)
  pub add_tac : (model : SubArea) → Keeps HoldsValid (blueprint.add_tac model)
  pub del_tac : (area_id : ℕ) → Keeps HoldsValid (blueprint.del_tac area_id)

-- one run of a method
pub record KeepsAt (m : Method) (self : Generic5gState) : Type 0 where
  pub at : HoldsValid self → HoldsValid (m self).1

pub handled :
    (c : Create5gModel) (r : Result (Unit {0}) × Generic5gState)
    → IsValid c
    → (r.0 ≡ ok tt → HoldsValid r.1)
    → HoldsValid (or_handle (put_back c) r).1
unfolding modify raise ◌>>=◌
handled c (ok a, s) v h = h refl
handled c (err x, s) v h = v

pub KeepsAt-change :
    (f : Create5gModel → Create5gModel) (follow : Method) (self : Generic5gState)
    → (HoldsValid self → IsValid (f self.current_config))
    → Keeps HoldsValid follow
    → KeepsAt (change f follow) self
unfolding change or_restore modify ◌>>=◌ try_except
KeepsAt-change f follow self h k = record {
  at = λ v.
      let changed : Generic5gState = record self { current_config = f self.current_config } in
      handled self.current_config (follow changed) v (λ _. k.at changed (h v));
}

after_check :
    (r : Result Bool) (rest : Method) (self : Generic5gState)
    → (r ≡ ok false → KeepsAt rest self)
    → HoldsValid self
    → HoldsValid (after (refusal r) (λ _. rest) self).1
after_check (ok true) rest self k v = v
after_check (ok false) rest self k v = (k refl).at v
after_check (err e) rest self k v = v

pub KeepsAt-unless :
    (test : Create5gModel → Result Bool) (rest : Method) (self : Generic5gState)
    → (test self.current_config ≡ ok false → KeepsAt rest self)
    → KeepsAt (unless test rest) self
unfolding unless reads ◌>>=◌
KeepsAt-unless test rest self k = record { at = after_check (test self.current_config) rest self k }

-- What the loops over the areas keep: all but the areas, and these once.
pub record SameConfig (config : SubConfig) (self : Generic5gState) : Type 0 where
  pub same : self.current_config.config ≡ config
  pub areas : HasAreasOnce self.current_config.areas

Keeps-append_slice :
    (config : SubConfig) (slice : SubSlices) (area_id : ℕ)
    → Keeps (SameConfig config) (modify (on_config (on_areas (append_slice slice area_id))))
unfolding modify
Keeps-append_slice config slice area_id = record {
  at = λ s h. record {
    same = h.same;
    areas = HasAreasOnce-append_slice slice area_id s.current_config.areas h.areas;
  };
}

Keeps-add_to_area :
    (config : SubConfig) (slice : SubSlices) (id : AreaId)
    → Keeps (SameConfig config) (add_to_area slice id)
unfolding add_to_area
Keeps-add_to_area config slice id = search (keeps_rules, Keeps-append_slice)

Keeps-check_area : (config : SubConfig) (id : AreaId) → Keeps (SameConfig config) (check_area id)
unfolding check_area
Keeps-check_area config id = search keeps_rules

pub Keeps-add_to_areas :
    (config : SubConfig) (slice : SubSlices) (ids : List AreaId)
    → Keeps (SameConfig config) (add_to_areas slice ids)
unfolding add_to_areas
Keeps-add_to_areas config slice ids = search (keeps_rules, Keeps-add_to_area, Keeps-check_area)
