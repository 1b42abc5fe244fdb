-- ===== src/Core5g/SliceValidity.antt =====
-- A new slice is added to a configuration that stays valid, and what that means for all day-2 functions.
use e_pem.Prelude.{
  ◌≡◌, refl, sym, ap, ◌∙◌, subst, Bool, true, false, ◌&&◌, Option, none, some, List, [], ◌∷◌, ◌++◌,
  ◌==◌, arith, inl, inr, Option-cases, if◌then◌else◌,
}
use e_pem.Result.{Error, Result, ok, raise_if}
use e_pem.Exec.{◌>>=◌, ◌>>◌, pure, reads, modify, try_except}
use e_pem.Exec.Rules.{Keeps, Keeps-if, Keeps-pure, bind_inv}
use e_pem.PyList.{contains}
use e_pem.PyList.Keyed.{HasUniqueKeys, HasUniqueKeys-append}
use e_pem.Core5g.{
  listed, map_given, SubDataNets, SubSliceProfiles, SubSubscribers, SubSlices, Create5gModel,
  Generic5gState,
}
use e_pem.Core5g.Day2.{
  Method, Core5gAddSliceModel, Generic5gBlueprint, Day2Request, add_ues, del_ues, add_dnn, del_dnn,
  add_slice_oss, add_slice_operator, del_slice, add_tac, del_tac, on_slice_profiles, refuse_if,
  or_restore, call, has_slice, all_dnns, has_duplicate, configuration_feasibility_check,
  add_to_areas, is_empty, check_with, day2_add_slice_generic, day2_add_slice,
}
use e_pem.Core5g.Validity.{
  IsValid, HoldsValid, KeepsValidity, KeepsAt, SameConfig, handled, Keeps-add_to_areas,
}
use e_pem.Core5g.Validity.Functions.{
  KeepsAt-add_ues, KeepsAt-del_ues, KeepsAt-add_dnn, KeepsAt-del_dnn, KeepsAt-del_slice,
  KeepsAt-add_tac, KeepsAt-del_tac,
}

-- where one run of `m` returns, the configuration is valid
record ReturnsValid (m : Method) (self : Generic5gState) : Type 0 where
  pub at : (m self).0 ≡ ok tt → HoldsValid (m self).1

ReturnsValid-bind :
    (m : Method) (rest : Unit {0} → Method) (self : Generic5gState)
    → ((m self).0 ≡ ok tt → ReturnsValid (rest tt) (m self).1)
    → ReturnsValid (m >>= rest) self
ReturnsValid-bind m rest self k = record {
  at = λ h.
      let step = bind_inv m rest self tt h in
      subst HoldsValidAfter (sym step.2) ((k step.1).at (ap (λ r. r.0) (sym step.2) ∙ h));
}
  where
    HoldsValidAfter : Result (Unit {0}) × Generic5gState → Type 0
    HoldsValidAfter r = HoldsValid r.1

-- the profiles with a new one
abbrev with_profile : SubSliceProfiles → Option (List SubSliceProfiles) → List SubSliceProfiles
with_profile slice o = listed (map_given (λ l. l ++ slice ∷ []) o)

raise_if-ok : (b : Bool) (e : Error) → raise_if b e ≡ ok tt → b ≡ false
raise_if-ok true e h = absurd (ground (arith, h))
raise_if-ok false e h = refl

check_with-ok :
    (slice : SubSliceProfiles) (c : Create5gModel)
    → check_with slice c ≡ ok tt
    → has_duplicate (all_dnns (with_profile slice c.config.slice_profiles)) ≡ false
unfolding check_with configuration_feasibility_check
check_with-ok slice c h = elim (Option-cases c.config.slice_profiles) [
  | inl e ↦ absurd (ground (arith, h, e))
  | inr (l, e) ↦ ground (arith, h, e)
]

HasUniqueKeys-with_profile :
    (o : Option (List SubSliceProfiles)) (slice : SubSliceProfiles)
    → contains (λ x. x.slice_id == slice.slice_id) (listed o) ≡ false
    → HasUniqueKeys SubSliceProfiles.slice_id (listed o)
    → HasUniqueKeys SubSliceProfiles.slice_id (with_profile slice o)
HasUniqueKeys-with_profile none slice absent u = u
HasUniqueKeys-with_profile (some l) slice absent u =
    HasUniqueKeys-append SubSliceProfiles.slice_id l slice absent u

IsValid-add_slice :
    (c : Create5gModel) (slice : SubSliceProfiles) (self : Generic5gState)
    → IsValid c
    → has_duplicate (all_dnns (with_profile slice c.config.slice_profiles)) ≡ false
    → has_slice slice.slice_id c ≡ false
    → SameConfig c.config self
    → IsValid (on_slice_profiles (λ l. l ++ slice ∷ []) self.current_config)
IsValid-add_slice c slice self v feasible absent h = record {
  subscribers =
      subst (λ d. HasUniqueKeys SubSubscribers.imsi d.subscribers) (sym h.same) v.subscribers;
  data_nets =
      subst (λ d. HasUniqueKeys SubDataNets.dnn d.network_endpoints.data_nets) (sym h.same)
        v.data_nets;
  slices =
      subst (λ d. HasUniqueKeys SubSliceProfiles.slice_id (with_profile slice d.slice_profiles))
        (sym h.same) (HasUniqueKeys-with_profile c.config.slice_profiles slice absent v.slices);
  dnns =
      subst (λ d. has_duplicate (all_dnns (with_profile slice d.slice_profiles)) ≡ false)
        (sym h.same) feasible;
  areas = h.areas;
}

module _ (model : Core5gAddSliceModel) (oss : Bool) (self : Generic5gState) where
  ReturnsValid-generic : HoldsValid self → ReturnsValid (day2_add_slice_generic model oss) self
  unfolding day2_add_slice_generic reads modify
  ReturnsValid-generic v =
      ReturnsValid-bind (reads (λ s. check_with model.slice s.current_config)) _ self λ feasible.
        ReturnsValid-bind (refuse_if (has_slice model.slice.slice_id)) _ self λ absent.
          ReturnsValid-bind (refuse_if (λ c. oss && is_empty (listed model.area_ids))) _ self
            λ given. ReturnsValid-bind placed _ self λ done. record {
              at = λ h.
                  IsValid-add_slice self.current_config model.slice (placed self).1 v
                    (check_with-ok model.slice self.current_config feasible)
                    (raise_if-ok _ _ absent)
                    (kept.at self (record { same = refl; areas = v.areas }));
            }
    where
      slice : SubSlices
      slice = record { slice_type = model.slice.slice_type; slice_id = model.slice.slice_id }

      placed : Method
      placed =
          if is_empty (listed model.area_ids)
          then pure tt
          else add_to_areas slice (listed model.area_ids)

      kept : Keeps (SameConfig self.current_config.config) placed
      kept =
          Keeps-if (is_empty (listed model.area_ids)) (pure tt)
            (add_to_areas slice (listed model.area_ids)) (Keeps-pure tt)
            (Keeps-add_to_areas self.current_config.config slice (listed model.area_ids))

  KeepsAt-add_slice :
      (blueprint : Generic5gBlueprint)
      → Keeps HoldsValid (blueprint.add_slice model oss)
      → KeepsAt (day2_add_slice blueprint model oss) self
  unfolding day2_add_slice or_restore try_except
  KeepsAt-add_slice blueprint k = record {
    at = λ v.
        handled self.current_config
          ((day2_add_slice_generic model oss >> blueprint.add_slice model oss) self) v
          ((ReturnsValid-bind (day2_add_slice_generic model oss)
            (λ _. blueprint.add_slice model oss) self
            λ done. record { at = λ h. k.at _ ((ReturnsValid-generic v).at done) }).at);
  }

-- Where the overriding methods keep the configuration valid, every day-2 function does, whether it
-- returns or raises: subscribers, data networks, slices and areas occur once, and no two slices share a
-- DNN.
pub call-IsValid :
    (blueprint : Generic5gBlueprint)
    → KeepsValidity blueprint
    → (request : Day2Request) (self : Generic5gState) → IsValid self.current_config
    → IsValid (call blueprint request self).1.current_config
unfolding call
call-IsValid blueprint k (add_ues model) self v = (KeepsAt-add_ues blueprint k self model).at v
call-IsValid blueprint k (del_ues imsi) self v = (KeepsAt-del_ues blueprint k self imsi).at v
call-IsValid blueprint k (add_dnn model) self v = (KeepsAt-add_dnn blueprint k self model).at v
call-IsValid blueprint k (del_dnn dnn) self v = (KeepsAt-del_dnn blueprint k self dnn).at v
call-IsValid blueprint k (add_slice_oss model) self v =
    (KeepsAt-add_slice model true self blueprint (k.add_slice model true)).at v
call-IsValid blueprint k (add_slice_operator model) self v =
    (KeepsAt-add_slice model false self blueprint (k.add_slice model false)).at v
call-IsValid blueprint k (del_slice slice_id) self v =
    (KeepsAt-del_slice blueprint k self slice_id).at v
call-IsValid blueprint k (add_tac model) self v = (KeepsAt-add_tac blueprint k self model).at v
call-IsValid blueprint k (del_tac area_id) self v = (KeepsAt-del_tac blueprint k self area_id).at v
