-- ===== src/Core5g/Day2/Changes.antt =====
-- blueprints_ng/modules/generic_5g/generic_5g.py: the checks and changes of the configuration that the
-- day-2 functions are made of, and the copy that is put back.
use e_pem.Prelude.{not, ℕ, String, Bool, true, false, none, some, List, ◌==◌}
use e_pem.Result.{Error, Result, ok, err, raise_if, type_error, blueprint_exception}
use e_pem.Exec.{Exec, ◌>>=◌, ◌>>◌, raise, reads, modify, try_except}
use e_pem.PyList.{contains}
use e_pem.Core5g.{
  listed, map_given, SubDataNets, SubSliceProfiles, SubSubscribers, SubArea, Create5gModel,
  Generic5gState, get_area,
}

abbrev pub Method : Type 0
Method = Exec Generic5gState (Unit {0})

abbrev pub on_config : (Create5gModel → Create5gModel) → Generic5gState → Generic5gState
on_config f self = record self { current_config = f self.current_config }

abbrev pub on_subscribers :
    (List SubSubscribers → List SubSubscribers) → Create5gModel → Create5gModel
on_subscribers f c = record c { config = record c.config { subscribers = f c.config.subscribers } }

abbrev pub on_slice_profiles :
    (List SubSliceProfiles → List SubSliceProfiles) → Create5gModel → Create5gModel
on_slice_profiles f c = record c {
  config = record c.config { slice_profiles = map_given f c.config.slice_profiles };
}

abbrev pub on_data_nets : (List SubDataNets → List SubDataNets) → Create5gModel → Create5gModel
on_data_nets f c = record c {
  config = record c.config {
    network_endpoints = record c.config.network_endpoints {
      data_nets = f c.config.network_endpoints.data_nets;
    };
  };
}

abbrev pub on_areas : (List SubArea → List SubArea) → Create5gModel → Create5gModel
on_areas f c = record c { areas = f c.areas }

-- a check on the configuration
abbrev pub refuse_if : (Create5gModel → Bool) → Method
refuse_if test = reads (λ self. raise_if (test self.current_config) blueprint_exception)

abbrev pub refusal : Result Bool → Result (Unit {0})
refusal (ok refused) = raise_if refused blueprint_exception
refusal (err e) = err e

-- if test: raise BlueprintNGException; and the rest. The test may raise itself.
unfoldable pub unless : (Create5gModel → Result Bool) → Method → Method
unfolding reads ◌>>=◌
unless test rest = reads (λ self. refusal (test self.current_config)) >> rest

abbrev pub put_back : Create5gModel → Error → Method
put_back backup_config e = modify (on_config (λ c. backup_config)) >> raise e

-- try: body; except Exception as e: self.state.current_config = backup_config; raise e
unfoldable pub or_restore : Create5gModel → Method → Method
unfolding try_except modify raise ◌>>=◌
or_restore backup_config body = try_except body (put_back backup_config)

-- what the day-2 functions do after their checks
unfoldable pub change : (Create5gModel → Create5gModel) → Method → Method
unfolding or_restore modify
change f follow self =
    let backup_config = self.current_config in
    (modify (on_config f) >> or_restore backup_config follow) self

abbrev pub has_subscriber : String → Create5gModel → Bool
has_subscriber imsi c = contains (λ subscriber. subscriber.imsi == imsi) c.config.subscribers

abbrev pub has_dnn : String → Create5gModel → Bool
has_dnn dnn c = contains (λ net. net.dnn == dnn) c.config.network_endpoints.data_nets

-- Where this is asked, `append` has found that there are profiles.
abbrev pub has_slice : String → Create5gModel → Bool
has_slice slice_id c =
    contains (λ slice. slice.slice_id == slice_id) (listed c.config.slice_profiles)

abbrev pub has_area : ℕ → Create5gModel → Bool
has_area area_id c = elim (get_area area_id c) [ none ↦ false | some area ↦ true ]

-- None of the slices of the subscriber has a profile.
abbrev pub knows_no_slice_of : SubSubscribers → Create5gModel → Result Bool
knows_no_slice_of subscriber c = elim c.config.slice_profiles [
  | none ↦ err type_error
  | some profiles ↦ ok (
      not (
        contains (λ slice. contains (λ s. s.slice_id == slice.slice_id) subscriber.snssai)
          profiles))
]

-- the DNN is in the list of a slice
abbrev pub uses_dnn : String → Create5gModel → Result Bool
uses_dnn dnn c = elim c.config.slice_profiles [
  | none ↦ err type_error
  | some profiles ↦ ok (contains (λ slice. contains (λ name. name == dnn) slice.dnn_list) profiles)
]
