-- ===== src/Witnesses/Cores.antt =====
-- The theorems on 5G cores at a concrete configuration.
use e_pem.Prelude.{◌≡◌, refl, true, false, none, some, [], ◌∷◌, arith}
use e_pem.Result.{Error, ok, err, key_error, type_error}
use e_pem.Exec.{pure, raise}
use e_pem.Exec.Rules.{Keeps-pure}
use e_pem.PyList.{find_first, select}
use e_pem.Core5g.{
  SliceType, SubDataNets, SubSliceProfiles, SubSubscribers, SubArea, Create5gModel, Generic5gState,
  get_area,
}
use e_pem.Core5g.Day2.{
  Generic5gBlueprint, add_ues, del_slice, call, day2_add_slice, all_dnns, has_area, has_duplicate,
}
use e_pem.Core5g.Restoring.{Requires, call-restores}
use e_pem.Core5g.Validity.{IsValid, KeepsValidity}
use e_pem.Core5g.SliceValidity.{call-IsValid}
use e_pem.Core5g.Undoing.{Follows, add, delete, area, delete-add}
use e_pem.Core5g.Stars.{everywhere, add_slice-FailsAt}

abbrev internet : SubDataNets
internet = record {
  net_name = "dnn";
  dnn = "internet";
  dns = "8.8.8.8";
  pools = "10.0.0.0/16" ∷ [];
}

abbrev broadband : SubSliceProfiles
broadband = record { slice_id = "000001"; slice_type = SliceType.embb; dnn_list = "internet" ∷ [] }

abbrev phone : SubSubscribers
phone = record {
  imsi = "001014000000001";
  k = "k1";
  opc = "o1";
  snssai = record { slice_id = "000001"; slice_type = SliceType.embb; pdu_session_ids = [] } ∷ [];
}

abbrev area_three : SubArea
area_three = record { id = 3; nci = "0x01"; core = true; slices = some [] }

abbrev area_four : SubArea
area_four = record { id = 4; nci = "0x02"; core = false; slices = some [] }

abbrev config : Create5gModel
config = record {
  config = record {
    network_endpoints = record { mgt = some "mgt"; wan = some "wan"; data_nets = internet ∷ [] };
    plmn = "00101";
    slice_profiles = some (broadband ∷ []);
    subscribers = [];
  };
  areas = area_three ∷ [];
}

abbrev deployed : Generic5gState
deployed = record { current_config = config; edge_areas = []; ran_areas = []; core_deployed = true }

abbrev willing : Generic5gBlueprint
willing = record {
  add_ues = λ model. pure tt;
  del_ues = λ imsi. pure tt;
  add_dnn = λ model. pure tt;
  del_dnn = λ dnn. pure tt;
  add_slice = λ model oss. pure tt;
  del_slice = λ slice_id. pure tt;
  add_tac = λ model. pure tt;
  del_tac = λ area_id. pure tt;
}

-- a core that does not let slices go
abbrev unwilling : Generic5gBlueprint
unwilling = record willing { del_slice = λ slice_id. raise key_error }

deletion_refused : (call unwilling (del_slice "000001") deployed).0 ≡ err key_error
unfolding call
deletion_refused = refl

config-Requires : Requires (del_slice "000001") config
config-Requires = ((λ h. ground (arith, h)), ((λ h. ground (arith, h)), tt))

call-restores_example : (call unwilling (del_slice "000001") deployed).1.current_config ≡ config
call-restores_example =
    call-restores unwilling (del_slice "000001") deployed key_error config-Requires deletion_refused

willing-KeepsValidity : KeepsValidity willing
willing-KeepsValidity = record {
  add_ues = λ model. Keeps-pure tt;
  del_ues = λ imsi. Keeps-pure tt;
  add_dnn = λ model. Keeps-pure tt;
  del_dnn = λ dnn. Keeps-pure tt;
  add_slice = λ model oss. Keeps-pure tt;
  del_slice = λ slice_id. Keeps-pure tt;
  add_tac = λ model. Keeps-pure tt;
  del_tac = λ area_id. Keeps-pure tt;
}

config-IsValid : IsValid config
unfolding has_duplicate all_dnns
config-IsValid = record {
  subscribers = tt;
  data_nets = (tt, tt);
  slices = (tt, tt);
  dnns = refl;
  areas = (tt, tt);
}

call-IsValid_example : IsValid (call willing (add_ues phone) deployed).1.current_config
call-IsValid_example =
    call-IsValid willing willing-KeepsValidity (add_ues phone) deployed config-IsValid

willing-Follows : Follows willing
unfolding pure
willing-Follows = record {
  add_ues = λ model self. (refl, refl);
  del_ues = λ imsi self. (refl, refl);
  add_dnn = λ model self. (refl, refl);
  del_dnn = λ dnn self. (refl, refl);
  add_tac = λ model self. (refl, refl);
  del_tac = λ area_id self. (refl, refl);
}

four_new : has_area 4 config ≡ false
unfolding get_area find_first
four_new = refl

delete-add_example :
    ((call willing (add (area area_four)) deployed).0 ≡ ok tt)
    × ((call willing (delete (area area_four)) (call willing (add (area area_four)) deployed).1).0
        ≡ ok tt)
    × ((call willing
          (delete (area area_four))
          (call willing (add (area area_four)) deployed).1).1.current_config
        ≡ config)
delete-add_example = delete-add willing willing-Follows (area area_four) deployed four_new

add_slice-FailsAt_example :
    (e : Error) × (day2_add_slice willing (everywhere broadband) true deployed ≡ (err e, deployed))
add_slice-FailsAt_example = add_slice-FailsAt broadband true deployed willing

-- a core without profiles
abbrev hollow : Generic5gState
hollow = record deployed {
  current_config = record config {
    config = record config.config { slice_profiles = none };
    areas =
        record area_three {
          slices = some (record { slice_type = SliceType.embb; slice_id = "000001" } ∷ []);
        }
        ∷ [];
  };
}

-- A deletion of a slice raises, and has taken the slice out of its area.
deletion_kept :
    ((call willing (del_slice "000001") hollow).0 ≡ err type_error)
    × ((call willing (del_slice "000001") hollow).1.current_config.areas ≡ area_three ∷ [])
unfolding call select
deletion_kept = (refl, refl)
