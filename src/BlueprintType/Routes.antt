-- ===== src/BlueprintType/Routes.antt =====
-- The routes of the blueprints' functions: what is registered is found, by its path and by its type.
use Prim.Native.Char.{Char, code}
use Prim.Native.String
use Prim.Native.String.append
use e_pem.Prelude.{
  String, ◌≡◌, refl, ap, ◌∙◌, Bool, true, false, List, [], ◌∷◌, ◌==◌, map, nat_eq, arith, eq_iff,
  Bool-cases, inl, inr, if◌then◌else◌,
}
use e_pem.Text.{first_part, first_part-cons, first_part-separator}
use e_pem.Result.{ok}
use e_pem.PyList.{All, select}
use e_pem.PyDict.{has, put, lookup-put_same}
use e_pem.BlueprintType.{
  BlueprintTypes, BlueprintDay2Route, Day2Function, endpoint_path, register_day2, get_route,
  get_function_to_be_called, routes_of, get_module_routes, get_routes,
}

abbrev pub starts_with_slash : String → Bool
starts_with_slash String.[] = false
starts_with_slash (String.◌∷◌ c text) = nat_eq (code c) b'/'

abbrev pub has_slash : String → Bool
has_slash String.[] = false
has_slash (String.◌∷◌ c text) = if nat_eq (code c) b'/' then true else has_slash text

-- A type is a text without a slash and not empty; a path begins with a slash.
abbrev pub IsType : String → Type 0
IsType String.[] = ⊥
IsType (String.◌∷◌ c text) = has_slash (String.◌∷◌ c text) ≡ false

-- Every key is made of the type and the path of its route.
abbrev pub AreNamed : List (String × BlueprintDay2Route) → Type 0
AreNamed routes =
    All
      (λ e.
        (e.0 ≡ endpoint_path e.1.blue_type e.1.final_path)
        × IsType e.1.blue_type
        × (starts_with_slash e.1.final_path ≡ true))
      routes

append-cons :
    (c : Char) (s t : String) → String.◌++◌ (String.◌∷◌ c s) t ≡ String.◌∷◌ c (String.◌++◌ s t)
append-cons c s t = λ i. append.cons c s t i

append-empty : (s : String) → String.◌++◌ s "" ≡ s
append-empty String.[] = λ i. append.nil "" i
append-empty (String.◌∷◌ c s) = append-cons c s "" ∙ ap (λ t. String.◌∷◌ c t) (append-empty s)

endpoint_path_lem :
    (blue_type final_path : String)
    → endpoint_path blue_type final_path ≡ String.◌++◌ blue_type final_path
unfolding endpoint_path
endpoint_path_lem blue_type final_path = ap (λ t. String.◌++◌ blue_type t) (append-empty final_path)

key_not_slash :
    (blue_type final_path : String)
    → IsType blue_type
    → starts_with_slash (endpoint_path blue_type final_path) ≡ false
key_not_slash String.[] final_path t = absurd t
key_not_slash (String.◌∷◌ c text) final_path t =
    rw (endpoint_path_lem (String.◌∷◌ c text) final_path, append-cons c text final_path)
      (ground (arith, t))

-- A path is never a key, so the test of `register_day2` never finds one.
never_duplicate :
    (final_path : String) (routes : List (String × BlueprintDay2Route))
    → starts_with_slash final_path ≡ true
    → AreNamed routes
    → has final_path routes ≡ false
unfolding has
never_duplicate final_path [] p n = refl
never_duplicate final_path ((key, route) ∷ rest) p n =
    ground (arith, never_duplicate final_path rest p n.1, eq_iff key final_path, different)
  where
    different : starts_with_slash key ≡ false
    different = ap starts_with_slash n.0.0 ∙ key_not_slash route.blue_type route.final_path n.0.1

AreNamed-put :
    (route : BlueprintDay2Route) (routes : List (String × BlueprintDay2Route))
    → IsType route.blue_type
    → starts_with_slash route.final_path ≡ true
    → AreNamed routes
    → AreNamed (put (endpoint_path route.blue_type route.final_path) route routes)
unfolding put
AreNamed-put route [] t p n = ((refl, t, p), tt)
AreNamed-put route ((key, r) ∷ rest) t p n =
    elim (Bool-cases (key == endpoint_path route.blue_type route.final_path)) [
      | inl e ↦ rw e (((eq_iff key _).0 e, t, p), n.1)
      | inr e ↦ rw e (n.0, AreNamed-put route rest t p n.1)
    ]

-- what register_day2 does to a mapping that is named
registered :
    (blue_type : String) (m : Day2Function) (types : BlueprintTypes)
    → starts_with_slash m.final_path ≡ true
    → AreNamed types.path_function_mapping
    → register_day2 blue_type m types ≡ (
      ok tt,
      record types {
        path_function_mapping =
            put
              (endpoint_path blue_type m.final_path)
              (record {
                blue_type = blue_type;
                final_path = m.final_path;
                methods = m.request_type;
                function = m.name;
              })
              types.path_function_mapping;
      },
    )
unfolding register_day2
registered blue_type m types p n =
    rw (never_duplicate m.final_path types.path_function_mapping p n) refl

pub get_function-register_day2 :
    (blue_type : String) (m : Day2Function) (types : BlueprintTypes)
    → IsType blue_type
    → starts_with_slash m.final_path ≡ true
    → AreNamed types.path_function_mapping
    → ((register_day2 blue_type m types).0 ≡ ok tt)
      × (get_function_to_be_called
            (endpoint_path blue_type m.final_path)
            (register_day2 blue_type m types).1
          ≡ ok m.name)
      × AreNamed (register_day2 blue_type m types).1.path_function_mapping
unfolding get_function_to_be_called get_route
get_function-register_day2 blue_type m types t p n =
    let done = registered blue_type m types p n in
    rw done (
      refl,
      ground (
        arith,
        lookup-put_same (endpoint_path blue_type m.final_path)
            (record {
              blue_type = blue_type;
              final_path = m.final_path;
              methods = m.request_type;
              function = m.name;
            })
            types.path_function_mapping,
      ),
      AreNamed-put _ types.path_function_mapping t p n,
    )

first_part-append :
    (blue_type final_path : String)
    → has_slash blue_type ≡ false
    → starts_with_slash final_path ≡ true
    → first_part b'/' (String.◌++◌ blue_type final_path) ≡ blue_type
first_part-append String.[] String.[] h p = absurd (ground arith)
first_part-append String.[] (String.◌∷◌ c final_path) h p =
    ap (first_part b'/') (λ i. append.nil (String.◌∷◌ c final_path) i)
    ∙ first_part-separator b'/' c final_path p
first_part-append (String.◌∷◌ c text) final_path h p =
    ap (first_part b'/') (append-cons c text final_path)
    ∙ first_part-cons b'/' c (String.◌++◌ text final_path) (ground arith)
    ∙ ap (λ t. String.◌∷◌ c t) (first_part-append text final_path (ground arith) p)

type_no_slash : (blue_type : String) → IsType blue_type → has_slash blue_type ≡ false
type_no_slash String.[] t = absurd t
type_no_slash (String.◌∷◌ c text) t = t

first_part-key :
    (blue_type final_path : String)
    → IsType blue_type
    → starts_with_slash final_path ≡ true
    → first_part b'/' (endpoint_path blue_type final_path) ≡ blue_type
first_part-key blue_type final_path t p =
    ap (first_part b'/') (endpoint_path_lem blue_type final_path)
    ∙ first_part-append blue_type final_path (type_no_slash blue_type t) p

routes_of-select :
    (module_name : String) (routes : List (String × BlueprintDay2Route))
    → AreNamed routes
    → routes_of module_name routes
      ≡ select (λ r. r.blue_type == module_name) (map (λ e. e.1) routes)
unfolding routes_of select
routes_of-select module_name [] n = refl
routes_of-select module_name ((key, route) ∷ rest) n =
    let first =
      ap (first_part b'/') n.0.0 ∙ first_part-key route.blue_type route.final_path n.0.1 n.0.2 in
    rw first (rw (routes_of-select module_name rest n.1) refl)

-- The routes of a module, which are searched by the first part of the keys, are exactly the registered
-- routes of that blueprint type, in the order of registration; keys are made of a type without a slash
-- and a path that begins with one.
pub get_module_routes-select :
    (module_name : String) (types : BlueprintTypes)
    → AreNamed types.path_function_mapping
    → get_module_routes module_name types
      ≡ select (λ r. r.blue_type == module_name) (get_routes types)
unfolding get_module_routes get_routes
get_module_routes-select module_name types n =
    routes_of-select module_name types.path_function_mapping n
