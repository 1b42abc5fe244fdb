-- ===== src/BlueprintManager/Identity.antt =====
-- A blueprint that is loaded has the identifier of its document.
use e_pem.Prelude.{ℕ, String, ◌≡◌, refl, Bool, true, false, List, [], arith, if◌then◌else◌}
use e_pem.Result.{Result, ok, err}
use e_pem.Exec.{◌>>=◌, for_each}
use e_pem.Exec.Rules.{Keeps, Keeps-bind, Keeps-for_each}
use e_pem.Resources.{Resource}
use e_pem.Blueprint.{BlueprintNgBaseModel, register_resource, insert_resource, given_id}
use e_pem.Blueprint.Loading.{register_if, register_saved, from_db, loaded}

-- Registering resources leaves the identifier.
abbrev HasId : String → BlueprintNgBaseModel → Type 0
HasId id b = b.id ≡ id

Keeps-register :
    (id : String) (has_vim : ℕ → Bool) (wanted : Bool → Bool) (key : String) (r : Resource)
    → Keeps (HasId id) (register_if has_vim wanted (key, r))
unfolding register_if register_resource insert_resource given_id ◌>>=◌
Keeps-register id has_vim wanted key r = record { at = λ s h. ground arith }

Keeps-register_saved :
    (id : String) (has_vim : ℕ → Bool) (l : List (String × Resource))
    → Keeps (HasId id) (register_saved has_vim l)
unfolding register_saved
Keeps-register_saved id has_vim l =
    Keeps-bind (for_each l (register_if has_vim (λ x. x))) _
      (Keeps-for_each l _ (λ e. Keeps-register id has_vim (λ x. x) e.0 e.1))
      (λ a.
        Keeps-for_each l _
          (λ e. Keeps-register id has_vim (λ x. if x then false else true) e.0 e.1))

loaded_id :
    (id : String) (x : Result (Unit {0}) × BlueprintNgBaseModel) (b : BlueprintNgBaseModel)
    → HasId id x.1
    → loaded x ≡ ok b
    → b.id ≡ id
loaded_id id (ok a, c) b k e = ground arith
loaded_id id (err x, c) b k e = absurd (ground (arith, e))

pub from_db_id :
    (has_vim : ℕ → Bool) (d b : BlueprintNgBaseModel) → from_db has_vim d ≡ ok b → b.id ≡ d.id
unfolding from_db
from_db_id has_vim d b h =
    loaded_id d.id
      (register_saved has_vim d.registered_resources (record d { registered_resources = [] })) b
      ((Keeps-register_saved d.id has_vim d.registered_resources).at _ refl) h
