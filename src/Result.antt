-- ===== src/Result.antt =====
-- Python's exceptions as values. A function that may raise and mutates nothing before it raises
-- returns a `Result`; a method that may raise after a mutation is an `Exec` (module Exec).
use e_pem.Prelude.{ℕ, ◌≡◌, refl, ◌⊎◌, inl, inr, Bool, true, false}

-- The exceptions that the modelled code raises.
pub data Error : Type 0 where
  value_error index_error key_error type_error attribute_error assertion_error : Error
  address_value_error : Error
  topo_k8s_not_found topo_k8s_has_blueprint : Error
  pdu_provider_exception : Error
  blueprint_not_found blueprint_already_existing blueprint_protected : Error
  blueprint_type_not_declared blueprint_exception : Error
  httpx_error redis_error mongo_error : Error
  http_exception : (status_code : ℕ) → Error

pub data Result {ℓ} (A : Type ℓ) : Type ℓ where
  ok : A → Result A
  err : Error → Result A

-- a result is a value or an exception
pub Result-cases {ℓ} :
    {A : Type ℓ} (r : Result A) → ((a : A) × (r ≡ ok a)) ⊎ ((e : Error) × (r ≡ err e))
Result-cases (ok a) = inl (a, refl)
Result-cases (err e) = inr (e, refl)

-- `if b: raise e`
abbrev pub raise_if : Bool → Error → Result (Unit {0})
raise_if true e = err e
raise_if false e = ok tt

infixl 5 ◌>>=◌ ◌>>◌
-- the rest of the function, unless the exception leaves it
abbrev pub ◌>>=◌ {ℓ κ} : {A : Type ℓ} {B : Type κ} → Result A → (A → Result B) → Result B
err exception >>= rest = err exception
ok value >>= rest = rest value

-- a check, then the rest
abbrev pub ◌>>◌ {κ} : {B : Type κ} → Result (Unit {0}) → Result B → Result B
check >> rest = check >>= λ _. rest
