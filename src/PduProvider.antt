-- ===== src/PduProvider.antt =====
-- blueprints_ng/providers/pdu/pdu_provider.py: the provider through which a blueprint locks PDUs.
pub mod Locking
pub mod Finding
pub mod Lookup
pub mod Cleanup
use e_pem.Prelude.{
  ℕ, String, Bool, true, false, Option, none, some, List, [], ◌∷◌, ◌++◌, ◌==◌, nat_eq,
  if◌then◌else◌,
}
use e_pem.Result.{Error, Result, ok, err, value_error, attribute_error, pdu_provider_exception}
use e_pem.Exec.{Exec, ◌>>=◌, ◌>>◌, pure, raise, reads, lift, modify}
use e_pem.PyList.{contains, select, remove_first}
use e_pem.Network.{PduModel, PduType}
use e_pem.TopologyModel.{TopologyModel}
use e_pem.Topology.{Topology, build_topology}
use e_pem.Topology.Pdus.{upd_pdu}

-- `db` is the stored topology, from which every call builds its own object, and `saved` is what
-- `save_to_db` stored of the provider's data.
pub record PduProvider : Type 0 where
  pub blueprint_id : String
  pub locked_pdus : List PduModel
  pub saved : List PduModel
  pub db : Option TopologyModel

-- build_topology().get_pdus()
unfoldable pub get_pdus : PduProvider → Result (List PduModel)
get_pdus self = elim self.db [ none ↦ err attribute_error | some m ↦ ok m.pdus ]

abbrev pub same_type : PduType → PduType → Bool
same_type PduType.linux PduType.linux = true
same_type PduType.gnb PduType.gnb = true
same_type PduType.lwgateway PduType.lwgateway = true
same_type PduType.ru PduType.ru = true
same_type PduType.cudu PduType.cudu = true
same_type PduType.core5g PduType.core5g = true
same_type _ _ = false

-- `if value:` on an optional string, and the filter that it guards
unfoldable pub filter_if : Option String → (PduModel → String) → List PduModel → List PduModel
filter_if none key pdus = pdus
filter_if (some value) key pdus = if value == "" then pdus else select (λ x. key x == value) pdus

-- the PDUs that find_pdu is left with
unfoldable pub matching :
    ℕ → PduType → Option String → Option String → List PduModel → List PduModel
unfolding filter_if
matching area pdu_type instance_type name all_pdus =
    filter_if name (λ x. x.name)
      (filter_if instance_type (λ x. x.instance_type)
        (select (λ x. same_type x.type pdu_type) (select (λ x. nat_eq x.area area) all_pdus)))

unfoldable pub the_only : List PduModel → Result PduModel
the_only [] = err pdu_provider_exception
the_only (x ∷ []) = ok x
the_only (x ∷ y ∷ ys) = err pdu_provider_exception

unfoldable pub find_pdu : ℕ → PduType → Option String → Option String → Exec PduProvider PduModel
unfolding get_pdus matching the_only reads lift
find_pdu area pdu_type instance_type name = do
  all_pdus ← reads get_pdus
  lift (the_only (matching area pdu_type instance_type name all_pdus))

unfoldable pub head_of : List PduModel → Result PduModel
head_of [] = err pdu_provider_exception
head_of (x ∷ xs) = ok x

unfoldable pub find_by_name : String → Exec PduProvider PduModel
unfolding get_pdus head_of reads lift
find_by_name name = do
  all_pdus ← reads get_pdus
  lift (head_of (select (λ x. x.name == name) all_pdus))

unfoldable pub is_pdu_locked : PduModel → Bool
is_pdu_locked pdu_model = elim pdu_model.locked_by [ none ↦ false | some b ↦ true ]

unfoldable pub is_pdu_locked_by_current_blueprint : PduModel → PduProvider → Bool
is_pdu_locked_by_current_blueprint pdu_model self = elim pdu_model.locked_by [
  | none ↦ false
  | some b ↦ b == self.blueprint_id
]

-- build_topology().upd_pdu(pdu_model), where Redis takes the event
unfoldable pub store_pdu : PduModel → Exec PduProvider (Unit {0})
unfolding upd_pdu build_topology
store_pdu pdu_model self =
    let (r, topology) = upd_pdu pdu_model (build_topology (λ type dump. true) self.db) in
    (r, record self { db = topology.db })

unfoldable pub save_to_db : Exec PduProvider (Unit {0})
unfolding modify
save_to_db = modify (λ self. record self { saved = self.locked_pdus })

-- The PDU comes back as the method leaves it: the source changes its argument in place.
unfoldable pub lock_pdu : PduModel → Exec PduProvider PduModel
unfolding is_pdu_locked raise reads modify store_pdu save_to_db pure
lock_pdu pdu_model = if is_pdu_locked pdu_model then raise pdu_provider_exception else (do
  blueprint_id ← reads (λ self. ok self.blueprint_id)
  let locked : PduModel = record pdu_model { locked_by = some blueprint_id }
  modify (λ self. record self { locked_pdus = self.locked_pdus ++ locked ∷ [] })
  store_pdu locked
  save_to_db
  pure locked)

-- self.data.locked_pdus.remove(pdu_model): PDUs are equal when their names are.
unfoldable pub forget_pdu : PduModel → Exec PduProvider (Unit {0})
forget_pdu pdu_model self =
    if contains (λ x. x.name == pdu_model.name) self.locked_pdus
    then (
      ok tt,
      record self { locked_pdus = remove_first (λ x. x.name == pdu_model.name) self.locked_pdus },
    )
    else (err value_error, self)

unfoldable pub unlock_pdu : PduModel → Exec PduProvider PduModel
unfolding is_pdu_locked_by_current_blueprint raise reads forget_pdu store_pdu save_to_db pure
unlock_pdu pdu_model = do
  own ← reads (λ self. ok (is_pdu_locked_by_current_blueprint pdu_model self))
  if own
      then (do
        let unlocked : PduModel = record pdu_model { locked_by = none }
        forget_pdu unlocked
        store_pdu unlocked
        save_to_db
        pure unlocked)
      else raise pdu_provider_exception

-- One turn of the loop of final_cleanup: an exception is logged.
unfoldable pub cleanup_pdu : PduModel → Exec PduProvider (Unit {0})
unfolding find_by_name unlock_pdu
cleanup_pdu pdu_to_unlock self =
    let (r, after) = (find_by_name pdu_to_unlock.name >>= unlock_pdu) self in (ok tt, after)

unfoldable pub cleanup_all : List PduModel → Exec PduProvider (Unit {0})
unfolding cleanup_pdu pure
cleanup_all [] = pure tt
cleanup_all (p ∷ ps) = do cleanup_pdu p; cleanup_all ps

-- The loop is over a copy of the list.
unfoldable pub final_cleanup : Exec PduProvider (Unit {0})
unfolding reads cleanup_all save_to_db
final_cleanup = do pdus ← reads (λ self. ok self.locked_pdus); cleanup_all pdus; save_to_db

-- `get_implementation` stands for the PDU manager and the class that it names.
unfoldable pub get_pdu_configurator :
    {C : Type 0} → (PduModel → Result C) → PduModel → Exec PduProvider C
unfolding is_pdu_locked_by_current_blueprint reads lift raise
get_pdu_configurator get_implementation pdu_model = do
  own ← reads (λ self. ok (is_pdu_locked_by_current_blueprint pdu_model self))
  if own then lift (get_implementation pdu_model) else raise pdu_provider_exception
