-- ===== src/PduProvider/Locking.antt =====
-- blueprints_ng/providers/pdu/pdu_provider.py: who holds a PDU.
use e_pem.Prelude.{
  String, ◌≡◌, ◌≢◌, refl, Bool, true, false, Option, none, some, List, [], ◌∷◌, ◌++◌, ◌==◌, arith,
  inl, inr, eq_refl, eq_iff, Bool-cases,
}
use e_pem.Result.{ok, err, pdu_provider_exception}
use e_pem.Exec.{◌>>=◌, pure, raise, reads, lift, modify}
use e_pem.PyList.{contains, select, remove_first, find_first}
use e_pem.PyList.Keyed.{view}
use e_pem.Network.{PduModel}
use e_pem.TopologyModel.{TopologyModel}
use e_pem.TopologyModel.Contracts.{pdus-IsRegistry}
use e_pem.Topology.{
  build_topology, locked, acquire, release, on_model, save_topology_from_model, trigger_redis_event,
}
use e_pem.Topology.Pdus.{upd_pdu}
use e_pem.PduProvider.{
  PduProvider, get_pdus, head_of, find_by_name, is_pdu_locked, is_pdu_locked_by_current_blueprint,
  store_pdu, save_to_db, lock_pdu, forget_pdu, unlock_pdu,
}

-- The stored PDU with a name.
abbrev pub stored : Option TopologyModel → String → Option PduModel
stored none name = none
stored (some m) name = view (λ p. p.name) m.pdus name

-- `pdu` is written in the place of the stored PDU with its name.
pub record IsWritten (before after : Option TopologyModel) (pdu : PduModel) : Type 0 where
  pub own : stored after pdu.name ≡ some pdu
  pub others : (j : String) → (pdu.name == j) ≡ false → stored after j ≡ stored before j

store_pdu-into :
    (self : PduProvider) (db : Option TopologyModel) (pdu old : PduModel)
    → stored db pdu.name ≡ some old
    → (after : PduProvider) × (store_pdu pdu (record self { db = db }) ≡ (ok tt, after))
      × (after ≡ record self { db = after.db })
      × IsWritten db after.db pdu
unfolding store_pdu upd_pdu build_topology locked acquire release on_model save_topology_from_model
    trigger_redis_event modify ◌>>=◌
store_pdu-into self none pdu old h = absurd (ground arith)
store_pdu-into self (some m) pdu old h =
    let (pdus, ran, views, keeps) = pdus-IsRegistry.upd_present pdu old m h in
    (
      record self { db = some (record m { pdus = pdus }) },
      ground arith,
      refl,
      record {
        own = ground (arith, views pdu.name, eq_refl pdu.name);
        others = λ j other. ground (arith, views j);
      },
    )

store_pdu-IsWritten :
    (self : PduProvider) (pdu old : PduModel)
    → stored self.db pdu.name ≡ some old
    → (after : PduProvider) × (store_pdu pdu self ≡ (ok tt, after))
      × (after ≡ record self { db = after.db })
      × IsWritten self.db after.db pdu
store_pdu-IsWritten self pdu old h = store_pdu-into self self.db pdu old h

-- What a call leaves beside the topology.
pub record Changed (before after : PduProvider) (pdus : List PduModel) : Type 0 where
  pub same_blueprint : after.blueprint_id ≡ before.blueprint_id
  pub locked_pdus : after.locked_pdus ≡ pdus
  pub saved : after.saved ≡ pdus

-- Locking a PDU that is not locked returns it with the blueprint as its holder, writes that in the
-- place of the stored PDU of that name and touches no other PDU, and records it in the provider's
-- data, which is saved. The test is on the argument: a PDU of that name must be stored, whoever holds
-- that one.
pub lock_pdu-locks :
    (self : PduProvider) (pdu old : PduModel)
    → pdu.locked_by ≡ none
    → stored self.db pdu.name ≡ some old
    → (after : PduProvider) × (locked : PduModel) × (locked
        ≡ record pdu { locked_by = some self.blueprint_id })
      × (lock_pdu pdu self ≡ (ok locked, after))
      × IsWritten self.db after.db locked
      × Changed self after (self.locked_pdus ++ locked ∷ [])
unfolding lock_pdu is_pdu_locked reads modify save_to_db pure raise ◌>>=◌
lock_pdu-locks self pdu old free present =
    let mine : PduModel = record pdu { locked_by = some self.blueprint_id } in
    let (after, ran, same, written) =
      store_pdu-IsWritten (record self { locked_pdus = self.locked_pdus ++ mine ∷ [] }) mine old
        present in
    (
      record after { saved = after.locked_pdus },
      mine,
      refl,
      ground arith,
      written,
      record { same_blueprint = ground arith; locked_pdus = ground arith; saved = ground arith },
    )

-- A PDU that another blueprint holds is neither locked nor unlocked: both raise PDUProviderException
-- and change nothing.
pub held-IsProtected :
    (self : PduProvider) (pdu : PduModel) (holder : String)
    → pdu.locked_by ≡ some holder
    → holder ≢ self.blueprint_id
    → (lock_pdu pdu self ≡ (err pdu_provider_exception, self))
      × (unlock_pdu pdu self ≡ (err pdu_provider_exception, self))
unfolding lock_pdu is_pdu_locked unlock_pdu is_pdu_locked_by_current_blueprint raise reads ◌>>=◌
held-IsProtected self pdu holder h other =
    (ground arith, ground (arith, eq_iff holder self.blueprint_id, other))

head-select :
    {A : Type 0} (p : A → Bool) (l : List A) (x : A)
    → find_first p l ≡ some x
    → (xs : List A) × (select p l ≡ x ∷ xs)
unfolding find_first select
head-select p [] x e = absurd (ground arith)
head-select p (y ∷ ys) x e = elim (Bool-cases (p y)) [
  | inl yes_y ↦ (select p ys, ground arith)
  | inr no_y ↦ let (xs, found) = head-select p ys x (ground arith) in (xs, ground arith)
]

-- find_by_name gives the stored PDU.
pub find_by_name-stored :
    (self : PduProvider) (db : Option TopologyModel) (name : String) (pdu : PduModel)
    → self.db ≡ db
    → stored db name ≡ some pdu
    → find_by_name name self ≡ (ok pdu, self)
unfolding find_by_name get_pdus head_of reads lift ◌>>=◌
find_by_name-stored self none name pdu e h = absurd (ground arith)
find_by_name-stored self (some m) name pdu e h =
    let (xs, found) = head-select (λ p. p.name == name) m.pdus pdu h in ground (arith, found)

-- A blueprint that locks a free PDU excludes all others: where another blueprint looks the PDU up by
-- its name afterwards, whatever its own data, locking and unlocking what it finds raise
-- PDUProviderException and change nothing.
pub lock_pdu-excludes :
    (self other : PduProvider) (pdu old : PduModel)
    → pdu.locked_by ≡ none
    → stored self.db pdu.name ≡ some old
    → other.db ≡ (lock_pdu pdu self).1.db
    → self.blueprint_id ≢ other.blueprint_id
    → ((find_by_name pdu.name >>= lock_pdu) other ≡ (err pdu_provider_exception, other))
      × ((find_by_name pdu.name >>= unlock_pdu) other ≡ (err pdu_provider_exception, other))
unfolding ◌>>=◌
lock_pdu-excludes self other pdu old free present shared different =
    let (after, locked, is, ran, written, changed) = lock_pdu-locks self pdu old free present in
    let found : find_by_name pdu.name other ≡ (ok locked, other) =
      find_by_name-stored other after.db pdu.name locked (ground arith)
        (ground (arith, written.own)) in
    let (again, foreign) =
      held-IsProtected other locked self.blueprint_id (ground arith) different in
    (ground (arith, found, again), ground (arith, found, foreign))

view-remove_appended :
    (l : List PduModel) (p : PduModel)
    → contains (λ x. x.name == p.name) l ≡ false
    → (contains (λ x. x.name == p.name) (l ++ p ∷ []) ≡ true)
      × (remove_first (λ x. x.name == p.name) (l ++ p ∷ []) ≡ l)
unfolding contains remove_first
view-remove_appended [] p h = (ground (arith, eq_refl p.name), ground (arith, eq_refl p.name))
view-remove_appended (x ∷ xs) p h =
    let (there, gone) = view-remove_appended xs p (ground arith) in (ground arith, ground arith)

-- Unlocking a PDU that the blueprint holds and has in its data writes it back without a holder.
pub unlock_pdu-unlocks :
    (self : PduProvider) (pdu old : PduModel)
    → pdu.locked_by ≡ some self.blueprint_id
    → stored self.db pdu.name ≡ some old
    → contains (λ x. x.name == pdu.name) self.locked_pdus ≡ true
    → (after : PduProvider) × (unlock_pdu pdu self ≡ (ok (record pdu { locked_by = none }), after))
      × IsWritten self.db after.db (record pdu { locked_by = none })
      × Changed self after (remove_first (λ x. x.name == pdu.name) self.locked_pdus)
unfolding unlock_pdu is_pdu_locked_by_current_blueprint forget_pdu save_to_db reads modify pure
    ◌>>=◌
unlock_pdu-unlocks self pdu old own present known =
    let rest : List PduModel = remove_first (λ x. x.name == pdu.name) self.locked_pdus in
    let (after, ran, same, written) =
      store_pdu-IsWritten (record self { locked_pdus = rest }) (record pdu { locked_by = none }) old
        present in
    (
      record after { saved = after.locked_pdus },
      ground (arith, eq_refl self.blueprint_id),
      written,
      record { same_blueprint = ground arith; locked_pdus = ground arith; saved = ground arith },
    )

-- Unlocking what was just locked gives back the PDU as it was, to the caller and in the topology, and
-- takes it off the provider's data. The provider must not have had a PDU of that name.
pub lock-unlock_pdu :
    (self : PduProvider) (pdu old : PduModel)
    → pdu.locked_by ≡ none
    → stored self.db pdu.name ≡ some old
    → contains (λ x. x.name == pdu.name) self.locked_pdus ≡ false
    → (after : PduProvider) × ((lock_pdu pdu >>= unlock_pdu) self ≡ (ok pdu, after))
      × IsWritten self.db after.db pdu
      × Changed self after self.locked_pdus
unfolding ◌>>=◌
lock-unlock_pdu self pdu old free present new =
    let (middle, mine, is, ran, first, kept) = lock_pdu-locks self pdu old free present in
    let (there, gone) = view-remove_appended self.locked_pdus mine (ground arith) in
    let (after, freed, second, left) =
      unlock_pdu-unlocks middle mine mine (ground (arith, kept.same_blueprint)) first.own
        (ground (arith, kept.locked_pdus)) in
    (
      after,
      ground arith,
      record {
        own = ground (arith, second.own);
        others = λ j other. ground (arith, second.others j, first.others j);
      },
      record {
        same_blueprint = ground (arith, left.same_blueprint, kept.same_blueprint);
        locked_pdus = ground (arith, left.locked_pdus, kept.locked_pdus);
        saved = ground (arith, left.saved, kept.locked_pdus);
      },
    )
