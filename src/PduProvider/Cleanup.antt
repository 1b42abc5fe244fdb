-- ===== src/PduProvider/Cleanup.antt =====
-- blueprints_ng/providers/pdu/pdu_provider.py, `final_cleanup`: which PDUs it frees.
use e_pem.Prelude.{
  String, ◌≡◌, refl, sym, subst, Bool, true, false, ◌⊎◌, Option, none, some, List, [], ◌∷◌, ◌==◌,
  arith, eq_iff, eq_refl, if◌then◌else◌, Bool-cases, Option-cases, inl, inr,
}
use e_pem.Result.{ok, err, pdu_provider_exception}
use e_pem.Exec.{◌>>=◌, pure, raise, reads, modify}
use e_pem.PyList.{All, contains, remove_first}
use e_pem.PyList.Everywhere.{All-imp}
use e_pem.Network.{PduModel}
use e_pem.PduProvider.{
  PduProvider, find_by_name, is_pdu_locked_by_current_blueprint, unlock_pdu, cleanup_pdu,
  cleanup_all, final_cleanup, save_to_db,
}
use e_pem.PduProvider.Locking.{stored, find_by_name-stored, unlock_pdu-unlocks}
use e_pem.PduProvider.Lookup.{find_by_name-absent, stored-name}

abbrev pub is_held : String → PduModel → Bool
is_held blueprint_id pdu = elim pdu.locked_by [ none ↦ false | some b ↦ b == blueprint_id ]

-- a stored PDU that is freed, if it is one of those meant and the blueprint holds it
abbrev pub freed : String → Bool → Option PduModel → Option PduModel
freed blueprint_id false pdu = pdu
freed blueprint_id true none = none
freed blueprint_id true (some pdu) =
    if is_held blueprint_id pdu then some (record pdu { locked_by = none }) else some pdu

abbrev pub knows : String → List PduModel → Bool
knows name = contains (λ x. x.name == name)

unlock-foreign :
    (self : PduProvider) (q : PduModel)
    → is_held self.blueprint_id q ≡ false
    → unlock_pdu q self ≡ (err pdu_provider_exception, self)
unfolding unlock_pdu is_pdu_locked_by_current_blueprint raise reads ◌>>=◌
unlock-foreign self q h = ground arith

knows-remove_first :
    (name other : String) (l : List PduModel)
    → (other == name) ≡ false
    → knows name l ≡ true
    → knows name (remove_first (λ x. x.name == other) l) ≡ true
unfolding contains remove_first
knows-remove_first name other [] h k = absurd (ground arith)
knows-remove_first name other (x ∷ xs) h k = ground (
  arith,
  knows-remove_first name other xs,
  eq_iff x.name other,
  eq_iff x.name name,
  eq_iff other name,
)

-- What one turn of the loop leaves.
record Turn (self after : PduProvider) (name : String) : Type 0 where
  pub frees :
      (j : String) → stored after.db j ≡ freed self.blueprint_id (name == j) (stored self.db j)
  pub same_blueprint : after.blueprint_id ≡ self.blueprint_id
  pub knows_others :
      (r : String)
      → (name == r) ≡ false
      → knows r self.locked_pdus ≡ true
      → knows r after.locked_pdus ≡ true

-- The provider has the PDU in its data, or there is nothing to free.
abbrev IsReady : PduProvider → String → Type 0
IsReady self name =
    (knows name self.locked_pdus ≡ true)
    ⊎ (freed self.blueprint_id true (stored self.db name) ≡ stored self.db name)

unchanged :
    (self : PduProvider) (name : String)
    → freed self.blueprint_id true (stored self.db name) ≡ stored self.db name
    → Turn self self name
unchanged self name h = record {
  frees = λ j. elim (Bool-cases (name == j)) [
    | inr e ↦ rw e refl
    | inl e ↦
        let same : name ≡ j = ground (arith, eq_iff name j) in
        rw e (
          subst (λ k. stored self.db k ≡ freed self.blueprint_id true (stored self.db k)) same
            (sym h))
  ];
  same_blueprint = refl;
  knows_others = λ r e h. h;
}

held-by :
    (blueprint_id : String) (q : PduModel)
    → is_held blueprint_id q ≡ true
    → q.locked_by ≡ some blueprint_id
held-by blueprint_id q h = elim (Option-cases q.locked_by) [
  | inl e ↦ absurd (ground arith)
  | inr (b, e) ↦ ground (arith, eq_iff b blueprint_id)
]

freeing :
    (self : PduProvider) (p q : PduModel)
    → is_held self.blueprint_id q ≡ true
    → stored self.db p.name ≡ some q
    → q.name ≡ p.name
    → knows p.name self.locked_pdus ≡ true
    → find_by_name p.name self ≡ (ok q, self)
    → (after : PduProvider) × (cleanup_pdu p self ≡ (ok tt, after)) × Turn self after p.name
unfolding cleanup_pdu ◌>>=◌
freeing self p q own there named known found =
    let (after, ran, written, changed) =
      unlock_pdu-unlocks self q q (held-by self.blueprint_id q own)
        (subst (λ n. stored self.db n ≡ some q) (sym named) there)
        (subst (λ n. knows n self.locked_pdus ≡ true) (sym named) known) in
    (
      after,
      ground (arith, found, ran),
      record {
        frees = λ j. elim (Bool-cases (p.name == j)) [
          | inl e ↦
              let same : p.name ≡ j = ground (arith, eq_iff p.name j) in
              let now : stored after.db j ≡ some (record q { locked_by = none }) =
                subst (λ n. stored after.db n ≡ some (record q { locked_by = none })) (ground arith)
                  written.own in
              let before = subst (λ n. stored self.db n ≡ some q) same there in
              rw (e, now, before, own) refl
          | inr e ↦ rw e (written.others j (rw named e))
        ];
        same_blueprint = changed.same_blueprint;
        knows_others = λ r e k.
            rw (changed.locked_pdus) (rw named (knows-remove_first r p.name self.locked_pdus e k));
      },
    )

cleanup_pdu-Turn :
    (self : PduProvider) (p : PduModel)
    → IsReady self p.name
    → (after : PduProvider) × (cleanup_pdu p self ≡ (ok tt, after)) × Turn self after p.name
unfolding cleanup_pdu ◌>>=◌
cleanup_pdu-Turn self p ready = elim (Option-cases (stored self.db p.name)) [
  | inl absent ↦
      let (x, missing) = find_by_name-absent self self.db p.name refl absent in
      (self, ground (arith, missing), unchanged self p.name (ground arith))
  | inr (q, there) ↦
      let found = find_by_name-stored self self.db p.name q refl there in
      let named = stored-name self.db p.name q there in
      elim (Bool-cases (is_held self.blueprint_id q)) [
        | inr foreign ↦ (
          self,
          ground (arith, found, unlock-foreign self q foreign),
          unchanged self p.name (ground arith),
        )
        | inl own ↦
            freeing self p q own there named
              (elim ready [ inl k ↦ k | inr nothing ↦ absurd (ground arith) ]) found
      ]
]

freed-freed :
    (blueprint_id : String) (a b : Bool) (o : Option PduModel)
    → freed blueprint_id a (freed blueprint_id b o) ≡ freed blueprint_id (if b then true else a) o
freed-freed blueprint_id a false o = refl
freed-freed blueprint_id false true o = refl
freed-freed blueprint_id true true none = refl
freed-freed blueprint_id true true (some q) = elim (Bool-cases (is_held blueprint_id q)) [
  | inl e ↦ rw e refl
  | inr e ↦ rw (e, e) refl
]

still-IsReady :
    (self middle : PduProvider) (name : String)
    → Turn self middle name
    → (r : String) → IsReady self r
    → IsReady middle r
still-IsReady self middle name turn r ready = elim (Bool-cases (name == r)) [
  | inl e ↦ inr (
      rw (turn.same_blueprint, turn.frees r, e)
        (freed-freed self.blueprint_id true true (stored self.db r)))
  | inr e ↦ elim ready [
    | inl k ↦ inl (turn.knows_others r e k)
    | inr h ↦ inr (rw (turn.same_blueprint, turn.frees r, e) h)
  ]
]

cleanup_all-frees :
    (ps : List PduModel) (self : PduProvider)
    → All (λ p. IsReady self p.name) ps
    → (after : PduProvider) × (cleanup_all ps self ≡ (ok tt, after))
      × ((j : String) → stored after.db j ≡ freed self.blueprint_id (knows j ps) (stored self.db j))
unfolding cleanup_all contains pure ◌>>=◌
cleanup_all-frees [] self ready = (self, refl, λ j. refl)
cleanup_all-frees (p ∷ ps) self ready =
    let (middle, ran, turn) = cleanup_pdu-Turn self p ready.0 in
    let (after, rest, frees) =
      cleanup_all-frees ps middle
        (All-imp _ _ ps (λ r h. still-IsReady self middle p.name turn r.name h) ready.1) in
    (
      after,
      ground (arith, ran, rest),
      λ j.
          rw (frees j, turn.same_blueprint, turn.frees j)
            (freed-freed self.blueprint_id (knows j ps) (p.name == j) (stored self.db j)),
    )

all_known : (l : List PduModel) → All (λ p. knows p.name l ≡ true) l
unfolding contains
all_known [] = tt
all_known (x ∷ xs) =
    (ground (arith, eq_refl x.name), All-imp _ _ xs (λ p h. ground (arith, h)) (all_known xs))

-- The final cleanup frees every PDU that the blueprint holds and has in its data, whatever happens in
-- between, and changes no other PDU of the topology.
pub final_cleanup-frees :
    (self : PduProvider) (j : String)
    → (after : PduProvider) × (final_cleanup self ≡ (ok tt, after))
      × (stored after.db j ≡ freed self.blueprint_id (knows j self.locked_pdus) (stored self.db j))
unfolding final_cleanup reads save_to_db modify ◌>>=◌
final_cleanup-frees self j =
    let (middle, ran, frees) =
      cleanup_all-frees self.locked_pdus self
        (All-imp _ _ self.locked_pdus (λ p h. inl h) (all_known self.locked_pdus)) in
    (record middle { saved = middle.locked_pdus }, ground (arith, ran), frees j)
