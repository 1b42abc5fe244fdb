-- ===== src/PduProvider/Finding.antt =====
-- blueprints_ng/providers/pdu/pdu_provider.py, `find_pdu`: the filters against one test.
use e_pem.Prelude.{
  ℕ, String, ◌≡◌, refl, ap, ◌∙◌, Bool, true, ◌&&◌, ◌||◌, Option, none, some, List, [], ◌∷◌, ◌==◌,
  nat_eq, Bool-cases, inl, inr, arith, if◌then◌else◌,
}
use e_pem.Result.{Result, err, pdu_provider_exception}
use e_pem.Exec.{◌>>=◌, reads, lift}
use e_pem.PyList.{select, length, get_at}
use e_pem.Network.{PduModel, PduType}
use e_pem.TopologyModel.{TopologyModel}
use e_pem.PduProvider.{PduProvider, get_pdus, same_type, filter_if, matching, the_only, find_pdu}

select-select :
    {A : Type 0} (p q : A → Bool) (l : List A) → select p (select q l) ≡ select (λ x. q x && p x) l
unfolding select
select-select p q [] = refl
select-select p q (x ∷ xs) = elim (Bool-cases (q x)) [
  | inl e ↦ rw (e, select-select p q xs) refl
  | inr e ↦ rw (e, select-select p q xs) refl
]

-- a criterion that is not given, or is empty, asks for nothing
abbrev pub asks : Option String → String → Bool
asks none value = true
asks (some wanted) value = wanted == "" || value == wanted

-- the area, the type, the instance type and the name at once
abbrev pub fits : ℕ → PduType → Option String → Option String → PduModel → Bool
fits area pdu_type instance_type name x =
    ((nat_eq x.area area && same_type x.type pdu_type) && asks instance_type x.instance_type)
    && asks name x.name

select-true : {A : Type 0} (l : List A) → select (λ x. true) l ≡ l
unfolding select
select-true [] = refl
select-true (x ∷ xs) = ap (λ l. x ∷ l) (select-true xs)

filter_if-asks :
    (wanted : Option String) (key : PduModel → String) (l : List PduModel)
    → filter_if wanted key l ≡ select (λ x. asks wanted (key x)) l
unfolding filter_if
filter_if-asks none key l = rw (select-true l) refl
filter_if-asks (some w) key l = elim (Bool-cases (w == "")) [
  | inl e ↦ rw (e, select-true l) refl
  | inr e ↦ rw e refl
]

-- the item of a list that has just one
abbrev pub single : List PduModel → Result PduModel
single l = if nat_eq (length l) 1 then get_at l 0 else err pdu_provider_exception

the_only-single : (l : List PduModel) → the_only l ≡ single l
unfolding the_only get_at
the_only-single [] = refl
the_only-single (x ∷ []) = refl
the_only-single (x ∷ y ∷ l) = ground arith

find_pdu-matching :
    (area : ℕ) (pdu_type : PduType) (instance_type name : Option String) (self : PduProvider)
    (m : TopologyModel)
    → self.db ≡ some m
    → find_pdu area pdu_type instance_type name self
      ≡ (the_only (select (fits area pdu_type instance_type name) m.pdus), self)
unfolding find_pdu get_pdus matching reads lift ◌>>=◌
find_pdu-matching area pdu_type instance_type name self m e =
    rw
      (
        e,
        filter_if-asks instance_type (λ x. x.instance_type),
        filter_if-asks name (λ x. x.name),
        select-select (λ x. same_type x.type pdu_type) (λ x. nat_eq x.area area) m.pdus,
        select-select (λ x. asks instance_type x.instance_type)
            (λ x. nat_eq x.area area && same_type x.type pdu_type) m.pdus,
        select-select (λ x. asks name x.name)
            (λ x.
              (nat_eq x.area area && same_type x.type pdu_type)
              && asks instance_type x.instance_type)
            m.pdus,
      )
      refl

-- find_pdu returns the one stored PDU that meets all criteria that are given, and raises
-- PDUProviderException where none does or several do. A topology must be stored.
pub find_pdu-fits :
    (area : ℕ) (pdu_type : PduType) (instance_type name : Option String) (self : PduProvider)
    (m : TopologyModel)
    → self.db ≡ some m
    → find_pdu area pdu_type instance_type name self
      ≡ (single (select (fits area pdu_type instance_type name) m.pdus), self)
find_pdu-fits area pdu_type instance_type name self m e =
    find_pdu-matching area pdu_type instance_type name self m e
    ∙ ap (λ r. (r, self)) (the_only-single (select (fits area pdu_type instance_type name) m.pdus))
