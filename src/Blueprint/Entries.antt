-- ===== src/Blueprint/Entries.antt =====
-- Tables of registered resources: what a loop over one registers, and which keys it meets.
use e_pem.Prelude.{
  ℕ, String, ◌≡◌, refl, sym, subst, Bool, true, false, ◌&&◌, ◌||◌, some, List, [], ◌∷◌, ◌++◌, ◌==◌,
  arith, eq_iff, Bool-cases, inl, inr, if◌then◌else◌,
}
use e_pem.PyList.{All, select}
use e_pem.PyDict.{has, put, IsDict}
use e_pem.Resources.{Resource, ResourceValue, deployed_in}
use e_pem.Blueprint.{BlueprintNgBaseModel, area_served}
use e_pem.Blueprint.Loading.{is_deployable}

-- Every resource has its key for its identifier, and the identifier is not empty.
abbrev pub HasIds : List (String × Resource) → Type 0
HasIds l = All (λ e. (e.1.id ≡ some e.0) × ((e.0 == "") ≡ false)) l

abbrev pub deployables : Bool → Bool
deployables deployable = deployable

abbrev pub others : Bool → Bool
others deployable = if deployable then false else true

-- whether the areas of all resources have a VIM
unfoldable pub all_served : (has_vim : ℕ → Bool) → List (String × Resource) → Bool
unfolding area_served
all_served has_vim [] = true
all_served has_vim ((key, resource) ∷ rest) =
    area_served has_vim resource.value && all_served has_vim rest

-- the entries that one of the two loops registers
unfoldable pub wanted_of : (Bool → Bool) → List (String × Resource) → List (String × Resource)
unfolding select is_deployable
wanted_of wanted l = select (λ e. wanted (is_deployable e.1.value)) l

pub put_absent :
    (key : String) (r : Resource) (d : List (String × Resource))
    → has key d ≡ false
    → put key r d ≡ d ++ (key, r) ∷ []
unfolding has put
put_absent key r [] h = refl
put_absent key r ((k, v) ∷ d) h = ground (arith, put_absent key r d)

-- None of the keys that a loop registers is in `d`.
abbrev pub Fresh : (Bool → Bool) → List (String × Resource) → List (String × Resource) → Type 0
Fresh wanted d l = All (λ e. wanted (is_deployable e.1.value) ≡ true → has e.0 d ≡ false) l

-- One more key that is not among those of `l` leaves them new.
pub Fresh-more :
    (wanted : Bool → Bool) (key : String) (d d' l : List (String × Resource))
    → ((j : String) → has j d' ≡ (key == j || has j d))
    → has key l ≡ false
    → Fresh wanted d l
    → Fresh wanted d' l
unfolding has
Fresh-more wanted key d d' [] more h f = tt
Fresh-more wanted key d d' ((k, v) ∷ l) more h f = (
  λ w. ground (arith, more k, f.0 w, eq_iff key k, eq_iff k key),
  Fresh-more wanted key d d' l more (ground arith) f.1,
)

-- what is not deployable needs no area
pub served_unless_deployable :
    (has_vim : ℕ → Bool) (value : ResourceValue)
    → area_served has_vim value ≡ false
    → is_deployable value ≡ true
unfolding area_served is_deployable deployed_in
served_unless_deployable has_vim value h = ground arith

pub not_deployable :
    (value : ResourceValue) → others (is_deployable value) ≡ true → is_deployable value ≡ false
not_deployable value h = ground arith

pub wanted_of-cons :
    (wanted : Bool → Bool) (key : String) (r : Resource) (l : List (String × Resource))
    → wanted_of wanted ((key, r) ∷ l) ≡ (
        if wanted (is_deployable r.value)
        then (key, r) ∷ wanted_of wanted l
        else wanted_of wanted l)
unfolding wanted_of
wanted_of-cons wanted key r l = refl

abbrev pub with_resources : BlueprintNgBaseModel → List (String × Resource) → BlueprintNgBaseModel
with_resources b resources = record b { registered_resources = resources }

pub has-wanted_of :
    (wanted : Bool → Bool) (j : String) (l : List (String × Resource))
    → has j l ≡ false
    → has j (wanted_of wanted l) ≡ false
unfolding has wanted_of select
has-wanted_of wanted j [] h = refl
has-wanted_of wanted j ((k, r) ∷ l) h = ground (arith, has-wanted_of wanted j l)

-- The second loop meets none of the keys of the first.
pub others-Fresh :
    (l : List (String × Resource)) → IsDict l → Fresh others (wanted_of deployables l) l
unfolding has
others-Fresh [] d = tt
others-Fresh ((k, r) ∷ l) d = (
  λ w.
      rw (wanted_of-cons deployables k r l, not_deployable r.value w)
        (has-wanted_of deployables k l d.0),
  subst (λ x. Fresh others x l) (sym (wanted_of-cons deployables k r l))
      (elim (Bool-cases (is_deployable r.value)) [
        | inl w ↦
            subst
              (λ c.
                Fresh others
                  (if c then (k, r) ∷ wanted_of deployables l else wanted_of deployables l) l)
              (sym w)
              (Fresh-more others k (wanted_of deployables l) ((k, r) ∷ wanted_of deployables l) l
                (λ j. refl) d.0 (others-Fresh l d.1))
        | inr w ↦
            subst
              (λ c.
                Fresh others
                  (if c then (k, r) ∷ wanted_of deployables l else wanted_of deployables l) l)
              (sym w) (others-Fresh l d.1)
      ]),
)

pub all_new : (l : List (String × Resource)) → Fresh deployables [] l
unfolding has
all_new [] = tt
all_new (e ∷ l) = (λ w. refl, all_new l)
