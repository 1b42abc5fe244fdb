-- ===== src/Blueprint/Registration.antt =====
-- The table of registered resources has each identifier once, as the key of its resource.
use e_pem.Prelude.{
  ℕ, String, ◌≡◌, refl, sym, ap, Bool, false, some, List, [], ◌∷◌, ◌==◌, arith, eq_iff, Bool-cases,
  Option-cases, inl, inr, if◌then◌else◌,
}
use e_pem.Result.{ok, blueprint_exception}
use e_pem.Exec.{Exec, ◌>>=◌, ◌>>◌, pure, raise, reads, modify}
use e_pem.Exec.Rules.{Keeps, Keeps-bind, Keeps-if, Keeps-pure, Keeps-raise, Keeps-reads}
use e_pem.PyDict.{has, put, drop_key, IsDict, IsDict-put, IsDict-drop_key}
use e_pem.Resources.{Resource, ResourceValue}
use e_pem.Blueprint.{
  BlueprintNgBaseModel, given_id, insert_resource, register_resource, deregister_resource_by_id,
  deregister_resource, area_served,
}
use e_pem.Blueprint.Entries.{HasIds}

pub record IsRegistered (b : BlueprintNgBaseModel) : Type 0 where
  pub unique : IsDict b.registered_resources
  pub named : HasIds b.registered_resources

HasIds-put :
    (id : String) (value : ResourceValue) (l : List (String × Resource))
    → (id == "") ≡ false
    → HasIds l
    → HasIds (put id (record { id = some id; value = value }) l)
unfolding put
HasIds-put id value [] h n = ((refl, h), tt)
HasIds-put id value ((k, r) ∷ l) h n = elim (Bool-cases (k == id)) [
  | inl e ↦ rw e ((ap (λ x. some x) (sym ((eq_iff k id).0 e)), n.0.1), n.1)
  | inr e ↦ rw e (n.0, HasIds-put id value l h n.1)
]

HasIds-drop_key : (id : String) (l : List (String × Resource)) → HasIds l → HasIds (drop_key id l)
unfolding drop_key
HasIds-drop_key id [] n = tt
HasIds-drop_key id ((k, r) ∷ l) n = elim (Bool-cases (k == id)) [
  | inl e ↦ rw e n.1
  | inr e ↦ rw e (n.0, HasIds-drop_key id l n.1)
]

Keeps-insert :
    (has_vim : ℕ → Bool) (id : String) (r : Resource)
    → (id == "") ≡ false
    → Keeps IsRegistered (insert_resource has_vim id r)
unfolding insert_resource modify
Keeps-insert has_vim id r h =
    Keeps-if (area_served has_vim r.value) _ _
      (record {
        at = λ b c. record {
          unique = IsDict-put id _ b.registered_resources c.unique;
          named = HasIds-put id r.value b.registered_resources h c.named;
        };
      })
      (Keeps-raise _)

given : (r : Resource) (id : String) → given_id r ≡ some id → (id == "") ≡ false
unfolding given_id
given r id e = elim (Option-cases r.id) [
  | inl n ↦ absurd (ground (arith, e, n))
  | inr s ↦ elim (Bool-cases (s.0 == "")) [
    | inl empty ↦ absurd (ground (arith, e, s.1))
    | inr full ↦ ground (arith, e, s.1)
  ]
]

-- registering a resource that has its identifier
abbrev register_known : (has_vim : ℕ → Bool) → String → Resource → Exec BlueprintNgBaseModel String
register_known has_vim id resource = do
  known ← reads (λ self. ok (has id self.registered_resources))
  if known then raise blueprint_exception else do insert_resource has_vim id resource; pure id

Keeps-known :
    (has_vim : ℕ → Bool) (id : String) (r : Resource)
    → (id == "") ≡ false
    → Keeps IsRegistered (register_known has_vim id r)
Keeps-known has_vim id r h = Keeps-bind _ _ (Keeps-reads _) (λ known.
    Keeps-if known _ _ (Keeps-raise _)
      (Keeps-bind _ _ (Keeps-insert has_vim id r h) (λ a. Keeps-pure id)))

Keeps-register_resource :
    (has_vim : ℕ → Bool) (new_id : String) (r : Resource)
    → (new_id == "") ≡ false
    → Keeps IsRegistered (register_resource has_vim new_id r)
unfolding register_resource
Keeps-register_resource has_vim new_id r h = elim (Option-cases (given_id r)) [
  | inl e ↦
      rw (e, register_resource)
        (Keeps-bind _ _ (Keeps-insert has_vim new_id r h) (λ a. Keeps-pure new_id))
  | inr s ↦ rw (s.1, register_resource) (Keeps-known has_vim s.0 r (given r s.0 s.1))
]

Keeps-deregister_by_id : (id : String) → Keeps IsRegistered (deregister_resource_by_id id)
unfolding deregister_resource_by_id
Keeps-deregister_by_id id = record {
  at = λ b c. elim (Bool-cases (has id b.registered_resources)) [
    | inl e ↦ rw e (record {
      unique = IsDict-drop_key id b.registered_resources c.unique;
      named = HasIds-drop_key id b.registered_resources c.named;
    })
    | inr e ↦ rw e c
  ];
}

Keeps-deregister : (r : Resource) → Keeps IsRegistered (deregister_resource r)
unfolding deregister_resource
Keeps-deregister r = elim (Option-cases (given_id r)) [
  | inl e ↦ rw (e, deregister_resource) (Keeps-raise _)
  | inr s ↦ rw (s.1, deregister_resource) (Keeps-deregister_by_id s.0)
]

-- Registering and deregistering resources, with success or an exception, keeps the table of resources
-- as the database can load it: each identifier once, not empty, and as the key of its resource. The
-- identifiers that uuid4() gives must not be empty.
pub resources-IsRegistered :
    (has_vim : ℕ → Bool) (new_id id : String) (r : Resource) (b : BlueprintNgBaseModel)
    → (new_id == "") ≡ false
    → IsRegistered b
    → IsRegistered (register_resource has_vim new_id r b).1
      × IsRegistered (deregister_resource r b).1
      × IsRegistered (deregister_resource_by_id id b).1
resources-IsRegistered has_vim new_id id r b h c = (
  (Keeps-register_resource has_vim new_id r h).at b c,
  (Keeps-deregister r).at b c,
  (Keeps-deregister_by_id id).at b c,
)
