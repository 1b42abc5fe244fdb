-- ===== src/BlueprintManager/Coherence.antt =====
-- The manager's tables fit together: an identifier leads to a worker of that blueprint, and a document
-- has the identifier that it is stored under.
use e_pem.Prelude.{
  ℕ, zero, suc, String, ◌≡◌, refl, some, List, [], ◌∷◌, ◌++◌, ◌==◌, arith, eq_iff, Bool-cases, inl,
  inr,
}
use e_pem.Result.{ok}
use e_pem.PyList.{length, get_at, update_at}
use e_pem.PyDict.{lookup, has, drop_key, IsDict, has-lookup}
use e_pem.Blueprint.{BlueprintNgBaseModel, serialize_content}
use e_pem.BlueprintManager.{Worker, BlueprintManager}

module _ {ℓ} {A : Type ℓ} where
  pub get_at-append :
      (l : List A) (x : A) (i : ℕ) (a : A) → get_at l i ≡ ok a → get_at (l ++ x ∷ []) i ≡ ok a
  unfolding get_at
  get_at-append [] x i a h = absurd (ground arith)
  get_at-append (y ∷ l) x zero a h = h
  get_at-append (y ∷ l) x (suc i) a h = get_at-append l x i a h

  pub get_at-length : (l : List A) (x : A) → get_at (l ++ x ∷ []) (length l) ≡ ok x
  unfolding get_at
  get_at-length [] x = refl
  get_at-length (y ∷ l) x = get_at-length l x

  -- A change at one place keeps what it keeps of that item.
  pub get_at-update_at :
      {K : Type 0} (key : A → K) (l : List A) (i j : ℕ) (f : A → A) (a : A)
      → ((x : A) → key (f x) ≡ key x)
      → get_at l i ≡ ok a
      → (b : A) × (get_at (update_at l j f) i ≡ ok b) × (key b ≡ key a)
  unfolding get_at update_at
  get_at-update_at key [] i j f a k h = absurd (ground arith)
  get_at-update_at key (x ∷ l) zero zero f a k h = (f a, ground arith, k a)
  get_at-update_at key (x ∷ l) zero (suc j) f a k h = (a, h, refl)
  get_at-update_at key (x ∷ l) (suc i) zero f a k h = (a, h, refl)
  get_at-update_at key (x ∷ l) (suc i) (suc j) f a k h = get_at-update_at key l i j f a k h

  pub lookup-drop_other :
      (j key : String) (d : List (String × A)) (v : A)
      → IsDict d
      → lookup j (drop_key key d) ≡ some v
      → lookup j d ≡ some v
  unfolding lookup drop_key has
  lookup-drop_other j key [] v u h = h
  lookup-drop_other j key ((k, w) ∷ d) v u h = elim (Bool-cases (k == key)) [
    | inl e ↦ ground (arith, eq_iff k j, has-lookup j d v)
    | inr e ↦ ground (arith, lookup-drop_other j key d v)
  ]

pub record IsCoherent {M : Type 0} (self : BlueprintManager M) : Type 0 where
  pub unique : IsDict self.worker_collection
  pub placed :
      (id : String) (i : ℕ)
      → lookup id self.worker_collection ≡ some i
      → (w : Worker M) × (get_at self.workers i ≡ ok w) × (w.blueprint.id ≡ id)
  pub documents_unique : IsDict self.documents
  pub named :
      (id : String) (b : BlueprintNgBaseModel) → lookup id self.documents ≡ some b → b.id ≡ id

pub serialize_content_id : (b : BlueprintNgBaseModel) → (serialize_content b).id ≡ b.id
unfolding serialize_content
serialize_content_id b = ground arith
