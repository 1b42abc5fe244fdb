-- ===== src/References/Loop.antt =====
-- The loop over the sorted paths is one recursion over the tree, from the leaves up.
use e_pem.Prelude.{
  String, ◌≡◌, refl, ap, ◌∙◌, subst, true, false, ◌||◌, List, [], ◌∷◌, ◌==◌, arith, eq_iff,
  Bool-cases, inl, inr, if◌then◌else◌,
}
use e_pem.Result.{Result, ok, err, ◌>>=◌}
use e_pem.References.{NodeClass, Value, Members, node, last, member, edit, edit_member, edit_all}
use e_pem.References.Paths.{behind, behind-cons}
use e_pem.References.Rewriting.{has_key, AllOnce}

abbrev pub AreKeysOnce : Members → Type 0
AreKeysOnce last = Unit
AreKeysOnce (member key value rest) = (has_key key rest ≡ false) × AreKeysOnce rest

pub AllOnce-keys : (ms : Members) → AllOnce ms → AreKeysOnce ms
unfolding AllOnce
AllOnce-keys last u = tt
AllOnce-keys (member key value rest) u = (u.0, AllOnce-keys rest u.2)

-- every path begins with a key of the members
abbrev pub BeginIn : Members → List (List String) → Type 0
BeginIn ms [] = Unit
BeginIn ms ([] ∷ l) = ⊥
BeginIn ms ((j ∷ p) ∷ l) = (has_key j ms ≡ true) × BeginIn ms l

-- a result that is a value comes from values
pub bind_ok_inv :
    {A B : Type 0} (m : Result A) (f : A → Result B) (b : B)
    → (m >>= f) ≡ ok b
    → (a : A) × (m ≡ ok a) × (f a ≡ ok b)
bind_ok_inv (ok a) f b h = (a, refl, h)
bind_ok_inv (err e) f b h = absurd (ground (arith, h))

module _ (f : Value → Result Value) where
  -- The paths change each member as those behind its key do.
  unfoldable pub Done : List (List String) → Members → Members → Type 0
  Done l last last = Unit
  Done l last (member k w rest) = ⊥
  Done l (member k v rest) last = ⊥
  Done l (member k v rest) (member j w others) =
      (k ≡ j) × (edit_all f (behind k l) v ≡ ok w) × Done l rest others

  Done-nil : (ms ns : Members) → Done [] ms ns → ms ≡ ns
  unfolding Done edit_all behind
  Done-nil last last d = refl
  Done-nil last (member k w rest) d = absurd d
  Done-nil (member k v rest) last d = absurd d
  Done-nil (member k v rest) (member j w others) d =
      let same = Done-nil rest others d.2 in ground (arith, d.0, d.1, same)

  -- A path behind another key does not matter.
  Done-other :
      (j : String) (p : List String) (l : List (List String)) (ms ns : Members)
      → has_key j ms ≡ false
      → Done ((j ∷ p) ∷ l) ms ns
      → Done l ms ns
  unfolding Done has_key
  Done-other j p l last last h d = tt
  Done-other j p l last (member k w rest) h d = absurd d
  Done-other j p l (member k v rest) last h d = absurd d
  Done-other j p l (member k v rest) (member i w others) h d =
      let e : (j == k) ≡ false = ground (arith, h, eq_iff j k, eq_iff k j) in
      (
        d.0,
        subst (λ b. edit_all f (if b then p ∷ behind k l else behind k l) v ≡ ok w) e
            (subst (λ q. edit_all f q v ≡ ok w) (behind-cons k j p l) d.1),
        Done-other j p l rest others (ground arith) d.2,
      )

  -- The first path changes the member of its key, the others do the rest, and the keys stay.
  edit_member-Done :
      (j : String) (p : List String) (l : List (List String)) (ms ns : Members)
      → AreKeysOnce ms
      → has_key j ms ≡ true
      → Done ((j ∷ p) ∷ l) ms ns
      → (ms' : Members) × (edit_member f ms j p ≡ ok ms')
        × Done l ms' ns
        × AreKeysOnce ms'
        × ((i : String) → has_key i ms' ≡ has_key i ms)
  unfolding Done has_key edit
  edit_member-Done j p l last ns u h d = absurd (ground arith)
  edit_member-Done j p l (member k v rest) last u h d = absurd d
  edit_member-Done j p l (member k v rest) (member i w others) u h d = elim (Bool-cases (k == j)) [
    | inl e ↦
        let same = (eq_iff k j).0 e in
        let this : (j == k) ≡ true = ground (arith, eq_iff k j, eq_iff j k) in
        let first : edit_all f (p ∷ behind k l) v ≡ ok w =
          subst (λ b. edit_all f (if b then p ∷ behind k l else behind k l) v ≡ ok w) this
            (subst (λ q. edit_all f q v ≡ ok w) (behind-cons k j p l) d.1) in
        let chain : (edit f v p >>= edit_all f (behind k l)) ≡ ok w = unfold edit_all in first in
        let step = bind_ok_inv (edit f v p) (edit_all f (behind k l)) w chain in
        (
          member k step.0 rest,
          rw (e, step.1) refl,
          (
            d.0,
            step.2,
            Done-other j p l rest others (subst (λ x. has_key x rest ≡ false) same u.0) d.2,
          ),
          u,
          λ a. refl,
        )
    | inr e ↦
        let later = edit_member-Done j p l rest others u.1 (ground arith) d.2 in
        let other : (j == k) ≡ false = ground (arith, eq_iff k j, eq_iff j k) in
        (
          member k v later.0,
          rw (e, later.1) refl,
          (
            d.0,
            subst (λ b. edit_all f (if b then p ∷ behind k l else behind k l) v ≡ ok w) other
                (subst (λ q. edit_all f q v ≡ ok w) (behind-cons k j p l) d.1),
            later.2,
          ),
          (later.4 k ∙ u.0, later.3),
          λ a. ap (λ b. k == a || b) (later.4 a),
        )
  ]

  BeginIn-same :
      (ms ns : Members) (l : List (List String))
      → ((i : String) → has_key i ns ≡ has_key i ms)
      → BeginIn ms l
      → BeginIn ns l
  BeginIn-same ms ns [] same b = tt
  BeginIn-same ms ns ([] ∷ l) same b = absurd b
  BeginIn-same ms ns ((j ∷ p) ∷ l) same b = (same j ∙ b.0, BeginIn-same ms ns l same b.1)

  -- The loop over the paths changes the members one by one.
  pub edit_all-Done :
      (c : NodeClass) (l : List (List String)) (ms ns : Members)
      → AreKeysOnce ms
      → BeginIn ms l
      → Done l ms ns
      → edit_all f l (node c ms) ≡ ok (node c ns)
  unfolding edit_all edit
  edit_all-Done c [] ms ns u b d = ap (λ x. ok (node c x)) (Done-nil ms ns d)
  edit_all-Done c ([] ∷ l) ms ns u b d = absurd b
  edit_all-Done c ((j ∷ p) ∷ l) ms ns u b d =
      let step = edit_member-Done j p l ms ns u b.0 d in
      let rest = edit_all-Done c l step.0 ns step.3 (BeginIn-same ms step.0 l step.4 b.1) step.2 in
      let first : edit f (node c ms) (j ∷ p) ≡ ok (node c step.0) = rw (step.1) refl in
      rw first rest
