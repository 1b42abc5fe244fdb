-- ===== src/References/Recursion.antt =====
-- Changing the found objects along their sorted paths is one recursion over the tree.
use mathlib.Core.List.{append-nil, append_assoc}
use e_pem.Prelude.{
  String, ◌≡◌, refl, ap, ◌∙◌, subst, Bool, false, List, [], ◌∷◌, ◌++◌, ◌==◌, map, arith, eq_iff,
  eq_refl, if◌then◌else◌,
}
use e_pem.Result.{Result, ok, ◌>>=◌}
use e_pem.References.{Value, Members, text, reference, scalar, node, last, member}
use e_pem.References.Paths.{behind}
use e_pem.References.Rewriting.{has_key, AllOnce, paths, paths_in}

behind-append :
    (key : String) (l m : List (List String)) → behind key (l ++ m) ≡ behind key l ++ behind key m
unfolding behind
behind-append key [] m = refl
behind-append key ([] ∷ l) m = behind-append key l m
behind-append key ((k ∷ p) ∷ l) m = ground (arith, behind-append key l m)

behind-same : (key : String) (l : List (List String)) → behind key (map (λ p. key ∷ p) l) ≡ l
unfolding behind
behind-same key [] = refl
behind-same key (p ∷ l) = rw (eq_refl key) (ap (λ m. p ∷ m) (behind-same key l))

behind-other :
    (key j : String) (l : List (List String))
    → (j == key) ≡ false
    → behind key (map (λ p. j ∷ p) l) ≡ []
unfolding behind
behind-other key j [] h = refl
behind-other key j (p ∷ l) h = rw h (behind-other key j l h)

module _ (check_fun : Value → Bool) (f : Value → Result Value) where
  -- an object that is searched for is changed, with its members as they have become
  abbrev pub finish : Value → Value → Result Value
  finish obj changed = if check_fun obj then f changed else ok changed

  -- the change as one recursion, from the leaves up
  unfoldable mutual
    pub transform : Value → Result Value
    transform (text s) = finish (text s) (text s)
    transform (reference id) = finish (reference id) (reference id)
    transform scalar = finish scalar scalar
    transform (node c members) =
        transform_in members >>= λ changed. finish (node c members) (node c changed)

    pub transform_in : Members → Result Members
    transform_in last = ok last
    transform_in (member key value rest) = transform value >>= λ changed.
        transform_in rest >>= λ others. ok (member key changed others)

  behind_absent :
      (key : String) (ms : Members)
      → has_key key ms ≡ false
      → behind key (paths_in check_fun ms) ≡ []
  unfolding paths has_key behind
  behind_absent key last h = refl
  behind_absent key (member k v rest) h =
      behind-append key (map (λ p. k ∷ p) (paths check_fun v)) (paths_in check_fun rest)
      ∙ rw (behind-other key k (paths check_fun v) (ground arith))
          (behind_absent key rest (ground arith))

  -- Behind each key there are the paths of its member.
  abbrev pub Splits : List (List String) → Members → Type 0
  Splits l last = Unit
  Splits l (member key value rest) = (behind key l ≡ paths check_fun value) × Splits l rest

  -- none of the paths begins with one of the keys
  abbrev AreFree : List (List String) → Members → Type 0
  AreFree l last = Unit
  AreFree l (member key value rest) = (behind key l ≡ []) × AreFree l rest

  AreFree-append :
      (l m : List (List String)) (ms : Members) → AreFree l ms → AreFree m ms → AreFree (l ++ m) ms
  AreFree-append l m last a b = tt
  AreFree-append l m (member key value rest) a b = (
    behind-append key l m ∙ ap (λ x. x ++ behind key m) a.0 ∙ b.0,
    AreFree-append l m rest a.1 b.1,
  )

  AreFree-map :
      (key : String) (l : List (List String)) (ms : Members)
      → has_key key ms ≡ false
      → AreFree (map (λ p. key ∷ p) l) ms
  unfolding has_key
  AreFree-map key l last h = tt
  AreFree-map key l (member k v rest) h = (
    behind-other k key l (ground (arith, eq_iff k key, eq_iff key k)),
    AreFree-map key l rest (ground arith),
  )

  Splits-append :
      (l : List (List String)) (ms : Members)
      → AllOnce ms
      → AreFree l ms
      → Splits (l ++ paths_in check_fun ms) ms
  unfolding AllOnce paths
  Splits-append l last u a = tt
  Splits-append l (member key value rest) u a =
      let mine = map (λ p. key ∷ p) (paths check_fun value) in
      (
        behind-append key l (mine ++ paths_in check_fun rest)
            ∙ ap (λ x. x ++ behind key (mine ++ paths_in check_fun rest)) a.0
            ∙ behind-append key mine (paths_in check_fun rest)
            ∙ ap (λ x. x ++ behind key (paths_in check_fun rest))
                (behind-same key (paths check_fun value))
            ∙ ap (λ x. paths check_fun value ++ x) (behind_absent key rest u.0)
            ∙ append-nil (paths check_fun value),
        subst (λ x. Splits x rest) (append_assoc l mine (paths_in check_fun rest))
            (Splits-append (l ++ mine) rest u.2
              (AreFree-append l mine rest a.1 (AreFree-map key (paths check_fun value) rest u.0))),
      )

  pub Splits-paths_in : (ms : Members) → AllOnce ms → Splits (paths_in check_fun ms) ms
  Splits-paths_in ms u = Splits-append [] ms u (none_free ms)
    where
      none_free : (ns : Members) → AreFree [] ns
      none_free last = tt
      none_free (member key value rest) = (unfold behind in refl, none_free rest)
