-- ===== src/References/Traversal.antt =====
-- Changing the found objects one path at a time, the longest first, is the recursion from the leaves up.
use e_pem.Prelude.{
  String, ◌≡◌, refl, sym, ap, ◌∙◌, subst, Bool, true, false, ◌||◌, List, [], ◌∷◌, ◌++◌, map, arith,
  eq_refl, leb, Bool-cases, inl, inr, if◌then◌else◌,
}
use e_pem.Result.{Result, ok, ◌>>=◌}
use e_pem.PyList.{length}
use e_pem.References.{
  NodeClass, Value, Members, text, reference, scalar, node, last, member, here, insert_path,
  longest_first, edit, edit_all,
}
use e_pem.References.Paths.{behind-longest_first}
use e_pem.References.Rewriting.{has_key, HasKeysOnce, AllOnce, paths, paths_in}
use e_pem.References.Loop.{AreKeysOnce, AllOnce-keys, bind_ok_inv, Done, BeginIn, edit_all-Done}
use e_pem.References.Recursion.{finish, transform, transform_in, Splits, Splits-paths_in}

BeginIn-append :
    (ms : Members) (l m : List (List String)) → BeginIn ms l → BeginIn ms m → BeginIn ms (l ++ m)
BeginIn-append ms [] m a b = b
BeginIn-append ms ([] ∷ l) m a b = absurd a
BeginIn-append ms ((j ∷ p) ∷ l) m a b = (a.0, BeginIn-append ms l m a.1 b)

BeginIn-map :
    (ms : Members) (key : String) (l : List (List String))
    → has_key key ms ≡ true
    → BeginIn ms (map (λ p. key ∷ p) l)
BeginIn-map ms key [] h = tt
BeginIn-map ms key (p ∷ l) h = (h, BeginIn-map ms key l h)

BeginIn-member :
    (ms : Members) (key : String) (value : Value) (l : List (List String))
    → BeginIn ms l
    → BeginIn (member key value ms) l
unfolding has_key
BeginIn-member ms key value [] b = tt
BeginIn-member ms key value ([] ∷ l) b = absurd b
BeginIn-member ms key value ((j ∷ p) ∷ l) b =
    (ground (arith, b.0), BeginIn-member ms key value l b.1)

BeginIn-paths : (check_fun : Value → Bool) (ms : Members) → BeginIn ms (paths_in check_fun ms)
unfolding paths has_key
BeginIn-paths check_fun last = tt
BeginIn-paths check_fun (member key value rest) =
    BeginIn-append (member key value rest) (map (λ p. key ∷ p) (paths check_fun value))
      (paths_in check_fun rest)
      (BeginIn-map (member key value rest) key (paths check_fun value)
        (ap (λ b. b || has_key key rest) (eq_refl key)))
      (BeginIn-member rest key value (paths_in check_fun rest) (BeginIn-paths check_fun rest))

BeginIn-insert :
    (ms : Members) (j : String) (p : List String) (l : List (List String))
    → has_key j ms ≡ true
    → BeginIn ms l
    → BeginIn ms (insert_path (j ∷ p) l)
unfolding insert_path
BeginIn-insert ms j p [] h b = (h, tt)
BeginIn-insert ms j p ([] ∷ l) h b = absurd b
BeginIn-insert ms j p ((k ∷ q) ∷ l) h b =
    elim (Bool-cases (leb (length (k ∷ q)) (length (j ∷ p)))) [
      | inl e ↦ rw e (h, b)
      | inr e ↦ rw e (b.0, BeginIn-insert ms j p l h b.1)
    ]

BeginIn-sort : (ms : Members) (l : List (List String)) → BeginIn ms l → BeginIn ms (longest_first l)
unfolding longest_first
BeginIn-sort ms [] b = tt
BeginIn-sort ms ([] ∷ l) b = absurd b
BeginIn-sort ms ((j ∷ p) ∷ l) b =
    BeginIn-insert ms j p (longest_first l) b.0 (BeginIn-sort ms l b.1)

-- The path of the object itself is the shortest.
insert_empty-BeginIn :
    (ms : Members) (l : List (List String)) → BeginIn ms l → insert_path [] l ≡ l ++ [] ∷ []
unfolding insert_path
insert_empty-BeginIn ms [] b = refl
insert_empty-BeginIn ms ([] ∷ l) b = absurd b
insert_empty-BeginIn ms ((j ∷ p) ∷ l) b =
    let longer : leb (length (j ∷ p)) 0 ≡ false = ground arith in
    rw longer (ap (λ m. (j ∷ p) ∷ m) (insert_empty-BeginIn ms l b.1))

edit_all-append :
    (f : Value → Result Value) (l m : List (List String)) (v w : Value)
    → edit_all f l v ≡ ok w
    → edit_all f (l ++ m) v ≡ edit_all f m w
unfolding edit_all
edit_all-append f [] m v w h = ground (arith, h)
edit_all-append f (p ∷ l) m v w h =
    let step = bind_ok_inv (edit f v p) (edit_all f l) w h in
    rw (step.1) (edit_all-append f l m step.0 w step.2)

edit_alone : (f : Value → Result Value) (v w : Value) → f v ≡ ok w → edit_all f ([] ∷ []) v ≡ ok w
unfolding edit_all edit
edit_alone f (text s) w h = rw h refl
edit_alone f (reference id) w h = rw h refl
edit_alone f scalar w h = rw h refl
edit_alone f (node c ms) w h = rw h refl

module _ (check_fun : Value → Bool) (f : Value → Result Value) where
  -- the path of an object without paths below it
  edit-here :
      (v w : Value)
      → finish check_fun f v v ≡ ok w
      → edit_all f (longest_first (here check_fun v [])) v ≡ ok w
  unfolding longest_first insert_path edit_all
  edit-here v w h = elim (Bool-cases (check_fun v)) [
    | inl e ↦
        let changed : f v ≡ ok w = subst (λ b. (if b then f v else ok v) ≡ ok w) e h in
        rw e (edit_alone f v w changed)
    | inr e ↦
        let kept : ok v ≡ ok w = subst (λ b. (if b then f v else ok v) ≡ ok w) e h in rw e kept
  ]

  -- The paths in the members, and then the object itself.
  edit-node :
      (c : NodeClass) (ms ns : Members) (w : Value)
      → AreKeysOnce ms
      → Done f (longest_first (paths_in check_fun ms)) ms ns
      → finish check_fun f (node c ms) (node c ns) ≡ ok w
      → edit_all f (longest_first (paths check_fun (node c ms))) (node c ms) ≡ ok w
  unfolding paths longest_first
  edit-node c ms ns w u d h =
      let l = longest_first (paths_in check_fun ms) in
      let begin = BeginIn-sort ms (paths_in check_fun ms) (BeginIn-paths check_fun ms) in
      let members : edit_all f l (node c ms) ≡ ok (node c ns) =
        edit_all-Done f c l ms ns u begin d in
      elim (Bool-cases (check_fun (node c ms))) [
        | inl e ↦
            let changed : f (node c ns) ≡ ok w =
              subst (λ b. (if b then f (node c ns) else ok (node c ns)) ≡ ok w) e h in
            rw (e, insert_empty-BeginIn ms l begin)
              (edit_all-append f l ([] ∷ []) (node c ms) (node c ns) members
                ∙ edit_alone f (node c ns) w changed)
        | inr e ↦
            let kept : ok (node c ns) ≡ ok w =
              subst (λ b. (if b then f (node c ns) else ok (node c ns)) ≡ ok w) e h in
            rw e (members ∙ kept)
      ]

  mutual
    unfolding transform HasKeysOnce paths Done edit_all edit

    pub edit_all-transform :
        (v w : Value)
        → HasKeysOnce v
        → transform check_fun f v ≡ ok w
        → edit_all f (longest_first (paths check_fun v)) v ≡ ok w
    edit_all-transform (text s) w u h = edit-here (text s) w h
    edit_all-transform (reference id) w u h = edit-here (reference id) w h
    edit_all-transform scalar w u h = edit-here scalar w h
    edit_all-transform (node c ms) w u h =
        let step =
          bind_ok_inv (transform_in check_fun f ms)
            (λ changed. finish check_fun f (node c ms) (node c changed)) w h in
        edit-node c ms step.0 w (AllOnce-keys ms u)
          (Done-transform (paths_in check_fun ms) ms step.0 u (Splits-paths_in check_fun f ms u)
            step.1)
          step.2

    Done-transform :
        (l : List (List String)) (ms ns : Members)
        → AllOnce ms
        → Splits check_fun f l ms
        → transform_in check_fun f ms ≡ ok ns
        → Done f (longest_first l) ms ns
    Done-transform l last ns u s h =
        let e : last ≡ ns = ground (arith, h) in subst (λ x. Done f (longest_first l) last x) e tt
    Done-transform l (member k v rest) ns u s h =
        let first =
          bind_ok_inv (transform check_fun f v)
            (λ changed. transform_in check_fun f rest >>= λ others. ok (member k changed others)) ns
            h in
        let later =
          bind_ok_inv (transform_in check_fun f rest) (λ others. ok (member k first.0 others)) ns
            first.2 in
        let e : member k first.0 later.0 ≡ ns = ground (arith, later.2) in
        subst (λ x. Done f (longest_first l) (member k v rest) x) e
          (
            refl,
            subst (λ q. edit_all f q v ≡ ok first.0)
                (ap longest_first (sym s.0) ∙ sym (behind-longest_first k l))
                (edit_all-transform v first.0 u.1 first.1),
            Done-transform l rest later.0 u.2 s.1 later.1,
          )
