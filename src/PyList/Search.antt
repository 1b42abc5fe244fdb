-- ===== src/PyList/Search.antt =====
-- Finding an index and then reading, popping or assigning at it, against the first item that
-- passes the test: what the `find_*_index` methods and their callers come to.
use e_pem.Prelude.{
  ℕ, suc, ◌≡◌, refl, inl, inr, Bool, none, some, List, [], ◌∷◌, arith, Bool-cases, Option-cases,
  if◌then◌else◌,
}
use e_pem.Result.{Error, ok, err, ◌>>=◌}
use e_pem.PyList.{find_index, find_first, get_at, set_at, pop_at, index_or, remove_first}

module _ {ℓ} {A : Type ℓ} (p : A → Bool) where
  unfoldable pub replace_first : A → List A → List A
  replace_first v [] = []
  replace_first v (x ∷ xs) = if p x then v ∷ xs else x ∷ replace_first v xs

  pub record IsLocated (l : List A) (x : A) (i : ℕ) : Type ℓ where
    pub found : find_index p l ≡ some i
    pub read : get_at l i ≡ ok x
    pub popped : pop_at l i ≡ ok (x, remove_first p l)
    pub written : (v : A) → set_at l i v ≡ ok (replace_first v l)

  pub find_index-none : (l : List A) → find_first p l ≡ none → find_index p l ≡ none
  unfolding find_first find_index
  find_index-none [] h = refl
  find_index-none (x ∷ xs) h = ground (arith, find_index-none xs)

  pub find_index-some : (l : List A) (x : A) → find_first p l ≡ some x → (i : ℕ) × IsLocated l x i
  unfolding find_first find_index get_at pop_at set_at remove_first replace_first
  find_index-some [] x h = absurd (ground arith)
  find_index-some (y ∷ ys) x h = elim (Bool-cases (p y)) [
    | inl e ↦ (
      0,
      record { found = rw e; read = ground arith; popped = ground arith; written = λ v. rw e },
    )
    | inr e ↦
        let (i, at) = find_index-some ys x (ground arith) in
        (
          suc i,
          record {
            found = ground (arith, at.found);
            read = at.read;
            popped = ground (arith, at.popped);
            written = λ v. ground (arith, at.written v);
          },
        )
  ]

  -- The item that is read is the first that passes; the exception means that none does.
  pub index-get_at :
      (e : Error) (l : List A)
      → (index_or e (find_index p l) >>= get_at l)
        ≡ (elim (find_first p l) [ none ↦ err e | some x ↦ ok x ])
  unfolding index_or
  index-get_at e l = elim (Option-cases (find_first p l)) [
    | inl h ↦ rw (h, find_index-none l h) refl
    | inr (x, h) ↦ let (i, at) = find_index-some l x h in rw (h, at.found) at.read
  ]

  pub index-pop_at :
      (e : Error) (l : List A)
      → (index_or e (find_index p l) >>= pop_at l)
        ≡ (elim (find_first p l) [ none ↦ err e | some x ↦ ok (x, remove_first p l) ])
  unfolding index_or
  index-pop_at e l = elim (Option-cases (find_first p l)) [
    | inl h ↦ rw (h, find_index-none l h) refl
    | inr (x, h) ↦ let (i, at) = find_index-some l x h in rw (h, at.found) at.popped
  ]

  pub index-set_at :
      (e : Error) (l : List A) (v : A)
      → (index_or e (find_index p l) >>= λ i. set_at l i v)
        ≡ (elim (find_first p l) [ none ↦ err e | some x ↦ ok (replace_first v l) ])
  unfolding index_or
  index-set_at e l v = elim (Option-cases (find_first p l)) [
    | inl h ↦ rw (h, find_index-none l h) refl
    | inr (x, h) ↦ let (i, at) = find_index-some l x h in rw (h, at.found) (at.written v)
  ]
