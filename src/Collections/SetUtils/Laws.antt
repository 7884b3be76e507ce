-- ===== src/Collections/SetUtils/Laws.antt =====
-- base/set.ts: the operations on sets against membership.
use ovvio.Base.{
  Bool, true, false, not, ◌&&◌, ◌||◌, List, [], ◌∷◌, ◌≡◌, refl, ap, inl, inr, same, same_iff,
  if◌then◌else◌, arith, Bool-cases,
}
use ovvio.Base.Sets.{has, add, remove, has-add, has-append, has-remove}
use ovvio.Collections.SetUtils.{
  update, delete_all, from, union, subtract_iter, add_missing, subtract, difference, union_iter,
}

module _ {ℓ} {A : Type ℓ} (dec : Discrete A) where
  pub has-update :
      (a : A) (s t : List A) → has dec a (update dec s t) ≡ (has dec a s || has dec a t)
  unfolding update has
  has-update a s [] = ground arith
  has-update a s (v ∷ vs) = ground (arith, has-update a (add dec v s) vs, has-add dec v a s)

  has-delete_all :
      (a : A) (s t : List A) → has dec a (delete_all dec s t) ≡ (has dec a s && not (has dec a t))
  unfolding delete_all has
  has-delete_all a s [] = ground arith
  has-delete_all a s (v ∷ vs) =
      ground (arith, has-delete_all a (remove dec v s) vs, has-remove dec v a s)

  pub has-from : (a : A) (s : List A) → has dec a (from dec s) ≡ has dec a s
  unfolding from has
  has-from a s = has-update a [] s

  pub has-union : (a : A) (s t : List A) → has dec a (union dec s t) ≡ (has dec a s || has dec a t)
  unfolding union
  has-union a s t = ground (arith, has-update a (from dec s) t, has-from a s)

  -- Equal values are members of the same sets.
  pub has-same : (a v : A) (t : List A) → same dec v a ≡ true → has dec v t ≡ has dec a t
  has-same a v t h = ap (λ x. has dec x t) ((same_iff dec v a).0 h)

  has_if :
      (a v : A) (b : Bool) (s : List A)
      → has dec a (if b then s else v ∷ s) ≡ ((same dec v a && not b) || has dec a s)
  unfolding has
  has_if a v true s = ground arith
  has_if a v false s = ground arith

  has-add_if :
      (a v : A) (b : Bool) (s : List A)
      → has dec a (if b then s else add dec v s) ≡ ((same dec v a && not b) || has dec a s)
  has-add_if a v true s = ground arith
  has-add_if a v false s = ground (arith, has-add dec v a s)

  -- A value of the list is new where it is not in the other set.
  new_iff :
      (a v : A) (t : List A)
      → (same dec v a && not (has dec v t)) ≡ (same dec v a && not (has dec a t))
  new_iff a v t = elim (Bool-cases (same dec v a)) [
    | inl e ↦ ap (λ b. same dec v a && not b) (has-same a v t e)
    | inr e ↦ rw e refl
  ]

  pub has-subtract_iter :
      (a : A) (s t : List A)
      → has dec a (subtract_iter dec s t) ≡ (has dec a s && not (has dec a t))
  unfolding subtract_iter has
  has-subtract_iter a [] t = refl
  has-subtract_iter a (v ∷ vs) t = ground (
    arith,
    has-subtract_iter a vs t,
    has_if a v (has dec v t) (subtract_iter dec vs t),
    new_iff a v t,
  )

  pub has-add_missing :
      (a : A) (r s t : List A)
      → has dec a (add_missing dec r s t) ≡ (has dec a r || (has dec a s && not (has dec a t)))
  unfolding add_missing has
  has-add_missing a r [] t = ground arith
  has-add_missing a r (v ∷ vs) t = ground (
    arith,
    has-add_missing a (if has dec v t then r else add dec v r) vs t,
    has-add_if a v (has dec v t) r,
    new_iff a v t,
  )

  pub has-subtract :
      (a : A) (s t : List A) → has dec a (subtract dec s t) ≡ (has dec a s && not (has dec a t))
  unfolding subtract has
  has-subtract a s t = ground (arith, has-add_missing a [] s (from dec t), has-from a t)

  -- The difference of two sets has the values that are in one of them and not in the other.
  pub has-difference :
      (a : A) (s t : List A)
      → has dec a (difference dec s t)
        ≡ ((has dec a s && not (has dec a t)) || (has dec a t && not (has dec a s)))
  unfolding difference has
  has-difference a s t =
      ground (arith, has-add_missing a (add_missing dec [] s t) t s, has-add_missing a [] s t)

  pub has-union_iter :
      (a : A) (s t : List A) → has dec a (union_iter dec s t) ≡ (has dec a s || has dec a t)
  unfolding union_iter
  has-union_iter a s t =
      ground (arith, has-append dec a s (subtract_iter dec t s), has-subtract_iter a t s)
