-- ===== src/Collections/HashSet/Bucket.antt =====
-- base/collections/hash-map.ts: one bucket of a `HashSet`, a list of values that differ.
use ovvio.Base.{
  suc, ◌≡◌, refl, ap, subst, ◌⊎◌, inl, inr, Bool, true, false, not, ◌||◌, ◌&&◌, List, [], ◌∷◌, ◌++◌,
  none, some, arith, is_some, Bool-cases, Option-cases, length, All,
}
use ovvio.Collections.HashSet.{find, splice}

-- An equality test that is an equivalence.
pub record IsEquality {V : Type 0} (eq : V → V → Bool) : Type 0 where
  pub eq_refl : (a : V) → eq a a ≡ true
  pub eq_sym : (a b : V) → eq a b ≡ true → eq b a ≡ true
  pub eq_trans : (a b c : V) → eq a b ≡ true → eq b c ≡ true → eq a c ≡ true

module _ {V : Type 0} (eq : V → V → Bool) where
  -- The value equals none of the bucket.
  abbrev pub IsNew : V → List V → Type 0
  IsNew v [] = Unit
  IsNew v (c ∷ cs) = (eq c v ≡ false) × IsNew v cs

  -- No two values of the bucket are equal.
  abbrev pub IsDistinct : List V → Type 0
  IsDistinct [] = Unit
  IsDistinct (c ∷ cs) = IsNew c cs × IsDistinct cs

  pub All-splice :
      (P : V → Type 0) (v : V) (cs rest : List V)
      → splice eq v cs ≡ some rest
      → All P cs
      → All P rest
  unfolding splice
  All-splice P v [] rest e h = absurd (ground arith)
  All-splice P v (c ∷ cs) rest e h = elim (Bool-cases (eq c v)) [
    | inl same ↦ subst (All P) (ground arith) h.1
    | inr other ↦ elim (Option-cases (splice eq v cs)) [
      | inl none_left ↦ absurd (ground arith)
      | inr (rest', e') ↦
          let split : c ∷ rest' ≡ rest = ground arith in
          subst (All P) split (h.0, All-splice P v cs rest' e' h.1)
    ]
  ]

  module _ (laws : IsEquality eq) where
    open laws use {eq_refl, eq_sym, eq_trans}

    -- Equal values are found together.
    pub find_congr :
        (v w : V) (cs : List V)
        → eq v w ≡ true
        → is_some (find eq v cs) ≡ true
        → is_some (find eq w cs) ≡ true
    unfolding find
    find_congr v w [] e h = h
    find_congr v w (c ∷ cs) e h = ground (arith, eq_trans c v w, find_congr v w cs e)

    pub find-append :
        (v w : V) (cs : List V)
        → is_some (find eq w (cs ++ v ∷ [])) ≡ (eq v w || is_some (find eq w cs))
    unfolding find
    find-append v w [] = ground arith
    find-append v w (c ∷ cs) = ground (arith, find-append v w cs)

    IsNew-append : (u v : V) (cs : List V) → IsNew u cs → eq v u ≡ false → IsNew u (cs ++ v ∷ [])
    IsNew-append u v [] h e = (e, tt)
    IsNew-append u v (c ∷ cs) h e = (h.0, IsNew-append u v cs h.1 e)

    pub IsDistinct-append :
        (v : V) (cs : List V)
        → IsDistinct cs
        → is_some (find eq v cs) ≡ false
        → IsDistinct (cs ++ v ∷ [])
    unfolding find
    IsDistinct-append v [] d h = (tt, tt)
    IsDistinct-append v (c ∷ cs) d h = (
      IsNew-append c v cs d.0 (ground (arith, eq_sym v c)),
      IsDistinct-append v cs d.1 (ground arith),
    )

    find_new : (v w : V) (cs : List V) → IsNew v cs → eq v w ≡ true → is_some (find eq w cs) ≡ false
    unfolding find
    find_new v w [] h e = refl
    find_new v w (c ∷ cs) h e = ground (arith, find_new v w cs h.1 e, eq_sym v w, eq_trans c w v)

    -- `splice` fails exactly where no value is equal, and else takes just the equal values out.
    pub splice_cases :
        (v : V) (cs : List V)
        → IsDistinct cs
        → (splice eq v cs ≡ none) × (is_some (find eq v cs) ≡ false)
          ⊎ ((rest : List V) × (splice eq v cs ≡ some rest)
              × (is_some (find eq v cs) ≡ true)
              × (length cs ≡ suc (length rest))
              × IsDistinct rest
              × ((u : V) → IsNew u cs → IsNew u rest)
              × ((w : V) → is_some (find eq w rest) ≡ (not (eq v w) && is_some (find eq w cs))))
    unfolding splice find
    splice_cases v [] d = inl (refl, refl)
    splice_cases v (c ∷ cs) d = elim (Bool-cases (eq c v)) [
      | inl same ↦ inr (
        cs,
        ground arith,
        ground arith,
        refl,
        d.1,
        λ u h. h.1,
        λ w. ground (arith, find_new c w cs d.0, eq_trans c v w, eq_trans v c w, eq_sym c v),
      )
      | inr other ↦ elim (splice_cases v cs d.1) [
        | inl (e, h) ↦ inl (ground arith, ground arith)
        | inr (rest, e, h, len, d', keep, look) ↦ inr (
          c ∷ rest,
          ground arith,
          ground arith,
          ap suc len,
          (keep c d.0, d'),
          λ u k. (k.0, keep u k.1),
          λ w. ground (arith, look w, eq_sym v w, eq_trans c w v, eq_trans v w c),
        )
      ]
    ]
