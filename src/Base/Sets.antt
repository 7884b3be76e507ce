-- ===== src/Base/Sets.antt =====
-- `Set`: a list without repetitions in the order of insertion.
use mathlib.Core.Bool.{Bool, true, false, not, ◌&&◌, ◌||◌}
use mathlib.Core.List.{List, [], ◌∷◌, ◌++◌}
use mathlib.Core.Path.{◌≡◌, refl, subst}
use native.Mathlib.Omega.{arith}
use mathlib.Core.Logic.{◌↔◌, inl, inr}
use ovvio.Base.Lists.{All, Any}
use ovvio.Base.Tests.{same, if◌then◌else◌}

module _ {ℓ} {A : Type ℓ} (dec : Discrete A) where
  -- `set.has(a)`, `array.includes(a)`
  unfoldable pub has : A → List A → Bool
  has a [] = false
  has a (x ∷ xs) = same dec x a || has a xs

  -- `set.add(a)`
  unfoldable pub add : A → List A → List A
  add a [] = a ∷ []
  add a (x ∷ xs) = if same dec x a then x ∷ xs else x ∷ add a xs

  -- `set.delete(a)`
  unfoldable pub remove : A → List A → List A
  remove a [] = []
  remove a (x ∷ xs) = if same dec x a then remove a xs else x ∷ remove a xs

  pub has_nil : (a : A) → has a [] ≡ false
  unfolding has
  has_nil a = refl

  pub has_head : (a : A) (s : List A) → has a (a ∷ s) ≡ true
  unfolding has
  has_head a s = ground arith

  pub has_later : (a b : A) (s : List A) → has a s ≡ true → has a (b ∷ s) ≡ true
  unfolding has
  has_later a b s h = ground arith

  pub has_tail : (a b : A) (s : List A) → ¬ (b ≡ a) → has a (b ∷ s) ≡ true → has a s ≡ true
  unfolding has
  has_tail a b s n h = ground arith

  pub has-add : (a b : A) (s : List A) → has b (add a s) ≡ (same dec a b || has b s)
  unfolding has add
  has-add a b [] = refl
  has-add a b (x ∷ xs) = ground (arith, has-add a b xs)

  pub has-append : (a : A) (s t : List A) → has a (s ++ t) ≡ (has a s || has a t)
  unfolding has
  has-append a [] t = refl
  has-append a (x ∷ xs) t = ground (arith, has-append a xs t)

  pub has-remove : (a b : A) (s : List A) → has b (remove a s) ≡ (not (same dec a b) && has b s)
  unfolding has remove
  has-remove a b [] = ground arith
  has-remove a b (x ∷ xs) = ground (arith, has-remove a b xs)

  pub All-add {κ} : (P : A → Type κ) (a : A) (s : List A) → P a → All P s → All P (add a s)
  unfolding add
  All-add P a [] p h = (p, tt)
  All-add P a (x ∷ xs) p h = by_test (same dec x a) (All-add P a xs p h.1)
    where
      by_test : (b : Bool) → All P (add a xs) → All P (if b then x ∷ xs else x ∷ add a xs)
      by_test true rest = h
      by_test false rest = (h.0, rest)

  pub All-has {κ} : (P : A → Type κ) (a : A) (s : List A) → All P s → has a s ≡ true → P a
  unfolding has
  All-has P a [] h e = absurd (cc)
  All-has P a (x ∷ xs) h e = elim (dec x a) [
    | yes here ↦ subst P here h.0
    | no other ↦ All-has P a xs h.1 (ground arith)
  ]

  pub add_absent : (a : A) (s : List A) → has a s ≡ false → add a s ≡ s ++ a ∷ []
  unfolding add has
  add_absent a [] h = refl
  add_absent a (x ∷ xs) h = ground (arith, add_absent a xs)

  pub add_present : (a : A) (s : List A) → has a s ≡ true → add a s ≡ s
  unfolding add has
  add_present a [] h = absurd (cc)
  add_present a (x ∷ xs) h = ground (arith, add_present a xs)

module _ {A : Type 0} (dec : Discrete A) where
  pub has_iff : (a : A) (s : List A) → (has dec a s ≡ true) ↔ Any (λ x. x ≡ a) s
  unfolding has
  has_iff a [] = (λ h. absurd (cc), λ m. absurd m)
  has_iff a (x ∷ xs) =
      let (to, from) = has_iff a xs in
      (
        λ h. elim (dec x a) [ yes here ↦ inl here | no other ↦ inr (to (ground arith)) ],
        λ m. elim m [
          | inl here ↦ ground arith
          | inr later ↦ (let found = from later in ground arith)
        ],
      )
