-- ===== src/Collections/SetUtils/Filtered.antt =====
-- base/set.ts: `equals` with a filter.
use ovvio.Base.{
  Bool, true, false, not, ◌&&◌, List, [], ◌∷◌, ◌≡◌, refl, ap, sym, ◌∙◌, ◌↔◌, inl, inr, ℕ, suc, ◌≤◌,
  same, same_iff, ltb, if◌then◌else◌, length, arith, Bool-cases, Option, none, some, filter,
}
use ovvio.Base.Sets.{has, has_head, has_later}
use ovvio.Collections.SetUtils.{count_in, rest_in, equals_filtered}
use ovvio.Collections.SetUtils.Laws.{has-same}
use ovvio.Collections.SetUtils.Equal.{NoRepeats, Includes-back}

module _ {ℓ} {A : Type ℓ} (dec : Discrete A) (p : A → Bool) where
  -- `p` is a test of the value.
  test_same : (a v : A) → same dec v a ≡ true → p v ≡ p a
  test_same a v h = ap p ((same_iff dec v a).0 h)

  has-filter : (a : A) (s : List A) → has dec a (filter p s) ≡ (p a && has dec a s)
  unfolding has
  has-filter a [] = ground arith
  has-filter a (v ∷ vs) = elim (Bool-cases (p v)) [
    | inl e ↦ rw (e, filter) (ground (arith, has-filter a vs, test_same a v))
    | inr e ↦ rw (e, filter) (ground (arith, has-filter a vs, test_same a v))
  ]

  NoRepeats-filter : (s : List A) → NoRepeats dec s → NoRepeats dec (filter p s)
  unfolding NoRepeats
  NoRepeats-filter [] u = u
  NoRepeats-filter (v ∷ vs) (new, u) = elim (Bool-cases (p v)) [
    | inl e ↦ rw (e, filter) (ground (arith, has-filter v vs), NoRepeats-filter vs u)
    | inr e ↦ rw (e, filter) (NoRepeats-filter vs u)
  ]

  -- The values that pass the test are in the other set.
  abbrev Passes : List A → List A → Type ℓ
  Passes s t = (a : A) → p a ≡ true → has dec a s ≡ true → has dec a t ≡ true

  Passes-tail : (v : A) (vs t : List A) → Passes (v ∷ vs) t → Passes vs t
  Passes-tail v vs t h a q e = h a q (has_later dec a v vs e)

  Passes-cons :
      (v : A) (vs t : List A) → (p v ≡ true → has dec v t ≡ true) → Passes vs t → Passes (v ∷ vs) t
  unfolding has
  Passes-cons v vs t k h a q e = elim (Bool-cases (same dec v a)) [
    | inl here ↦ sym (has-same dec a v t here) ∙ k (test_same a v here ∙ q)
    | inr other ↦ h a q (ground arith)
  ]

  -- What the first loop tells of the two sets.
  abbrev Counted : List A → List A → Option ℕ → Type ℓ
  Counted s t none = ¬ (Passes s t)
  Counted s t (some c) = (c ≡ length (filter p s)) × Passes s t

  count_in-Counted : (s t : List A) → Counted s t (count_in dec p s t)
  unfolding count_in has
  count_in-Counted [] t = (refl, λ a h e. absurd (cc))
  count_in-Counted (v ∷ vs) t =
      step (p v) (has dec v t) refl refl (count_in dec p vs t) (count_in-Counted vs t)
    where
      step :
          (b d : Bool)
          → p v ≡ b
          → has dec v t ≡ d
          → (rest : Option ℕ) → Counted vs t rest
          → Counted (v ∷ vs) t (
              if not b
              then rest
              else if not d
              then none
              else elim rest [ none ↦ none | some c ↦ some (suc c) ])
      step false d f i none h = λ all. h (Passes-tail v vs t all)
      step false d f i (some c) h = rw (f, filter) (h.0, Passes-cons v vs t (λ q. absurd (cc)) h.1)
      step true false f i rest h = λ all. let there = all v f (has_head dec v vs) in absurd (cc)
      step true true f i none h = λ all. h (Passes-tail v vs t all)
      step true true f i (some c) h = rw (f, filter) (ap suc h.0, Passes-cons v vs t (λ q. i) h.1)

  rest_in_iff : (t s : List A) → (rest_in dec p t s ≡ true) ↔ Passes t s
  unfolding rest_in has
  rest_in_iff [] s = (λ h a q e. absurd (cc), λ h. refl)
  rest_in_iff (v ∷ vs) s =
      let (to, from) = rest_in_iff vs s in
      (
        (λ h. Passes-cons v vs s (λ q. ground arith) (to (ground arith))),
        (λ h.
            let later = from (Passes-tail v vs s h) in
            elim (Bool-cases (p v)) [
              | inl q ↦ let here = h v q (has_head dec v vs) in ground arith
              | inr q ↦ ground arith
            ]),
      )

  -- With a filter, two sets are equal exactly where they have the same members among the values
  -- that pass it.
  pub equals_filtered_iff :
      (s t : List A)
      → NoRepeats dec s
      → NoRepeats dec t
      → (equals_filtered dec p s t ≡ true) ↔ ((a : A) → p a ≡ true → has dec a s ≡ has dec a t)
  unfolding equals_filtered
  equals_filtered_iff s t u v = by_count (count_in dec p s t) (count_in-Counted s t)
    where
      both : Passes s t → Passes t s → (a : A) → p a ≡ true → has dec a s ≡ has dec a t
      both to from a q = elim (Bool-cases (has dec a s)) [
        | inl e ↦ e ∙ sym (to a q e)
        | inr out ↦ elim (Bool-cases (has dec a t)) [
          | inl e ↦ from a q e ∙ sym e
          | inr e ↦ out ∙ sym e
        ]
      ]

      -- Where as many values were checked as the second set has, these are all.
      all_checked :
          Passes s t
          → length t ≤ length (filter p s)
          → (a : A) → p a ≡ true
          → has dec a s ≡ has dec a t
      all_checked to le = both to (λ a q e.
          let back =
            Includes-back dec (filter p s) t (NoRepeats-filter s u) v
              (λ b h. to b (ground (arith, has-filter b s)) (ground (arith, has-filter b s))) le a
              e in
          ground (arith, has-filter a s))

      by_count :
          (o : Option ℕ)
          → Counted s t o
          → (elim o [ none ↦ false | some c ↦ if ltb c (length t) then rest_in dec p t s else true ]
              ≡ true)
            ↔ ((a : A) → p a ≡ true → has dec a s ≡ has dec a t)
      by_count none out = (λ h. absurd (cc), λ h. absurd (out (λ a q e. sym (h a q) ∙ e)))
      by_count (some c) (n, to) = by_size (ltb c (length t)) refl
        where
          by_size :
              (b : Bool)
              → ltb c (length t) ≡ b
              → ((if b then rest_in dec p t s else true) ≡ true)
                ↔ ((a : A) → p a ≡ true → has dec a s ≡ has dec a t)
          by_size true lt =
              let (passes, done) = rest_in_iff t s in
              (λ h. both to (passes h), λ h. done (λ a q e. h a q ∙ e))
          by_size false ge = (λ h. all_checked to (ground (arith, n)), λ h. refl)
