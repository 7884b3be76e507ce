-- ===== src/Collections/SetUtils/Equal.antt =====
-- base/set.ts: when two sets are equal and when they meet.
use ovvio.Base.{
  Bool, true, false, List, [], ◌∷◌, ◌≡◌, refl, ap, sym, ◌∙◌, ◌↔◌, inl, inr, suc, ◌≤◌, same, ltb,
  if◌then◌else◌, length, arith, Bool-cases,
}
use ovvio.Base.Sets.{has, remove, has-remove, has_head, has_later}
use ovvio.Collections.SetUtils.Laws.{has-same}
use ovvio.Collections.SetUtils.{any_in, intersects, all_in, equals}

module _ {ℓ} {A : Type ℓ} (dec : Discrete A) where
  -- A set is a list in which no value is twice.
  unfoldable pub NoRepeats : List A → Type 0
  NoRepeats [] = Unit
  NoRepeats (x ∷ xs) = (has dec x xs ≡ false) × NoRepeats xs

  abbrev pub Includes : List A → List A → Type ℓ
  Includes t s = (a : A) → has dec a s ≡ true → has dec a t ≡ true

  pub remove_absent : (a : A) (s : List A) → has dec a s ≡ false → remove dec a s ≡ s
  unfolding has remove
  remove_absent a [] h = refl
  remove_absent a (x ∷ xs) h = ground (arith, remove_absent a xs)

  length-remove :
      (a : A) (s : List A)
      → NoRepeats s
      → has dec a s ≡ true
      → length s ≡ suc (length (remove dec a s))
  unfolding has remove NoRepeats
  length-remove a [] u h = absurd (cc)
  length-remove a (x ∷ xs) (new, u) h = elim (Bool-cases (same dec x a)) [
    | inl e ↦
        rw e (ap suc (ap length (sym (remove_absent a xs (sym (has-same dec a x xs e) ∙ new)))))
    | inr e ↦ rw e (ap suc (length-remove a xs u (ground arith)))
  ]

  NoRepeats-remove : (a : A) (s : List A) → NoRepeats s → NoRepeats (remove dec a s)
  unfolding remove NoRepeats
  NoRepeats-remove a [] u = u
  NoRepeats-remove a (x ∷ xs) (new, u) = elim (Bool-cases (same dec x a)) [
    | inl e ↦ rw e (NoRepeats-remove a xs u)
    | inr e ↦ rw e (ground (arith, has-remove dec a x xs), NoRepeats-remove a xs u)
  ]

  pub Includes-remove :
      (a : A) (s t : List A) → Includes t s → has dec a s ≡ false → Includes (remove dec a t) s
  Includes-remove a s t sub out b h = elim (Bool-cases (same dec a b)) [
    | inl e ↦ absurd (ground (arith, has-same dec b a s e))
    | inr e ↦ ground (arith, has-remove dec a b t, sub b h)
  ]

  -- A set that includes another one is at least as large.
  pub length-Includes :
      (s t : List A) → NoRepeats s → NoRepeats t → Includes t s → length s ≤ length t
  unfolding has NoRepeats
  length-Includes [] t u v sub = omega arith
  length-Includes (x ∷ xs) t (new, u) v sub =
      let x_in : has dec x t ≡ true = sub x (ground arith) in
      let rest : Includes (remove dec x t) xs =
        Includes-remove x xs t (λ b h. sub b (ground arith)) new in
      omega (
        arith,
        length-Includes xs (remove dec x t) u (NoRepeats-remove x t v) rest,
        length-remove x t v x_in,
      )

  -- Of two sets of one size, one of which includes the other, each includes the other.
  pub Includes-back :
      (s t : List A) → NoRepeats s → NoRepeats t → Includes t s → length t ≤ length s → Includes s t
  Includes-back s t u v sub le a h = elim (Bool-cases (has dec a s)) [
    | inl here ↦ here
    | inr out ↦
        let shorter =
          length-Includes s (remove dec a t) u (NoRepeats-remove a t v)
            (Includes-remove a s t sub out) in
        absurd (omega (arith, shorter, length-remove a t v h, le))
  ]

  all_in_iff : (s t : List A) → (all_in dec s t ≡ true) ↔ Includes t s
  unfolding all_in has
  all_in_iff [] t = (λ h b e. absurd (cc), λ h. refl)
  all_in_iff (x ∷ xs) t =
      let (to, from) = all_in_iff xs t in
      (
        (λ h b e. elim (Bool-cases (same dec x b)) [
          | inl here ↦ sym (has-same dec b x t here) ∙ ground arith
          | inr other ↦ to (ground arith) b (ground arith)
        ]),
        (λ h.
            let x_in : has dec x t ≡ true = h x (has_head dec x xs) in
            rw x_in (from (λ b e. h b (ground arith)))),
      )

  -- Two sets are equal exactly where they have the same members.
  pub equals_iff :
      (s t : List A)
      → NoRepeats s
      → NoRepeats t
      → (equals dec s t ≡ true) ↔ ((a : A) → has dec a s ≡ has dec a t)
  unfolding equals
  equals_iff s t u v =
      let (to, from) = all_in_iff s t in
      (
        (λ h a.
            let sub : Includes t s = to (ground arith) in
            let back = Includes-back s t u v sub (ground arith) a in
            elim (Bool-cases (has dec a s)) [
              | inl e ↦ e ∙ sym (sub a e)
              | inr out ↦ elim (Bool-cases (has dec a t)) [
                | inl e ↦ back e ∙ sym e
                | inr e ↦ out ∙ sym e
              ]
            ]),
        (λ h.
            let le = length-Includes s t u v (λ a e. sym (h a) ∙ e) in
            let ge = length-Includes t s v u (λ a e. h a ∙ e) in
            ground (arith, le, ge, from (λ a e. sym (h a) ∙ e))),
      )

  any_in_iff :
      (s t : List A)
      → (any_in dec s t ≡ true) ↔ ((a : A) × (has dec a s ≡ true) × (has dec a t ≡ true))
  unfolding any_in has
  any_in_iff [] t = (λ h. absurd (cc), λ h. absurd (cc))
  any_in_iff (x ∷ xs) t =
      let (to, from) = any_in_iff xs t in
      (
        (λ h. elim (Bool-cases (has dec x t)) [
          | inl e ↦ (x, has_head dec x xs, e)
          | inr out ↦ let (a, p, q) = to (ground arith) in (a, has_later dec a x xs p, q)
        ]),
        (λ (a, p, q). elim (Bool-cases (same dec x a)) [
          | inl here ↦ let x_in = has-same dec a x t here ∙ q in ground arith
          | inr other ↦ let later = from (a, (ground arith), q) in ground arith
        ]),
      )

  -- `intersects` finds a common member where there is one, whichever set is the smaller.
  pub intersects_iff :
      (s t : List A)
      → (intersects dec s t ≡ true) ↔ ((a : A) × (has dec a s ≡ true) × (has dec a t ≡ true))
  unfolding intersects
  intersects_iff s t = by_size (ltb (length t) (length s))
    where
      by_size :
          (b : Bool)
          → ((if b then any_in dec t s else any_in dec s t) ≡ true)
            ↔ ((a : A) × (has dec a s ≡ true) × (has dec a t ≡ true))
      by_size false = any_in_iff s t
      by_size true =
          let (to, from) = any_in_iff t s in
          (λ h. let (a, p, q) = to h in (a, q, p), λ (a, p, q). from (a, q, p))
