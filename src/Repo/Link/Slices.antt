-- ===== src/Repo/Link/Slices.antt =====
-- base/array.ts: the values that `slices` yields of an iterable.
use ovvio.Base.{
  ℕ, Bool, true, false, List, [], ◌∷◌, ◌++◌, ◌≡◌, Any, ◌⊎◌, inl, inr, leb, length, if◌then◌else◌,
}
use ovvio.Repo.Link.{slices_from}

module _ {A : Type 0} where
  -- A value of one of the slices.
  abbrev pub Among : List (List A) → A → Type 0
  Among batches c = Any (λ b. Any (λ x. x ≡ c) b) batches

  append-Any :
      (c : A) (xs ys : List A)
      → Any (λ x. x ≡ c) (xs ++ ys)
      → Any (λ x. x ≡ c) xs ⊎ Any (λ x. x ≡ c) ys
  append-Any c [] ys m = inr m
  append-Any c (x ∷ xs) ys m = elim m [
    | inl e ↦ inl (inl e)
    | inr later ↦ elim (append-Any c xs ys later) [ inl m' ↦ inl (inr m') | inr m' ↦ inr m' ]
  ]

  -- The slices hold the values and no others.
  pub slices_from-Among :
      (c : A) (size : ℕ) (slice xs : List A)
      → Among (slices_from size slice xs) c
      → Any (λ x. x ≡ c) slice ⊎ Any (λ x. x ≡ c) xs
  unfolding slices_from
  slices_from-Among c size [] [] m = absurd m
  slices_from-Among c size (s ∷ slice) [] m = elim m [ inl m' ↦ inl m' | inr n ↦ absurd n ]
  slices_from-Among c size slice (v ∷ vs) m =
      by_size slice (leb size (length (slice ++ v ∷ []))) (slices_from-Among c size [] vs)
        (slices_from-Among c size (slice ++ v ∷ []) vs) m
    where
      whole :
          (s : List A)
          → Any (λ x. x ≡ c) (s ++ v ∷ [])
          → Any (λ x. x ≡ c) s ⊎ Any (λ x. x ≡ c) (v ∷ vs)
      whole s m = elim (append-Any c s (v ∷ []) m) [
        | inl before ↦ inl before
        | inr (inl e) ↦ inr (inl e)
        | inr (inr n) ↦ absurd n
      ]

      by_size :
          (s : List A) (full : Bool)
          → (Among (slices_from size [] vs) c → Any (λ x. x ≡ c) [] ⊎ Any (λ x. x ≡ c) vs)
          → (Among (slices_from size (s ++ v ∷ []) vs) c
              → Any (λ x. x ≡ c) (s ++ v ∷ []) ⊎ Any (λ x. x ≡ c) vs)
          → Among
              (if full
                then (s ++ v ∷ []) ∷ slices_from size [] vs
                else slices_from size (s ++ v ∷ []) vs)
              c
          → Any (λ x. x ≡ c) s ⊎ Any (λ x. x ≡ c) (v ∷ vs)
      by_size s true fresh more m = elim m [
        | inl here ↦ whole s here
        | inr later ↦ elim (fresh later) [ inl n ↦ absurd n | inr m' ↦ inr (inr m') ]
      ]
      by_size s false fresh more m = elim (more m) [ inl m' ↦ whole s m' | inr m' ↦ inr (inr m') ]

  append-left : (c : A) (xs ys : List A) → Any (λ x. x ≡ c) xs → Any (λ x. x ≡ c) (xs ++ ys)
  append-left c [] ys m = absurd m
  append-left c (x ∷ xs) ys m = elim m [
    | inl e ↦ inl e
    | inr later ↦ inr (append-left c xs ys later)
  ]

  append-right : (c : A) (xs ys : List A) → Any (λ x. x ≡ c) ys → Any (λ x. x ≡ c) (xs ++ ys)
  append-right c [] ys m = m
  append-right c (x ∷ xs) ys m = inr (append-right c xs ys m)

  -- No value is lost.
  pub Among-slices_from :
      (c : A) (size : ℕ) (slice xs : List A)
      → Any (λ x. x ≡ c) slice ⊎ Any (λ x. x ≡ c) xs
      → Among (slices_from size slice xs) c
  unfolding slices_from
  Among-slices_from c size [] [] m = elim m [ inl n ↦ absurd n | inr n ↦ absurd n ]
  Among-slices_from c size (s ∷ slice) [] m = elim m [ inl m' ↦ inl m' | inr n ↦ absurd n ]
  Among-slices_from c size slice (v ∷ vs) m =
      by_size (leb size (length (slice ++ v ∷ []))) (Among-slices_from c size [] vs)
        (Among-slices_from c size (slice ++ v ∷ []) vs) (first m)
    where
      first :
          Any (λ x. x ≡ c) slice ⊎ Any (λ x. x ≡ c) (v ∷ vs)
          → Any (λ x. x ≡ c) (slice ++ v ∷ []) ⊎ Any (λ x. x ≡ c) vs
      first (inl before) = inl (append-left c slice (v ∷ []) before)
      first (inr (inl e)) = inl (append-right c slice (v ∷ []) (inl e))
      first (inr (inr later)) = inr later

      by_size :
          (full : Bool)
          → (Any (λ x. x ≡ c) [] ⊎ Any (λ x. x ≡ c) vs → Among (slices_from size [] vs) c)
          → (Any (λ x. x ≡ c) (slice ++ v ∷ []) ⊎ Any (λ x. x ≡ c) vs
              → Among (slices_from size (slice ++ v ∷ []) vs) c)
          → Any (λ x. x ≡ c) (slice ++ v ∷ []) ⊎ Any (λ x. x ≡ c) vs
          → Among
              (if full
                then (slice ++ v ∷ []) ∷ slices_from size [] vs
                else slices_from size (slice ++ v ∷ []) vs)
              c
      by_size true fresh more (inl here) = inl here
      by_size true fresh more (inr later) = inr (fresh (inr later))
      by_size false fresh more m = more m
