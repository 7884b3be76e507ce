-- ===== src/Collections/SortedList/Members.antt =====
-- base/collections/sorted-list.ts: which values a sorted list has, where two values are equal
-- exactly if the comparator puts them level.
use Prim.Native.Nat.{Ordering}
use ovvio.Base.{
  ℕ, zero, suc, ◌+◌, ◌≡◌, refl, ◌≢◌, ◌⊎◌, ◌↔◌, inl, inr, Bool, true, false, List, [], ◌∷◌, some,
  none, arith, length, get_elem?, remove_at, All, Bool-cases, Option-cases,
}
use ovvio.Collections.Search.{IsOrder, IsSorted}
use ovvio.Collections.Search.Insertion.{bsearch-Fits}
use ovvio.Collections.SortedList.{SortedList, holds, delete, find, has}
use ovvio.Collections.SortedList.Order.{remove_at-IsSorted}

-- Some element of the list equals `v`.
abbrev pub Has {ℓ} : {A : Type ℓ} → (A → A → Bool) → A → List A → Type 0
Has eq v [] = ⊥
Has eq v (x ∷ xs) = (eq x v ≡ true) ⊎ Has eq v xs

module _ {ℓ} {A : Type ℓ} (cmp : A → A → Ordering) (order : IsOrder cmp) (eq : A → A → Bool)
    (level : (x v : A) → (eq x v ≡ true) ↔ (cmp v x ≡ Ordering.eq)) where
  not-Has : (v : A) (xs : List A) → All (λ x. cmp v x ≢ Ordering.eq) xs → ¬ Has eq v xs
  not-Has v [] h = λ m. m
  not-Has v (x ∷ xs) h = elim [ inl e ↦ h.0 ((level x v).0 e) | inr m ↦ not-Has v xs h.1 m ]

  Has-get : (v x : A) (i : ℕ) (xs : List A) → get_elem? xs i ≡ some x → eq x v ≡ true → Has eq v xs
  Has-get v x i [] at e = cc
  Has-get v x zero (y ∷ xs) at e = inl (ground arith)
  Has-get v x (suc i) (y ∷ xs) at e = inr (Has-get v x i xs at e)

  -- `find` answers an index exactly where the list has the value, and the element there equals it.
  pub find_cases :
      (s : SortedList A) (v : A)
      → IsSorted cmp s.arr
      → (find cmp eq s v ≡ some none) × ¬ Has eq v s.arr
        ⊎ ((i : ℕ) × (x : A) × (find cmp eq s v ≡ some (some i))
            × (get_elem? s.arr i ≡ some x)
            × (eq x v ≡ true))
  unfolding find holds
  find_cases s v sorted =
      let (r, e, fits) = bsearch-Fits cmp order v s.arr sorted in
      elim fits.found [
        | inl (x, at, lev) ↦
            let same : eq x v ≡ true = (level x v).1 lev in inr (r, x, ground arith, at, same)
        | inr apart ↦
            let absent : ¬ Has eq v s.arr = not-Has v s.arr apart in
            elim (Option-cases (get_elem? s.arr r)) [
              | inl past ↦ inl (ground arith, absent)
              | inr (x, at) ↦ elim (Bool-cases (eq x v)) [
                | inl same ↦ absurd (absent (Has-get v x r s.arr at same))
                | inr other ↦ inl (ground arith, absent)
              ]
            ]
      ]

  -- `has` always answers, and answers yes exactly where the list has an equal value.
  pub has-Has :
      (s : SortedList A) (v : A)
      → IsSorted cmp s.arr
      → (b : Bool) × (has cmp eq s v ≡ some b) × ((b ≡ true) ↔ Has eq v s.arr)
  unfolding has
  has-Has s v sorted = elim (find_cases s v sorted) [
    | inl (e, absent) ↦ (false, ground arith, (λ h. cc, λ m. absurd (absent m)))
    | inr (i, x, e, at, same) ↦ (true, ground arith, (λ h. Has-get v x i s.arr at same, λ m. refl))
  ]

  length-remove_at :
      (i : ℕ) (xs : List A) (x : A)
      → get_elem? xs i ≡ some x
      → length xs ≡ length (remove_at i xs) + 1
  length-remove_at i [] x e = cc
  length-remove_at zero (y ∷ xs) x e = omega arith
  length-remove_at (suc i) (y ∷ xs) x e = omega (arith, length-remove_at i xs x e)

  -- `delete` always answers. It answers yes exactly where the list has an equal value, and then
  -- removes one element, which is equal; otherwise the list stays. The list stays sorted.
  pub delete_cases :
      (s : SortedList A) (v : A)
      → IsSorted cmp s.arr
      → (delete cmp eq s v ≡ some (s, false)) × ¬ Has eq v s.arr
        ⊎ ((s' : SortedList A) × (i : ℕ) × (x : A) × (delete cmp eq s v ≡ some (s', true))
            × (get_elem? s.arr i ≡ some x)
            × (eq x v ≡ true)
            × (s'.arr ≡ remove_at i s.arr)
            × (length s.arr ≡ length s'.arr + 1)
            × IsSorted cmp s'.arr)
  unfolding delete find holds
  delete_cases s v sorted =
      let (r, e, fits) = bsearch-Fits cmp order v s.arr sorted in
      elim (find_cases s v sorted) [
        | inl (miss, absent) ↦ inl (ground arith, absent)
        | inr (i, x, hit, at, same) ↦
            let here : i ≡ r = ground arith in
            inr (
              record { arr = remove_at i s.arr },
              i,
              x,
              ground arith,
              at,
              same,
              refl,
              length-remove_at i s.arr x at,
              remove_at-IsSorted cmp i s.arr sorted,
            )
      ]
