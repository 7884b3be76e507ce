-- ===== src/Collections/SortedList/Order.antt =====
-- base/collections/sorted-list.ts: every method keeps the order.
use Prim.Native.Nat.{Ordering}
use ovvio.Base.{
  ℕ, zero, suc, ◌≡◌, refl, ◌≢◌, ◌⊎◌, inl, inr, Bool, true, false, List, [], ◌∷◌, some, arith,
  insert_at, remove_at, take, drop, All, Bool-cases,
}
use ovvio.Collections.Search.{IsOrder, IsSorted}
use ovvio.Collections.Search.Insertion.{bsearch-Fits}
use ovvio.Collections.SortedList.{SortedList, holds, add}

module _ {ℓ} {A : Type ℓ} where
  All-insert_at {κ} :
      (P : A → Type κ) (i : ℕ) (v : A) (xs : List A) → P v → All P xs → All P (insert_at i v xs)
  All-insert_at P zero v xs p h = (p, h)
  All-insert_at P (suc i) v [] p h = (p, tt)
  All-insert_at P (suc i) v (x ∷ xs) p h = (h.0, All-insert_at P i v xs p h.1)

  pub All-remove_at {κ} : (P : A → Type κ) (i : ℕ) (xs : List A) → All P xs → All P (remove_at i xs)
  All-remove_at P i [] h = tt
  All-remove_at P zero (x ∷ xs) h = h.1
  All-remove_at P (suc i) (x ∷ xs) h = (h.0, All-remove_at P i xs h.1)

module _ {ℓ} {A : Type ℓ} (cmp : A → A → Ordering) where
  pub remove_at-IsSorted : (i : ℕ) (xs : List A) → IsSorted cmp xs → IsSorted cmp (remove_at i xs)
  remove_at-IsSorted i [] s = tt
  remove_at-IsSorted zero (x ∷ xs) s = s.1
  remove_at-IsSorted (suc i) (x ∷ xs) s =
      (All-remove_at (λ y. cmp x y ≢ Ordering.gt) i xs s.0, remove_at-IsSorted i xs s.1)

  module _ (order : IsOrder cmp) (v : A) where
    insert_at-IsSorted :
        (r : ℕ) (xs : List A)
        → IsSorted cmp xs
        → All (λ x. cmp v x ≢ Ordering.lt) (take r xs)
        → All (λ x. cmp v x ≢ Ordering.gt) (drop r xs)
        → IsSorted cmp (insert_at r v xs)
    insert_at-IsSorted zero xs s before behind = (behind, s)
    insert_at-IsSorted (suc r) [] s before behind = (tt, tt)
    insert_at-IsSorted (suc r) (x ∷ xs) s before behind = (
      All-insert_at (λ y. cmp x y ≢ Ordering.gt) r v xs
          (λ above. before.0 (order.flip_gt x v above)) s.0,
      insert_at-IsSorted r xs s.1 before.1 behind,
    )

    module _ (eq : A → A → Bool) (s : SortedList A) (sorted : IsSorted cmp s.arr) where
      -- `add` always succeeds and keeps the list sorted. The list is either left as it is, where
      -- an equal value stands at the index returned, or the value is inserted at that index.
      pub add-IsSorted :
          (s' : SortedList A) × (i : ℕ) × (add cmp eq s v ≡ some (s', i))
          × IsSorted cmp s'.arr
          × ((s' ≡ s) × (holds cmp eq s.arr v i ≡ true)
              ⊎ (s'.arr ≡ insert_at i v s.arr) × (holds cmp eq s.arr v i ≡ false))
      unfolding add
      add-IsSorted =
          let (r, e, fits) = bsearch-Fits cmp order v s.arr sorted in
          elim (Bool-cases (holds cmp eq s.arr v r)) [
            | inl old ↦ (s, r, ground arith, sorted, inl (refl, old))
            | inr new ↦ (
              record { arr = insert_at r v s.arr },
              r,
              ground arith,
              insert_at-IsSorted r s.arr sorted fits.before fits.behind,
              inr (refl, new),
            )
          ]
