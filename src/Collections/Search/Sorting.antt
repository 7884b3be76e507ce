-- ===== src/Collections/Search/Sorting.antt =====
-- Sorting by a comparator that orders: the result is sorted.
use Prim.Native.Nat.{Ordering}
use ovvio.Base.{
  List, [], ◌∷◌, ◌≡◌, ◌≢◌, refl, All, inl, inr, Bool, true, false, some, none, subst, sym,
  find_first, Bool-cases, arith, ◌⊎◌,
}
use ovvio.Base.Sort.{insert, sort, All-insert, All-sort}
use ovvio.Collections.Search.{IsOrder, IsSorted}
use ovvio.Collections.Search.Bounds.{All-mono}

module _ {ℓ} {A : Type ℓ} (cmp : A → A → Ordering) where
  All-insert_inv {κ} :
      (P : A → Type κ) (x : A) (xs : List A) → All P (insert cmp x xs) → P x × All P xs
  unfolding insert
  All-insert_inv P x [] h = (h.0, tt)
  All-insert_inv P x (y ∷ ys) h = by_order (cmp x y) h (All-insert_inv P x ys)
    where
      by_order :
          (o : Ordering)
          → All P (elim o [ Ordering.gt ↦ y ∷ insert cmp x ys | _ ↦ x ∷ y ∷ ys ])
          → (All P (insert cmp x ys) → P x × All P ys)
          → P x × All P (y ∷ ys)
      by_order Ordering.gt h rec = ((rec h.1).0, (h.0, (rec h.1).1))
      by_order Ordering.lt h rec = h
      by_order Ordering.eq h rec = h

  -- What holds of all that is sorted holds of all that was given.
  pub All-sort_inv {κ} : (P : A → Type κ) (xs : List A) → All P (sort cmp xs) → All P xs
  unfolding sort
  All-sort_inv P [] h = tt
  All-sort_inv P (x ∷ xs) h =
      let both = All-insert_inv P x (sort cmp xs) h in (both.0, All-sort_inv P xs both.1)

  module _ (order : IsOrder cmp) where
    insert-IsSorted : (x : A) (xs : List A) → IsSorted cmp xs → IsSorted cmp (insert cmp x xs)
    unfolding insert
    insert-IsSorted x [] h = (tt, tt)
    insert-IsSorted x (y ∷ ys) h = by_order (cmp x y) refl (insert-IsSorted x ys h.1)
      where
        by_order :
            (o : Ordering)
            → cmp x y ≡ o
            → IsSorted cmp (insert cmp x ys)
            → IsSorted cmp (elim o [ Ordering.gt ↦ y ∷ insert cmp x ys | _ ↦ x ∷ y ∷ ys ])
        by_order Ordering.gt e rest = (
          All-insert cmp (λ z. cmp y z ≢ Ordering.gt) x ys (λ g. let k = order.flip_gt x y e in cc)
              h.0,
          rest,
        )
        by_order Ordering.lt e rest =
            ((λ g. cc, All-mono _ _ ys (λ z k. order.trans_le x y z (λ g. cc) k) h.0), h)
        by_order Ordering.eq e rest =
            ((λ g. cc, All-mono _ _ ys (λ z k. order.trans_le x y z (λ g. cc) k) h.0), h)

    pub sort-IsSorted : (xs : List A) → IsSorted cmp (sort cmp xs)
    unfolding sort
    sort-IsSorted [] = tt
    sort-IsSorted (x ∷ xs) = insert-IsSorted x (sort cmp xs) (sort-IsSorted xs)

    -- The first that passes the test is level with, or before, all that pass.
    find_first-min :
        (p : A → Bool) (xs : List A) (c : A)
        → IsSorted cmp xs
        → find_first p xs ≡ some c
        → All (λ d. p d ≡ true → cmp c d ≢ Ordering.gt) xs
    find_first-min p [] c sorted e = tt
    find_first-min p (x ∷ xs) c sorted e = elim (Bool-cases (p x)) [
      | inl pass ↦
          let here : x ≡ c = ground arith in
          (
            λ h g. let k = order.flip_gt c x g in ground arith,
            All-mono _ _ xs (λ d k h g. k (subst (λ y. cmp y d ≡ Ordering.gt) (sym here) g))
                sorted.0,
          )
      | inr fail ↦ (λ h. absurd (ground arith), find_first-min p xs c sorted.1 (ground arith))
    ]

    pub find_first-sort :
        (p : A → Bool) (xs : List A) (c : A)
        → find_first p (sort cmp xs) ≡ some c
        → All (λ d. p d ≡ true → cmp c d ≢ Ordering.gt) xs
    find_first-sort p xs c e =
        All-sort_inv _ xs (find_first-min p (sort cmp xs) c (sort-IsSorted xs) e)

  -- A search in the sorted list, read in the list that was given.
  pub find_first_cases :
      (p : A → Bool) (xs : List A)
      → (find_first p (sort cmp xs) ≡ none) × All (λ d. p d ≡ false) xs
        ⊎ ((c : A) × (find_first p (sort cmp xs) ≡ some c)
            × (p c ≡ true)
            × ((Q : A → Type 0) → All Q xs → Q c))
  find_first_cases p xs = elim (in_list (sort cmp xs)) [
    | inl (e, all) ↦ inl (e, All-sort_inv _ xs all)
    | inr (c, e, pass, mem) ↦ inr (c, e, pass, λ Q h. mem Q (All-sort cmp Q xs h))
  ]
    where
      in_list :
          (ys : List A)
          → (find_first p ys ≡ none) × All (λ d. p d ≡ false) ys
            ⊎ ((c : A) × (find_first p ys ≡ some c)
                × (p c ≡ true)
                × ((Q : A → Type 0) → All Q ys → Q c))
      in_list [] = inl (refl, tt)
      in_list (y ∷ ys) = elim (Bool-cases (p y)) [
        | inl pass ↦ inr (y, ground arith, pass, λ Q h. h.0)
        | inr fail ↦ elim (in_list ys) [
          | inl (e, all) ↦ inl (ground arith, (fail, all))
          | inr (c, e, pass, mem) ↦ inr (c, ground arith, pass, λ Q h. mem Q h.1)
        ]
      ]
