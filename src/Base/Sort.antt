-- ===== src/Base/Sort.antt =====
-- `Array.prototype.sort`: a stable sort by a comparator, here an insertion sort.
use Prim.Native.Nat.{Ordering}
use mathlib.Core.List.Perm
use mathlib.Core.List.{List, [], ◌∷◌, Perm}
use ovvio.Base.Lists.{All}

module _ {ℓ} {A : Type ℓ} (cmp : A → A → Ordering) where
  unfoldable pub insert : A → List A → List A
  insert x [] = x ∷ []
  insert x (y ∷ ys) = elim (cmp x y) [ Ordering.gt ↦ y ∷ insert x ys | _ ↦ x ∷ y ∷ ys ]

  unfoldable pub sort : List A → List A
  unfolding insert
  sort [] = []
  sort (x ∷ xs) = insert x (sort xs)

  pub All-insert {κ} : (P : A → Type κ) (x : A) (xs : List A) → P x → All P xs → All P (insert x xs)
  unfolding insert
  All-insert P x [] p h = (p, tt)
  All-insert P x (y ∷ ys) p h = by_order (cmp x y) (All-insert P x ys p h.1)
    where
      by_order :
          (o : Ordering)
          → All P (insert x ys)
          → All P (elim o [ Ordering.gt ↦ y ∷ insert x ys | _ ↦ x ∷ y ∷ ys ])
      by_order Ordering.gt rest = (h.0, rest)
      by_order Ordering.lt rest = (p, h)
      by_order Ordering.eq rest = (p, h)

  insert-perm : (x : A) (xs : List A) → Perm (insert x xs) (x ∷ xs)
  unfolding insert
  insert-perm x [] = Perm.refl (x ∷ [])
  insert-perm x (y ∷ ys) = by_order (cmp x y) (insert-perm x ys)
    where
      by_order :
          (o : Ordering)
          → Perm (insert x ys) (x ∷ ys)
          → Perm (elim o [ Ordering.gt ↦ y ∷ insert x ys | _ ↦ x ∷ y ∷ ys ]) (x ∷ y ∷ ys)
      by_order Ordering.gt rest = Perm.trans (Perm.cons y rest) (Perm.swap x y ys)
      by_order Ordering.lt rest = Perm.refl (x ∷ y ∷ ys)
      by_order Ordering.eq rest = Perm.refl (x ∷ y ∷ ys)

  pub All-sort {κ} : (P : A → Type κ) (xs : List A) → All P xs → All P (sort xs)
  unfolding sort
  All-sort P [] h = tt
  All-sort P (x ∷ xs) h = All-insert P x (sort xs) h.0 (All-sort P xs h.1)

  pub sort-perm : (xs : List A) → Perm (sort xs) xs
  unfolding sort
  sort-perm [] = Perm.refl []
  sort-perm (x ∷ xs) = Perm.trans (insert-perm x (sort xs)) (Perm.cons x (sort-perm xs))
