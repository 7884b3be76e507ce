-- ===== src/Collections/Search.antt =====
-- base/algorithms.ts: `bsearch`, with the facts on sorted arrays that it rests on. A comparator
-- is read only by the sign of its result, so it returns an `Ordering`.
pub mod Bounds
pub mod Insertion
pub mod Sorting
use Prim.Native.Nat.{Ordering}
use ovvio.Base.{
  ℕ, zero, suc, ◌+◌, ◌-◌, ◌/◌, ◌≤◌, ◌≡◌, ◌≢◌, ◌⊎◌, true, false, List, [], ◌∷◌, Option, none, some,
  ltb, length, get_elem?, take, drop, All,
}

-- A comparator that orders its values: a total preorder.
pub record IsOrder {ℓ} {A : Type ℓ} (cmp : A → A → Ordering) : Type ℓ where
  pub flip_lt : (x y : A) → cmp x y ≡ Ordering.lt → cmp y x ≡ Ordering.gt
  pub flip_gt : (x y : A) → cmp x y ≡ Ordering.gt → cmp y x ≡ Ordering.lt
  pub trans_lt : (x y z : A) → cmp x y ≡ Ordering.lt → cmp y z ≢ Ordering.gt → cmp x z ≡ Ordering.lt
  pub trans_gt : (x y z : A) → cmp x z ≡ Ordering.gt → cmp y z ≢ Ordering.gt → cmp x y ≡ Ordering.gt
  pub trans_le : (x y z : A) → cmp x y ≢ Ordering.gt → cmp y z ≢ Ordering.gt → cmp x z ≢ Ordering.gt

module _ {ℓ} {A : Type ℓ} (cmp : A → A → Ordering) where
  -- Every element comes before, or level with, those behind it.
  abbrev pub IsSorted : List A → Type ℓ
  IsSorted [] = Unit
  IsSorted (x ∷ xs) = All (λ y. cmp x y ≢ Ordering.gt) xs × IsSorted xs

  -- The last comparison of `bsearch`, behind its loop.
  unfoldable pub bsearch_fixup : List A → A → ℕ → Option ℕ
  bsearch_fixup arr value start = elim (get_elem? arr start) [
    | none ↦ none
    | some x ↦ elim (cmp value x) [ Ordering.gt ↦ some (start + 1) | _ ↦ some start ]
  ]

  -- The loop of `bsearch`. `end = mid - 1` is -1 only where `start` is 0, and then the loop ends
  -- at 0 as well. `none` is a read outside of the array, or fuel that ran out.
  unfoldable pub bsearch_loop : ℕ → List A → A → ℕ → ℕ → Option ℕ
  bsearch_loop zero arr value start end = none
  bsearch_loop (suc fuel) arr value start end = elim (ltb start end) [
    | false ↦ bsearch_fixup arr value start
    | true ↦ elim (get_elem? arr ((start + end) / 2)) [
      | none ↦ none
      | some x ↦ elim (cmp value x) [
        | Ordering.eq ↦ some ((start + end) / 2)
        | Ordering.lt ↦ bsearch_loop fuel arr value start ((start + end) / 2 - 1)
        | Ordering.gt ↦ bsearch_loop fuel arr value ((start + end) / 2 + 1) end
      ]
    ]
  ]

  unfoldable pub bsearch : List A → A → Option ℕ
  bsearch [] value = some 0
  bsearch (x ∷ xs) value = bsearch_loop (length (x ∷ xs)) (x ∷ xs) value 0 (length xs)

  -- `value` fits in at `r`: nothing before `r` is above it, nothing from `r` on is below it, and
  -- the element at `r` is level with it if any is.
  pub record Fits (arr : List A) (value : A) (r : ℕ) : Type ℓ where
    pub inside : r ≤ length arr
    pub before : All (λ x. cmp value x ≢ Ordering.lt) (take r arr)
    pub behind : All (λ x. cmp value x ≢ Ordering.gt) (drop r arr)
    pub found :
        ((x : A) × (get_elem? arr r ≡ some x) × (cmp value x ≡ Ordering.eq))
        ⊎ All (λ x. cmp value x ≢ Ordering.eq) arr
