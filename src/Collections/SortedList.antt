-- ===== src/Collections/SortedList.antt =====
-- base/collections/sorted-list.ts: the class `SortedList`. Its comparator and its equality are
-- the section's parameters; `none` is a fault of `bsearch`, which does not occur on a sorted list.
pub mod Order
pub mod Members
use Prim.Native.Nat.{Ordering}
use ovvio.Base.{
  ℕ, zero, suc, ◌+◌, ◌-◌, Bool, true, false, not, ◌||◌, List, [], ◌∷◌, Option, none, some, ltb, leb,
  length, get_elem?, insert_at, remove_at, take, drop, if◌then◌else◌,
}
use ovvio.Collections.Search.{bsearch}

pub record SortedList {ℓ} (A : Type ℓ) : Type ℓ where
  pub arr : List A

module _ {ℓ} {A : Type ℓ} where
  unfoldable pub empty : SortedList A
  empty = record { arr = [] }

  unfoldable pub get : SortedList A → ℕ → Option A
  get s index = get_elem? s.arr index

  unfoldable pub size : SortedList A → ℕ
  size s = length s.arr

  unfoldable pub first : SortedList A → Option A
  first s = get_elem? s.arr 0

  -- `arr[length - 1]` is `arr[-1]`, so `undefined`, on an empty list.
  unfoldable pub last : SortedList A → Option A
  last s = elim (size s) [ zero ↦ none | suc n ↦ get_elem? s.arr n ]

  number_from : ℕ → List A → List (ℕ × A)
  number_from i [] = []
  number_from i (x ∷ xs) = (i, x) ∷ number_from (suc i) xs

  -- `entries(inclusiveStart, exclusiveEnd)`, up to an end within the array.
  unfoldable pub entries : SortedList A → ℕ → ℕ → List (ℕ × A)
  unfolding number_from
  entries s start end = number_from start (drop start (take end s.arr))

  -- The last element and the list without it.
  unfoldable pub pop : SortedList A → SortedList A × Option A
  pop s = (record { arr = remove_at (size s - 1) s.arr }, last s)

  unfoldable pub delete_index : SortedList A → ℕ → SortedList A × Bool
  delete_index s idx =
      if ltb idx (length s.arr) then (record { arr = remove_at idx s.arr }, true) else (s, false)

module _ {ℓ} {A : Type ℓ} (cmp : A → A → Ordering) (eq : A → A → Bool) where
  -- `idx < arr.length && eq(arr[idx], v)`
  unfoldable pub holds : List A → A → ℕ → Bool
  holds arr v idx = elim (get_elem? arr idx) [ none ↦ false | some x ↦ eq x v ]

  unfoldable pub add : SortedList A → A → Option (SortedList A × ℕ)
  add s v = elim (bsearch cmp s.arr v) [
    | none ↦ none
    | some idx ↦
        if holds s.arr v idx
        then some (s, idx)
        else some (record { arr = insert_at idx v s.arr }, idx)
  ]

  unfoldable pub delete : SortedList A → A → Option (SortedList A × Bool)
  delete s v = elim (bsearch cmp s.arr v) [
    | none ↦ none
    | some idx ↦
        if holds s.arr v idx
        then some (record { arr = remove_at idx s.arr }, true)
        else some (s, false)
  ]

  -- The inner `none` is the result -1.
  unfoldable pub find : SortedList A → A → Option (Option ℕ)
  find s v = elim (bsearch cmp s.arr v) [
    | none ↦ none
    | some idx ↦ if holds s.arr v idx then some (some idx) else some none
  ]

  unfoldable pub has : SortedList A → A → Option Bool
  has s v = elim (find s v) [ none ↦ none | some none ↦ some false | some (some _) ↦ some true ]
