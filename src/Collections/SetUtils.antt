-- ===== src/Collections/SetUtils.antt =====
-- base/set.ts: the operations on sets and iterables. A set is a list without repetitions.
pub mod Laws
pub mod Equal
pub mod Filtered
pub mod ByValue
use ovvio.Base.{
  Bool, true, false, not, ◌&&◌, List, [], ◌∷◌, ◌++◌, ℕ, suc, same, ltb, ◌==◌, if◌then◌else◌, length,
  Option, none, some,
}
use ovvio.Base.Sets.{has, add, remove}

module _ {ℓ} {A : Type ℓ} (dec : Discrete A) where
  -- Adds all items from the passed list to the set.
  unfoldable pub update : List A → List A → List A
  update s [] = s
  update s (v ∷ vs) = update (add dec v s) vs

  unfoldable pub delete_all : List A → List A → List A
  delete_all s [] = s
  delete_all s (v ∷ vs) = delete_all (remove dec v s) vs

  -- `new Set(values)`
  unfoldable pub from : List A → List A
  unfolding update
  from values = update [] values

  unfoldable pub union : List A → List A → List A
  unfolding from update
  union s t = update (from s) t

  -- What `subtractIter` yields.
  unfoldable pub subtract_iter : List A → List A → List A
  subtract_iter [] t = []
  subtract_iter (v ∷ vs) t = if has dec v t then subtract_iter vs t else v ∷ subtract_iter vs t

  -- The loop that adds the values outside of the other set to the result.
  unfoldable pub add_missing : List A → List A → List A → List A
  add_missing result [] t = result
  add_missing result (v ∷ vs) t =
      add_missing (if has dec v t then result else add dec v result) vs t

  unfoldable pub subtract : List A → List A → List A
  unfolding add_missing from
  subtract s t = add_missing [] s (from t)

  unfoldable pub difference : List A → List A → List A
  unfolding add_missing
  difference s t = add_missing (add_missing [] s t) t s

  -- What `unionIter` yields of a set and another list.
  unfoldable pub union_iter : List A → List A → List A
  unfolding subtract_iter
  union_iter s t = s ++ subtract_iter t s

  unfoldable pub intersection_size : List A → List A → ℕ
  intersection_size s [] = 0
  intersection_size s (v ∷ vs) =
      let rest = intersection_size s vs in if has dec v s then suc rest else rest

  -- The loop of `intersects`.
  unfoldable pub any_in : List A → List A → Bool
  any_in [] t = false
  any_in (v ∷ vs) t = if has dec v t then true else any_in vs t

  unfoldable pub intersects : List A → List A → Bool
  unfolding any_in
  intersects s t = if ltb (length t) (length s) then any_in t s else any_in s t

  -- The first loop of `equals`, without a filter.
  unfoldable pub all_in : List A → List A → Bool
  all_in [] t = true
  all_in (v ∷ vs) t = if has dec v t then all_in vs t else false

  unfoldable pub equals : List A → List A → Bool
  unfolding all_in
  equals s t = if not (length s == length t) then false else all_in s t

  -- The first loop of `equals` with a filter: none where it returns false, or the number of values
  -- that it checked.
  unfoldable pub count_in : (A → Bool) → List A → List A → Option ℕ
  count_in filter [] t = some 0
  count_in filter (v ∷ vs) t =
      let rest = count_in filter vs t in
      if not (filter v)
      then rest
      else if not (has dec v t)
      then none
      else elim rest [ none ↦ none | some c ↦ some (suc c) ]

  -- The second loop.
  unfoldable pub rest_in : (A → Bool) → List A → List A → Bool
  rest_in filter [] s = true
  rest_in filter (v ∷ vs) s =
      let rest = rest_in filter vs s in
      if filter v then if not (has dec v s) then false else rest else rest

  unfoldable pub equals_filtered : (A → Bool) → List A → List A → Bool
  unfolding count_in rest_in
  equals_filtered filter s t = elim (count_in filter s t) [
    | none ↦ false
    | some equals_c ↦ if ltb equals_c (length t) then rest_in filter t s else true
  ]
