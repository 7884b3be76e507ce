-- ===== src/Collections/SetUtils/ByValue.antt =====
-- base/set.ts: the operations that compare by value. A value that is immutable is the same as every
-- value that equals it, so that both ways to search for it find the same.
use ovvio.Base.{not, ◌&&◌, ◌||◌, List, [], ◌≡◌, arith}
use ovvio.Base.Sets.{has}
use ovvio.Collections.SetUtils.{add_missing, union}
use ovvio.Collections.SetUtils.Laws.{has-union, has-add_missing}

module _ {A : Type 0} (dec : Discrete A) where
  unfoldable pub subtract_by_value : List A → List A → List A
  unfolding add_missing
  subtract_by_value s1 s2 = add_missing dec [] s1 s2

  unfoldable pub union_by_value : List A → List A → List A
  unfolding union
  union_by_value i1 i2 = union dec i1 i2

  pub has-subtract_by_value :
      (a : A) (s t : List A)
      → has dec a (subtract_by_value s t) ≡ (has dec a s && not (has dec a t))
  unfolding subtract_by_value has
  has-subtract_by_value a s t = ground (arith, has-add_missing dec a [] s t)

  pub has-union_by_value :
      (a : A) (s t : List A) → has dec a (union_by_value s t) ≡ (has dec a s || has dec a t)
  unfolding union_by_value
  has-union_by_value a s t = has-union dec a s t
