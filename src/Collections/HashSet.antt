-- ===== src/Collections/HashSet.antt =====
-- base/collections/hash-map.ts: the class `HashSet`, buckets of values under their hashes. The
-- three functions that a set is built with are the section's parameters.
pub mod Bucket
pub mod Laws
pub mod Size
use ovvio.Base.{
  ℕ, zero, suc, Bool, true, false, ◌||◌, List, [], ◌∷◌, ◌++◌, Option, none, some, length, is_some,
  if◌then◌else◌, filter, ◌==◌,
}
use ovvio.Base.Maps
use ovvio.Base.Maps.{Map}
use ovvio.Base.Text.{JsString, string_discrete}

pub record HashSet (V : Type 0) : Type 0 where
  pub buckets : Map JsString (List V)

-- `_noClone`
abbrev pub no_clone : {V : Type 0} → V → V
no_clone v = v

abbrev pub empty : {V : Type 0} → HashSet V
empty = record { buckets = [] }

-- `size`: the number of buckets.
unfoldable pub size : {V : Type 0} → HashSet V → ℕ
size s = length s.buckets

module _ {V : Type 0} (eq : V → V → Bool) where
  -- The loop over the candidates of a bucket.
  unfoldable pub find : V → List V → Option V
  find v [] = none
  find v (c ∷ values) = if eq c v then some c else find v values

  -- `values.splice(i, 1)` at the first equal value; `none` where the loop finds no such value.
  unfoldable pub splice : V → List V → Option (List V)
  splice v [] = none
  splice v (c ∷ values) =
      if eq c v
      then some values
      else elim (splice v values) [ none ↦ none | some rest ↦ some (c ∷ rest) ]

module _ {V : Type 0} (hash : V → JsString) (eq : V → V → Bool) (clone : V → V) (s : HashSet V)
    (v : V) where
  abbrev pub bucket : Option (List V)
  bucket = Maps.get string_discrete (hash v) s.buckets

  unfoldable pub get : Option V
  get = elim bucket [ none ↦ none | some values ↦ find eq v values ]

  unfoldable pub has : Bool
  has = elim bucket [ none ↦ false | some values ↦ is_some (find eq v values) ]

  unfoldable pub add : HashSet V × Bool
  add = elim bucket [
    | none ↦ (record { buckets = Maps.put string_discrete (hash v) (clone v ∷ []) s.buckets }, true)
    | some values ↦ if is_some (find eq v values) then (s, false) else (
      record { buckets = Maps.put string_discrete (hash v) (values ++ clone v ∷ []) s.buckets },
      true,
    )
  ]

  unfoldable pub delete : HashSet V × Bool
  delete = elim bucket [
    | none ↦ (s, false)
    | some values ↦ elim (splice eq v values) [
      | none ↦ (s, false)
      | some rest ↦
          if length values == 1
          then (record { buckets = Maps.remove string_discrete (hash v) s.buckets }, true)
          else (record { buckets = Maps.put string_discrete (hash v) rest s.buckets }, true)
    ]
  ]

module _ {V : Type 0} (hash : V → JsString) (eq : V → V → Bool) where
  all_values : Map JsString (List V) → List V
  all_values [] = []
  all_values ((k, values) ∷ m) = values ++ all_values m

  -- `values()`, up to mutation by the consumer.
  unfoldable pub values : HashSet V → List V
  unfolding all_values
  values s = filter (λ v. has hash eq no_clone s v) (all_values s.buckets)
