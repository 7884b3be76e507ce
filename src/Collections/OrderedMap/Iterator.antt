-- ===== src/Collections/OrderedMap/Iterator.antt =====
-- base/collections/orderedmap.ts: the class `OrderedMapIter`, and the loops over an `OrderedMap`.
use ovvio.Base.{
  ℕ, zero, suc, ◌<◌, Bool, true, false, Option, none, some, List, [], ◌∷◌, ◌≡◌, ◌≢◌, refl, ◌==◌,
  if◌then◌else◌, length, arith,
}
use mathlib.Core.List.{map}
use ovvio.Collections.OrderedMap
use ovvio.Collections.OrderedMap.{Field, OrderedMap, head, tail}
use ovvio.Collections.OrderedMap.Segment.{Segment, Apart}
use ovvio.Collections.OrderedMap.Ring.{Ring-Apart}
use ovvio.Collections.OrderedMap.Contents.{Paired}
use ovvio.Collections.OrderedMap.Refinement.{Represents}

-- The class `OrderedMapIter`, the state that it reads aside.
pub record OrderedMapIter : Type 0 where
  pub mutations_count : ℕ
  pub include_keys : Bool
  pub include_values : Bool
  pub next_link : ℕ

-- What an iterator gives: a key, a value or both.
pub data Item (K V : Type 0) : Type 0 where
  only_key : Option K → Item K V
  only_value : Option V → Item K V
  entry : Option K → Option V → Item K V

-- A call of the iterator. `mutated` is a MutationError, `failed` a failed assertion.
pub data Result (A : Type 0) : Type 0 where
  mutated : Result A
  failed : Result A
  done : OrderedMapIter → Result A
  found : OrderedMapIter → A → Result A

module _ {K V : Type 0} where
  abbrev pub iterator : Bool → Bool → OrderedMap K V → OrderedMapIter
  iterator keys values s = record {
    mutations_count = s.mutations_count;
    include_keys = keys;
    include_values = values;
    next_link = head;
  }

  abbrev pub keys : OrderedMap K V → OrderedMapIter
  keys s = iterator true false s

  abbrev pub values : OrderedMap K V → OrderedMapIter
  values s = iterator false true s

  abbrev pub entries : OrderedMap K V → OrderedMapIter
  entries s = iterator true true s

module _ {K V : Type 0} (dec : Discrete K) where
  abbrev link_value : OrderedMap K V → Option K → Option V
  link_value s none = none
  link_value s (some k) = OrderedMap.get dec s k

  abbrev pub item_of : Bool → Bool → Option K → Option V → Item K V
  item_of true true k v = Item.entry k v
  item_of true false k v = Item.only_key k
  item_of false values k v = Item.only_value v

  -- `OrderedMapIter.next`
  unfoldable pub next : OrderedMap K V → OrderedMapIter → Result (Item K V)
  unfolding OrderedMap.get
  next s i =
      if s.mutations_count == i.mutations_count
      then elim (s.next i.next_link) [
        | none ↦ Result.failed
        | some link ↦
            let j = record i { next_link = link } in
            if link == tail
            then Result.done j
            else Result.found j
                (item_of i.include_keys i.include_values (s.key link) (link_value s (s.key link)))
      ]
      else Result.mutated

  -- The items of a loop that is run to its end; `none` where it fails or is not at its end.
  abbrev pub loop : ℕ → OrderedMap K V → OrderedMapIter → Option (List (Item K V))
  loop zero s i = none
  loop (suc fuel) s i = elim (next s i) [
    | mutated ↦ none
    | failed ↦ none
    | done j ↦ some []
    | found j x ↦ elim (loop fuel s j) [ none ↦ none | some xs ↦ some (x ∷ xs) ]
  ]

  abbrev pub item : OrderedMap K V → OrderedMapIter → K → Item K V
  item s i k = item_of i.include_keys i.include_values (some k) (OrderedMap.get dec s k)

  loop-Segment :
      (s : OrderedMap K V) (i : OrderedMapIter) (xs : List ℕ) (ks : List K) (fuel : ℕ)
      → s.mutations_count ≡ i.mutations_count
      → Segment s.next s.prev i.next_link xs tail
      → Apart tail xs
      → Paired dec s.key s.map xs ks
      → length ks < fuel
      → loop fuel s i ≡ some (map (item s i) ks)
  unfolding next OrderedMap.get
  loop-Segment s i xs ks zero same_count seg apart pairs h = absurd (omega arith)
  loop-Segment s i [] [] (suc fuel) same_count seg apart pairs h = ground (arith, same_count, seg.0)
  loop-Segment s i [] (k ∷ ks) fuel same_count seg apart pairs h = absurd pairs
  loop-Segment s i (x ∷ xs) [] fuel same_count seg apart pairs h = absurd pairs
  loop-Segment s i (x ∷ xs) (k ∷ ks) (suc fuel) same_count seg apart pairs h =
      let rest =
        loop-Segment s (record i { next_link = x }) xs ks fuel same_count seg.2 apart.1 pairs.2
          (omega arith) in
      ground (arith, same_count, seg.0, apart.0, pairs.0, pairs.1, rest)

  -- A loop over a map, with no change of the map in it, gives the keys in their order, each with its
  -- value; where the map was changed since the iterator was made, its next call throws.
  pub loop-Represents :
      (s t : OrderedMap K V) (ks : List K) (keys values : Bool)
      → Represents dec s ks
      → (loop (suc (length ks)) s (iterator keys values s)
          ≡ some (map (item s (iterator keys values s)) ks))
        × (t.mutations_count ≢ s.mutations_count → next t (iterator keys values s) ≡ Result.mutated)
  unfolding next
  loop-Represents s t ks keys values r = (
    loop-Segment s (iterator keys values s) r.links ks (suc (length ks)) refl r.ring.seg
        (Ring-Apart s r.links r.ring).1 r.paired (omega arith),
    λ other. ground (arith, other),
  )
