-- ===== src/Collections/LruCache.antt =====
-- base/collections/lru-cache.ts: the class `LRUCache` over an `OrderedMap`. A call of the eviction
-- handler is given by its key and value. `none` is a failed assertion.
pub mod Bounded
pub mod Uses
use ovvio.Base.{
  ℕ, zero, suc, Bool, true, false, ◌&&◌, Option, none, some, List, [], ◌∷◌, ltb, if◌then◌else◌,
}
use ovvio.Collections.OrderedMap
use ovvio.Collections.OrderedMap.{OrderedMap}

pub record LruCache (K V : Type 0) : Type 0 where
  pub map : OrderedMap K V
  pub limit : ℕ

module _ {K V : Type 0} (dec : Discrete K) where
  -- The loop of `evictValuesIfNeeded`; `fuel` bounds the values in the map.
  unfoldable pub evict :
      ℕ → OrderedMap K V → ℕ → Option (OrderedMap K V × List (Option K × Option V))
  evict zero map limit = some (map, [])
  evict (suc fuel) map limit = elim (ltb 0 limit && ltb limit (OrderedMap.size map)) [
    | false ↦ some (map, [])
    | true ↦ elim (OrderedMap.start_key map) [
      | none ↦ none
      | some key ↦ elim (OrderedMap.delete dec map key) [
        | none ↦ none
        | some (map', _) ↦ elim (evict fuel map' limit) [
          | none ↦ none
          | some (rest, calls) ↦ some (rest, (some key, OrderedMap.get dec map key) ∷ calls)
        ]
      ]
    ]
  ]

  unfoldable pub evict_values_if_needed :
      LruCache K V → Option (LruCache K V × List (Option K × Option V))
  unfolding evict
  evict_values_if_needed c = elim (evict (OrderedMap.size c.map) c.map c.limit) [
    | none ↦ none
    | some (map, calls) ↦ some (record c { map = map }, calls)
  ]

  unfoldable pub set_limit : LruCache K V → ℕ → Option (LruCache K V × List (Option K × Option V))
  unfolding evict_values_if_needed
  set_limit c limit = evict_values_if_needed (record c { limit = limit })

  unfoldable pub get : LruCache K V → K → Option (LruCache K V × Option V)
  get c k = elim (OrderedMap.move_to_end dec c.map k) [
    | none ↦ none
    | some map ↦ some (record c { map = map }, OrderedMap.get dec map k)
  ]

  unfoldable pub has : LruCache K V → K → Option (LruCache K V × Bool)
  has c k = elim (OrderedMap.move_to_end dec c.map k) [
    | none ↦ none
    | some map ↦ some (record c { map = map }, OrderedMap.has dec map k)
  ]

  unfoldable pub set : LruCache K V → K → V → Option (LruCache K V × List (Option K × Option V))
  unfolding evict_values_if_needed
  set c k v =
      let value_exists = OrderedMap.has dec c.map k in
      elim (OrderedMap.set dec c.map k v) [
        | none ↦ none
        | some map ↦ elim value_exists [
          | true ↦ elim (OrderedMap.move_to_end dec map k) [
            | none ↦ none
            | some map' ↦ some (record c { map = map' }, [])
          ]
          | false ↦ evict_values_if_needed (record c { map = map })
        ]
      ]

  unfoldable pub delete : LruCache K V → K → Option (LruCache K V × Bool)
  delete c k = elim (OrderedMap.delete dec c.map k) [
    | none ↦ none
    | some (map, done) ↦ some (record c { map = map }, done)
  ]

abbrev pub clear : {K V : Type 0} → LruCache K V → LruCache K V
unfolding OrderedMap.clear
clear c = record c { map = OrderedMap.clear c.map }
