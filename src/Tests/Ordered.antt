-- ===== src/Tests/Ordered.antt =====
-- base/collections/orderedmap.ts and lru-cache.ts at small inputs.
use ovvio.Base.{
  true, some, none, List, [], ◌∷◌, ◌≡◌, ◌≢◌, refl, arith, ap, subst, sym, dec_lt, ℕ_discrete, ℕ,
  ◌≤◌, ◌<◌, Option,
}
use ovvio.Base.Maps
use ovvio.Base.Sets
use ovvio.Collections.OrderedMap
use ovvio.Collections.OrderedMap.{OrderedMap}
use ovvio.Collections.OrderedMap.Refinement.{Represents, empty-Represents}
use ovvio.Collections.OrderedMap.Adds.{add_impl-Represents}
use ovvio.Collections.OrderedMap.Moves.{move_to_end-Represents}
use ovvio.Collections.OrderedMap.Deletes.{delete-Represents}
use ovvio.Collections.LruCache
use ovvio.Collections.LruCache.{LruCache}
use ovvio.Collections.LruCache.Uses.{set-Used}

program : Unit {0}
unfolding OrderedMap.valid_links OrderedMap.unlink OrderedMap.detach OrderedMap.link_before
    OrderedMap.insert_before OrderedMap.count_links OrderedMap.checked OrderedMap.size
    OrderedMap.start_key OrderedMap.add_impl OrderedMap.set OrderedMap.move_to_end OrderedMap.delete
    OrderedMap.get OrderedMap.has Maps.get Maps.put Maps.remove Sets.has Sets.add Sets.remove
    LruCache.evict LruCache.evict_values_if_needed LruCache.set ℕ_discrete dec_lt
program = tt

abbrev state_of : Option (OrderedMap ℕ ℕ × ℕ) → OrderedMap ℕ ℕ
state_of none = OrderedMap.empty
state_of (some (t, _)) = t

abbrev added : OrderedMap ℕ ℕ → ℕ → OrderedMap ℕ ℕ
added s k = state_of (OrderedMap.add_impl ℕ_discrete s k)

added-Represents :
    (s : OrderedMap ℕ ℕ) (ks : List ℕ) (k : ℕ)
    → Represents ℕ_discrete s ks
    → Represents ℕ_discrete (added s k) (Sets.add ℕ_discrete k ks)
added-Represents s ks k r =
    let (t, x, e, at, rep, same_values) = add_impl-Represents ℕ_discrete s ks k r in
    subst (λ u. Represents ℕ_discrete u (Sets.add ℕ_discrete k ks)) (sym (ap state_of e)) rep

-- The key 7, and the keys 7 and 8.
abbrev one : OrderedMap ℕ ℕ
one = added OrderedMap.empty 7

one-Represents : Represents ℕ_discrete one (7 ∷ [])
unfolding program
one-Represents = added-Represents OrderedMap.empty [] 7 (empty-Represents ℕ_discrete)

abbrev two : OrderedMap ℕ ℕ
two = added one 8

two-Represents : Represents ℕ_discrete two (7 ∷ 8 ∷ [])
unfolding program
two-Represents = added-Represents one (7 ∷ []) 8 one-Represents

move_to_end-Represents_example :
    (t : OrderedMap ℕ ℕ) × (OrderedMap.move_to_end ℕ_discrete two 7 ≡ some t)
    × Represents ℕ_discrete t (8 ∷ 7 ∷ [])
    × (t.value ≡ two.value)
    × (t.map ≡ two.map)
unfolding program
move_to_end-Represents_example = move_to_end-Represents ℕ_discrete two (7 ∷ 8 ∷ []) 7 two-Represents

delete-Represents_example :
    (t : OrderedMap ℕ ℕ) × (OrderedMap.delete ℕ_discrete two 7 ≡ some (t, true))
    × Represents ℕ_discrete t (8 ∷ [])
    × (t.value ≡ two.value)
    × ((j : ℕ) → 7 ≢ j → Maps.get ℕ_discrete j t.map ≡ Maps.get ℕ_discrete j two.map)
unfolding program
delete-Represents_example = delete-Represents ℕ_discrete two (7 ∷ 8 ∷ []) 7 two-Represents

-- A cache that is full.
set-Used_example :
    (c' : LruCache ℕ ℕ) × (calls : List (Option ℕ × Option ℕ)) × (LruCache.set ℕ_discrete
        (record { map = two; limit = 2 })
        9
        5
      ≡ some (c', calls))
    × Represents ℕ_discrete c'.map (8 ∷ 9 ∷ [])
    × (0 < 2 → 2 ≤ 2)
    × (OrderedMap.get ℕ_discrete c'.map 9 ≡ some 5)
    × (c'.limit ≡ 2)
unfolding program
set-Used_example =
    set-Used ℕ_discrete (record { map = two; limit = 2 }) (7 ∷ 8 ∷ []) 9 5 two-Represents
      (λ h. omega arith)

-- The handler of the evictions gets the key that was used longest ago.
abbrev calls_of : Option (LruCache ℕ ℕ × List (Option ℕ × Option ℕ)) → List (Option ℕ × Option ℕ)
calls_of none = []
calls_of (some (_, calls)) = calls

evicted :
    calls_of (LruCache.set ℕ_discrete (record { map = two; limit = 2 }) 9 5) ≡ (some 7, none) ∷ []
unfolding program
evicted = refl

ends : (OrderedMap.start_key two ≡ some 7) × (OrderedMap.end_key two ≡ some 8)
unfolding program OrderedMap.end_key
ends = (refl, refl)
