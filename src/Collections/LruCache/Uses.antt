-- ===== src/Collections/LruCache/Uses.antt =====
-- base/collections/lru-cache.ts: what the methods do to the keys, from the one used longest ago.
use ovvio.Base.{
  ℕ, zero, suc, ◌-◌, ◌≤◌, ◌<◌, true, false, ◌&&◌, Option, some, List, [], ◌∷◌, ◌++◌, ◌≡◌, refl, sym,
  ap, ◌∙◌, subst, if◌then◌else◌, ltb, ◌==◌, length, length-append, length-drop, drop, arith, inl,
  inr, Bool-cases,
}
use ovvio.Base.Maps
use ovvio.Base.Sets
use ovvio.Collections.OrderedMap
use ovvio.Collections.OrderedMap.{OrderedMap, assign}
use ovvio.Collections.OrderedMap.Ring.{Ring}
use ovvio.Collections.OrderedMap.Refinement.{Represents, has-Represents, rebuild}
use ovvio.Collections.OrderedMap.Moves.{move_to_end-Represents}
use ovvio.Collections.OrderedMap.Adds.{add_impl-Represents}
use ovvio.Collections.SetUtils.Equal.{remove_absent}
use ovvio.Collections.LruCache
use ovvio.Collections.LruCache.{LruCache, evict, evict_values_if_needed}
use ovvio.Collections.LruCache.Bounded.{trim, trim_short, evict-Trimmed}

module _ {K : Type 0} (dec : Discrete K) where
  -- The keys behind a use of one.
  abbrev pub used : K → List K → List K
  used k ks = Sets.remove dec k ks ++ k ∷ []

  length-trim : (limit : ℕ) (ks : List K) → 0 < limit → length (trim dec limit ks) ≤ limit
  length-trim limit ks h =
      let n : (limit == 0) ≡ false = ground arith in
      rw n (omega (arith, length-drop (length ks - limit) ks))

  has-drop_last :
      (k : K) (n : ℕ) (ks : List K) → n ≤ length ks → Sets.has dec k (drop n (ks ++ k ∷ [])) ≡ true
  has-drop_last k zero ks h =
      ground (arith, Sets.has-append dec k ks (k ∷ []), Sets.has_head dec k [])
  has-drop_last k (suc n) [] h = absurd (omega arith)
  has-drop_last k (suc n) (j ∷ ks) h = has-drop_last k n ks (omega arith)

  has-trim_last :
      (k : K) (limit : ℕ) (ks : List K) → Sets.has dec k (trim dec limit (ks ++ k ∷ [])) ≡ true
  has-trim_last k limit ks = elim (Bool-cases (limit == 0)) [
    | inl e ↦ rw e (has-drop_last k 0 ks (omega arith))
    | inr n ↦ rw n (
        has-drop_last k (length (ks ++ k ∷ []) - limit) ks
          (ground (arith, length-append ks (k ∷ []))))
  ]

  length-remove_le : (k : K) (ks : List K) → length (Sets.remove dec k ks) ≤ length ks
  unfolding Sets.remove
  length-remove_le k [] = omega arith
  length-remove_le k (j ∷ ks) = ground (arith, length-remove_le k ks)

  length-remove :
      (k : K) (ks : List K)
      → Sets.has dec k ks ≡ true
      → suc (length (Sets.remove dec k ks)) ≤ length ks
  unfolding Sets.remove Sets.has
  length-remove k [] h = absurd (cc)
  length-remove k (j ∷ ks) h = ground (arith, length-remove_le k ks, length-remove k ks)

  length-used : (k : K) (ks : List K) → Sets.has dec k ks ≡ true → length (used k ks) ≤ length ks
  length-used k ks h =
      omega (arith, length-remove k ks h, length-append (Sets.remove dec k ks) (k ∷ []))

  -- What `moveToEnd` makes of keys that `add` left as they were.
  moved_old :
      (k : K) (ks : List K)
      → Sets.has dec k ks ≡ true
      → (if Sets.has dec k (Sets.add dec k ks)
          then Sets.remove dec k (Sets.add dec k ks) ++ k ∷ []
          else Sets.add dec k ks)
        ≡ used k ks
  moved_old k ks h = rw (Sets.add_present dec k ks h, h) refl

  added_new : (k : K) (ks : List K) → Sets.has dec k ks ≡ false → Sets.add dec k ks ≡ used k ks
  added_new k ks h = rw (Sets.add_absent dec k ks h, remove_absent dec k ks h) refl

module _ {K V : Type 0} (dec : Discrete K) where
  -- A value set through the link that `_addImpl` gives.
  set-Represents :
      (s : OrderedMap K V) (ks : List K) (k : K) (v : V)
      → Represents dec s ks
      → (t : OrderedMap K V) × (x : ℕ) × (OrderedMap.set dec s k v ≡ some t)
        × Represents dec t (Sets.add dec k ks)
        × (Maps.get dec k t.map ≡ some x)
        × (t.value x ≡ some v)
  unfolding OrderedMap.set
  set-Represents s ks k v r =
      let (t, x, e, at, rep, values) = add_impl-Represents dec s ks k r in
      let g = rep.ring in
      let u : OrderedMap K V = record t { value = assign t.value x (some v) } in
      let gu : Ring u rep.links = record {
        seg = g.seg;
        distinct = g.distinct;
        start = g.start;
        end = g.end;
        room = g.room;
        below = g.below;
        clear = g.clear;
      } in
      (
        u,
        x,
        ground (arith, e),
        rebuild dec t u (Sets.add dec k ks) (Sets.add dec k ks) rep.links rep gu refl refl
            rep.paired rep.distinct (λ j. refl) refl,
        at,
        ground arith,
      )

  -- A cache within its limit stays so: `set` puts the key last, keeps the keys that were used last,
  -- up to the limit, and the value is there to be read. No assertion fails.
  pub set-Used :
      (c : LruCache K V) (ks : List K) (k : K) (v : V)
      → Represents dec c.map ks
      → (0 < c.limit → length ks ≤ c.limit)
      → (c' : LruCache K V) × (calls : List (Option K × Option V)) × (LruCache.set dec c k v
          ≡ some (c', calls))
        × Represents dec c'.map (trim dec c.limit (used dec k ks))
        × (0 < c.limit → length (trim dec c.limit (used dec k ks)) ≤ c.limit)
        × (OrderedMap.get dec c'.map k ≡ some v)
        × (c'.limit ≡ c.limit)
  unfolding LruCache.set evict_values_if_needed OrderedMap.get OrderedMap.size
  set-Used c ks k v r within =
      let (t, x, e, rep, at, value) = set-Represents c.map ks k v r in
      let known = has-Represents dec c.map ks r k in
      elim (Bool-cases (Sets.has dec k ks)) [
        | inl old ↦
            let (u, e', rep', values, links) =
              move_to_end-Represents dec t (Sets.add dec k ks) k rep in
            let fits : (ltb 0 c.limit && ltb c.limit (length (used dec k ks))) ≡ false =
              ground (arith, length-used dec k ks old, within) in
            (
              record c { map = u },
              [],
              ground arith,
              subst (Represents dec u)
                  (moved_old dec k ks old ∙ sym (trim_short dec c.limit (used dec k ks) fits)) rep',
              length-trim dec c.limit (used dec k ks),
              ground (arith, ap (Maps.get dec k) links, ap (λ f. f x) values),
              refl,
            )
        | inr new ↦
            let (u, calls, e', trimmed) =
              evict-Trimmed dec (length t.map) t (Sets.add dec k ks) c.limit rep
                (omega (arith, rep.count)) in
            let last : Sets.has dec k (trim dec c.limit (Sets.add dec k ks)) ≡ true =
              ap (λ l. Sets.has dec k (trim dec c.limit l)) (Sets.add_absent dec k ks new)
              ∙ has-trim_last dec k c.limit ks in
            (
              record c { map = u },
              calls,
              ground arith,
              subst (λ l. Represents dec u (trim dec c.limit l)) (added_new dec k ks new)
                  trimmed.keys,
              length-trim dec c.limit (used dec k ks),
              ground (arith, trimmed.links k last, ap (λ f. f x) trimmed.values),
              refl,
            )
      ]
