-- ===== src/Collections/LruCache/Bounded.antt =====
-- base/collections/lru-cache.ts: a cache keeps the keys that were used last, up to its limit.
use ovvio.Base.{
  ℕ, zero, suc, ◌-◌, ◌≤◌, true, false, ◌&&◌, Option, none, some, List, [], ◌∷◌, ◌≡◌, refl, sym, ap,
  ◌∙◌, subst, if◌then◌else◌, ltb, ◌==◌, length, drop, arith, inl, inr, Bool-cases,
}
use ovvio.Base.Maps
use ovvio.Base.Sets
use ovvio.Collections.OrderedMap
use ovvio.Collections.OrderedMap.{OrderedMap, assign, tail}
use ovvio.Collections.OrderedMap.Segment.{Segment}
use ovvio.Collections.OrderedMap.Contents.{Paired}
use ovvio.Collections.OrderedMap.Refinement.{Represents}
use ovvio.Collections.OrderedMap.Deletes.{delete-Represents}
use ovvio.Collections.LruCache.{evict}
use ovvio.Collections.SetUtils.Equal.{NoRepeats, remove_absent}

module _ {K : Type 0} (dec : Discrete K) where
  -- What a limit leaves of the keys: the last ones. The limit 0 is none.
  abbrev pub trim : ℕ → List K → List K
  trim limit ks = if limit == 0 then ks else drop (length ks - limit) ks

  remove_head : (k : K) (ks : List K) → NoRepeats dec (k ∷ ks) → Sets.remove dec k (k ∷ ks) ≡ ks
  unfolding NoRepeats Sets.remove
  remove_head k ks u = ground (arith, remove_absent dec k ks u.0)

  has-drop :
      (j : K) (n : ℕ) (ks : List K) → Sets.has dec j (drop n ks) ≡ true → Sets.has dec j ks ≡ true
  unfolding Sets.has
  has-drop j zero ks h = h
  has-drop j (suc n) [] h = h
  has-drop j (suc n) (k ∷ ks) h = let later = has-drop j n ks h in ground arith

  pub trim_short :
      (limit : ℕ) (ks : List K)
      → (ltb 0 limit && ltb limit (length ks)) ≡ false
      → trim limit ks ≡ ks
  trim_short limit ks h = elim (Bool-cases (limit == 0)) [
    | inl e ↦ rw e refl
    | inr n ↦ let all : length ks - limit ≡ 0 = ground arith in rw (n, all) refl
  ]

  trim_long :
      (limit : ℕ) (k : K) (ks : List K)
      → (ltb 0 limit && ltb limit (suc (length ks))) ≡ true
      → trim limit (k ∷ ks) ≡ trim limit ks
  trim_long limit k ks h =
      let n : (limit == 0) ≡ false = ground arith in
      let more : suc (length ks) - limit ≡ suc (length ks - limit) = ground arith in
      rw (n, more) refl

  has-trim :
      (j : K) (limit : ℕ) (ks : List K)
      → Sets.has dec j (trim limit ks) ≡ true
      → Sets.has dec j ks ≡ true
  has-trim j limit ks = elim (Bool-cases (limit == 0)) [
    | inl e ↦ rw e (λ h. h)
    | inr n ↦ rw n (has-drop j (length ks - limit) ks)
  ]

module _ {K V : Type 0} (dec : Discrete K) where
  start_key-Represents :
      (s : OrderedMap K V) (k : K) (ks : List K)
      → Represents dec s (k ∷ ks)
      → OrderedMap.start_key s ≡ some k
  unfolding OrderedMap.start_key
  start_key-Represents s k ks r = by_links r.links r.ring.seg r.paired
    where
      by_links :
          (xs : List ℕ)
          → Segment s.next s.prev OrderedMap.head xs tail
          → Paired dec s.key s.map xs (k ∷ ks)
          → (elim (s.next OrderedMap.head) [ none ↦ none | some x ↦ s.key x ]) ≡ some k
      by_links [] g p = absurd p
      by_links (x ∷ xs) g p = ground (arith, p.0)

  -- The state behind the loop.
  pub record Trimmed (s t : OrderedMap K V) (js : List K) : Type 0 where
    pub keys : Represents dec t js
    pub values : t.value ≡ s.value
    pub links : (j : K) → Sets.has dec j js ≡ true → Maps.get dec j t.map ≡ Maps.get dec j s.map

  pub evict-Trimmed :
      (fuel : ℕ) (s : OrderedMap K V) (ks : List K) (limit : ℕ)
      → Represents dec s ks
      → length ks ≤ fuel
      → (t : OrderedMap K V) × (calls : List (Option K × Option V)) × (evict dec fuel s limit
          ≡ some (t, calls))
        × Trimmed s t (trim dec limit ks)
  unfolding evict OrderedMap.size NoRepeats
  evict-Trimmed zero s [] limit r h = (
    s,
    [],
    refl,
    record {
      keys = rw (trim_short dec limit [] (ground arith)) r;
      values = refl;
      links = λ j k. refl;
    },
  )
  evict-Trimmed zero s (k ∷ ks) limit r h = absurd (omega arith)
  evict-Trimmed (suc fuel) s [] limit r h =
      let few : (ltb 0 limit && ltb limit (length s.map)) ≡ false = ground (arith, r.count) in
      (
        s,
        [],
        ground arith,
        record {
          keys = rw (trim_short dec limit [] (ground arith)) r;
          values = refl;
          links = λ j k. refl;
        },
      )
  evict-Trimmed (suc fuel) s (k ∷ ks) limit r h =
      elim (Bool-cases (ltb 0 limit && ltb limit (suc (length ks)))) [
        | inr few ↦
            let stop : (ltb 0 limit && ltb limit (length s.map)) ≡ false =
              ground (arith, r.count) in
            (
              s,
              [],
              ground arith,
              record {
                keys = subst (Represents dec s) (sym (trim_short dec limit (k ∷ ks) few)) r;
                values = refl;
                links = λ j e. refl;
              },
            )
        | inl many ↦
            let goes : (ltb 0 limit && ltb limit (length s.map)) ≡ true = ground (arith, r.count) in
            let (t, e, rep, v, l) = delete-Represents dec s (k ∷ ks) k r in
            let rep' : Represents dec t ks =
              subst (Represents dec t) (remove_head dec k ks r.distinct) rep in
            let (u, calls, e', trimmed) = evict-Trimmed fuel t ks limit rep' (omega arith) in
            let start = start_key-Represents s k ks r in
            (
              u,
              (some k, OrderedMap.get dec s k) ∷ calls,
              ground arith,
              record {
                keys = subst (Represents dec u) (sym (trim_long dec limit k ks many)) trimmed.keys;
                values = trimmed.values ∙ v;
                links = λ j in_js.
                    let here : Sets.has dec j (trim dec limit ks) ≡ true =
                      ap (Sets.has dec j) (sym (trim_long dec limit k ks many)) ∙ in_js in
                    trimmed.links j here
                    ∙ l j (λ same_key.
                      absurd (head_gone k j ks r.distinct same_key (has-trim dec j limit ks here)));
              },
            )
      ]
    where
      head_gone :
          (i j : K) (l : List K) → NoRepeats dec (i ∷ l) → i ≡ j → Sets.has dec j l ≡ true → ⊥
      head_gone i j l u e h = absurd (ground (arith, u.0, ap (λ x. Sets.has dec x l) e))
