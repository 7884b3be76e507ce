-- ===== src/Collections/OrderedMap/Refinement.antt =====
-- base/collections/orderedmap.ts: an `OrderedMap` is the list of its keys, beside their values.
use ovvio.Base.{
  ℕ, suc, false, ◌||◌, none, List, [], ◌∷◌, ◌++◌, ◌≡◌, refl, sym, ap, ◌∙◌, subst, same, is_some,
  length, length-append, arith,
}
use mathlib.Core.Path.{subst₂}
use ovvio.Base.Maps
use ovvio.Base.Maps.{Map, HasUniqueKeys}
use ovvio.Base.Sets
use ovvio.Collections.OrderedMap
use ovvio.Collections.OrderedMap.{
  Field, assign, OrderedMap, head, tail, moved, checked, unlink, link_before, link_after,
}
use ovvio.Collections.OrderedMap.Ring.{Ring}
use ovvio.Collections.OrderedMap.Ready.{IsReady, member-IsReady}
use ovvio.Collections.OrderedMap.Contents.{Paired, Paired-append, Place, remove_place, has_place}
use ovvio.Collections.SetUtils.Equal.{NoRepeats}

module _ {K V : Type 0} (dec : Discrete K) where
  -- The state holds the keys in their order, each once.
  pub record Represents (s : OrderedMap K V) (ks : List K) : Type 0 where
    pub links : List ℕ
    pub ring : Ring s links
    pub paired : Paired dec s.key s.map links ks
    pub distinct : NoRepeats dec ks
    pub known : (k : K) → is_some (Maps.get dec k s.map) ≡ Sets.has dec k ks
    pub unique : HasUniqueKeys dec s.map
    pub count : length s.map ≡ length ks

  module _ (s : OrderedMap K V) (ks : List K) (r : Represents s ks) where
    pub has-Represents : (k : K) → OrderedMap.has dec s k ≡ Sets.has dec k ks
    unfolding OrderedMap.has
    has-Represents k = r.known k

    pub absent : (k : K) → Sets.has dec k ks ≡ false → Maps.get dec k s.map ≡ none
    absent k h = let e = r.known k in ground arith

  -- A list of links with the keys and the map of the old state makes a state of keys.
  pub rebuild :
      (s t : OrderedMap K V) (ks js : List K) (xs : List ℕ)
      → Represents s ks
      → Ring t xs
      → t.key ≡ s.key
      → t.map ≡ s.map
      → Paired dec s.key s.map xs js
      → NoRepeats dec js
      → ((k : K) → Sets.has dec k js ≡ Sets.has dec k ks)
      → length js ≡ length ks
      → Represents t js
  rebuild s t ks js xs r g ek em p u h len = record {
    links = xs;
    ring = g;
    paired = subst₂ (λ f m. Paired dec f m xs js) (sym ek) (sym em) p;
    distinct = u;
    known = λ k. ap (λ m. is_some (Maps.get dec k m)) em ∙ r.known k ∙ sym (h k);
    unique = subst (HasUniqueKeys dec) (sym em) r.unique;
    count = ap length em ∙ r.count ∙ sym len;
  }

  pub moved-Ring : (s : OrderedMap K V) (xs : List ℕ) → Ring s xs → Ring (moved s) xs
  moved-Ring s xs g = record {
    seg = g.seg;
    distinct = g.distinct;
    start = g.start;
    end = g.end;
    room = g.room;
    below = g.below;
    clear = g.clear;
  }

  module _ (s : OrderedMap K V) (ks : List K) (k : K) (r : Represents s ks)
      (q : Place dec s.key s.map r.links ks k) where
    pub place-Ring : Ring s (q.before ++ q.link ∷ q.behind)
    place-Ring = subst (Ring s) q.links_split r.ring

    pub place-IsReady : IsReady s (q.before ++ q.behind) q.link
    place-IsReady = member-IsReady s q.before q.link q.behind place-Ring

    pub place_keys :
        (Sets.remove dec k ks ≡ q.keys_before ++ q.keys_behind)
        × NoRepeats dec (q.keys_before ++ q.keys_behind)
        × (Sets.has dec k (q.keys_before ++ q.keys_behind) ≡ false)
    place_keys =
        let (e, u, out) =
          remove_place dec k q.keys_before q.keys_behind
            (subst (NoRepeats dec) q.keys_split r.distinct) in
        (ap (Sets.remove dec k) q.keys_split ∙ e, u, out)

    pub place_has :
        (j : K)
        → Sets.has dec j ks ≡ (same dec k j || Sets.has dec j (q.keys_before ++ q.keys_behind))
    place_has j = ap (Sets.has dec j) q.keys_split ∙ has_place dec j k q.keys_before q.keys_behind

    pub place_length : length ks ≡ suc (length (q.keys_before ++ q.keys_behind))
    place_length = omega (
      arith,
      ap length q.keys_split,
      length-append q.keys_before (k ∷ q.keys_behind),
      length-append q.keys_before q.keys_behind,
    )

    pub place_pairs : Paired dec s.key s.map (q.before ++ q.behind) (q.keys_before ++ q.keys_behind)
    place_pairs =
        Paired-append dec s.key s.map q.before q.behind q.keys_before q.keys_behind q.paired_before
          q.paired_behind

  -- A new map holds no keys.
  pub empty-Represents : Represents OrderedMap.empty []
  unfolding Maps.get Sets.has NoRepeats
  empty-Represents = record {
    links = [];
    ring = record {
      seg = (refl, refl);
      distinct = ((ground arith, tt), (tt, tt));
      start = refl;
      end = refl;
      room = omega arith;
      below = tt;
      clear = λ i h. (ground arith, ground arith);
    };
    paired = tt;
    distinct = tt;
    known = λ k. refl;
    unique = tt;
    count = refl;
  }

  pub clear-Represents :
      (s : OrderedMap K V) (ks : List K) → Represents s ks → Represents (OrderedMap.clear s) []
  unfolding Maps.get Sets.has NoRepeats OrderedMap.clear
  clear-Represents s ks r = record {
    links = [];
    ring = record {
      seg = (ground arith, ground arith);
      distinct = ((ground arith, tt), (tt, tt));
      start = ground (arith, r.ring.start);
      end = ground (arith, r.ring.end);
      room = omega (arith, r.ring.room);
      below = tt;
      clear = λ i h. (
        ground (arith, r.ring.clear i h, r.ring.room),
        ground (arith, r.ring.clear i h, r.ring.room),
      );
    };
    paired = tt;
    distinct = tt;
    known = λ k. refl;
    unique = tt;
    count = refl;
  }
