-- ===== src/Collections/OrderedMap/Adds.antt =====
-- base/collections/orderedmap.ts: adding a key and setting its value.
use ovvio.Base.{
  ℕ, suc, ◌<◌, false, some, List, [], ◌∷◌, ◌++◌, ◌≡◌, refl, sym, ap, ◌∙◌, subst, same_iff, length,
  length-append, All, arith, inl, inr, Bool-cases,
}
use ovvio.Collections.Search.Bounds.{All-mono}
use ovvio.Base.Maps
use ovvio.Base.Maps.{Map}
use ovvio.Base.Sets
use ovvio.Collections.OrderedMap
use ovvio.Collections.OrderedMap.{
  Field, assign, OrderedMap, head, tail, moved, checked, unlink, link_before, link_after,
}
use ovvio.Collections.OrderedMap.Ring.{Ring, checked-Ring}
use ovvio.Collections.OrderedMap.Ready.{IsReady, loose-IsReady, insert_before-Ring}
use ovvio.Collections.OrderedMap.Contents.{
  Paired, add-HasUniqueKeys, Paired-append, Paired-frame, Paired-length, find-Place, NoRepeats-snoc,
}
use ovvio.Collections.OrderedMap.Refinement.{Represents, absent}

module _ {K V : Type 0} (dec : Discrete K) where
  module _ (s : OrderedMap K V) (ks : List K) (k : K) (r : Represents dec s ks)
      (out : Sets.has dec k ks ≡ false) where
    abbrev fresh_link : OrderedMap K V
    fresh_link = record s { key = assign s.key s.fresh (some k); fresh = suc s.fresh }

    fresh_link-Ring : Ring fresh_link r.links
    fresh_link-Ring =
        let g = r.ring in
        record {
          seg = g.seg;
          distinct = g.distinct;
          start = g.start;
          end = g.end;
          room = omega (arith, g.room);
          below = All-mono _ _ r.links (λ i h. omega arith) g.below;
          clear = λ i h. g.clear i (omega arith);
        }

    fresh_link-IsReady : IsReady fresh_link r.links s.fresh
    fresh_link-IsReady =
        let g = r.ring in
        loose-IsReady fresh_link r.links s.fresh fresh_link-Ring (record {
          loose = g.clear s.fresh (omega arith);
          inside = omega (arith, g.room);
          below = omega arith;
          apart = All-mono _ _ r.links (λ i h e. absurd (omega (arith, e))) g.below;
          room = omega (arith, g.room);
        })

    old_keys :
        (js : List K)
        → Sets.has dec k js ≡ false
        → All (λ j. Maps.get dec j (Maps.put dec k s.fresh s.map) ≡ Maps.get dec j s.map) js
    unfolding Sets.has
    old_keys [] h = tt
    old_keys (j ∷ js) h = (
      ground (arith, Maps.get-put dec k j s.fresh s.map, same_iff dec j k),
      old_keys js (ground arith),
    )

    old_links : (xs : List ℕ) → All (λ i. i < s.fresh) xs → All (λ i. fresh_link.key i ≡ s.key i) xs
    old_links [] h = tt
    old_links (i ∷ xs) h = (ground (arith, h.0), old_links xs h.1)

    -- The list with the key at its end.
    add_new :
        (t : OrderedMap K V) × (x : ℕ) × (OrderedMap.add_impl dec s k ≡ some (t, x))
        × (Maps.get dec k t.map ≡ some x)
        × Represents dec t (ks ++ k ∷ [])
        × (t.value ≡ s.value)
    unfolding OrderedMap.add_impl
    add_new =
        let x = s.fresh in
        let xs = r.links ++ x ∷ [] in
        let js = ks ++ k ∷ [] in
        let u = link_before (unlink fresh_link x) tail x in
        let (ins, g) = insert_before-Ring fresh_link r.links x fresh_link-IsReady in
        let m = Maps.put dec k x s.map in
        let t : OrderedMap K V = record u {
          map = Maps.put dec k x u.map;
          mutations_count = suc u.mutations_count;
        } in
        let gt : Ring t xs = record {
          seg = g.seg;
          distinct = g.distinct;
          start = g.start;
          end = g.end;
          room = g.room;
          below = g.below;
          clear = g.clear;
        } in
        let unknown = absent dec s ks r k out in
        let (uniq, len) = add-HasUniqueKeys dec k x s.map unknown r.unique in
        let own : Maps.get dec k m ≡ some x = Maps.get-put_self dec k x s.map in
        let pairs : Paired dec fresh_link.key m xs js =
          Paired-append dec fresh_link.key m r.links (x ∷ []) ks (k ∷ [])
            (Paired-frame dec s.key fresh_link.key s.map m r.links ks
              (old_links r.links r.ring.below) (old_keys ks out) r.paired)
            (ground arith, own, tt) in
        let count : length m ≡ length js = omega (arith, len, r.count, length-append ks (k ∷ [])) in
        let same_map : t.map ≡ m = unfold link_before unlink in refl in
        let check : checked t ≡ some t =
          checked-Ring t xs gt
            (ap length same_map ∙ count ∙ sym (Paired-length dec fresh_link.key m xs js pairs)) in
        (
          t,
          x,
          ground (arith, unknown, ins, check),
          ap (Maps.get dec k) same_map ∙ own,
          record {
            links = xs;
            ring = gt;
            paired = unfold link_before unlink in pairs;
            distinct = NoRepeats-snoc dec k ks r.distinct out;
            known =
                unfold link_before unlink Sets.has in
                λ j. ground (
                  arith,
                  Maps.get-put dec k j x s.map,
                  r.known j,
                  Sets.has-append dec j ks (k ∷ []),
                  same_iff dec k j,
                );
            unique = unfold link_before unlink in uniq;
            count = unfold link_before unlink in count;
          },
          unfold link_before unlink in refl,
        )

  -- A key that is new comes to the end, another stays where it is; no assertion fails.
  pub add_impl-Represents :
      (s : OrderedMap K V) (ks : List K) (k : K)
      → Represents dec s ks
      → (t : OrderedMap K V) × (x : ℕ) × (OrderedMap.add_impl dec s k ≡ some (t, x))
        × (Maps.get dec k t.map ≡ some x)
        × Represents dec t (Sets.add dec k ks)
        × (t.value ≡ s.value)
  unfolding OrderedMap.add_impl
  add_impl-Represents s ks k r = elim (Bool-cases (Sets.has dec k ks)) [
    | inr out ↦
        let (t, x, e, at, rep, v) = add_new s ks k r out in
        (t, x, e, at, subst (Represents dec t) (sym (Sets.add_absent dec k ks out)) rep, v)
    | inl in_keys ↦
        let q = find-Place dec s.key s.map r.links ks k r.paired in_keys in
        (
          s,
          q.link,
          ground (arith, q.found),
          q.found,
          subst (Represents dec s) (sym (Sets.add_present dec k ks in_keys)) r,
          refl,
        )
  ]
