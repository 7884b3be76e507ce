-- ===== src/Collections/OrderedMap/Deletes.antt =====
-- base/collections/orderedmap.ts: deleting and adding a key.
use ovvio.Base.{
  ℕ, true, false, some, List, [], ◌∷◌, ◌++◌, ◌≡◌, ◌≢◌, refl, sym, ap, ◌∙◌, subst, same_iff, length,
  All, arith, inl, inr, Bool-cases,
}
use ovvio.Base.Maps
use ovvio.Base.Maps.{Map}
use ovvio.Base.Sets
use ovvio.Collections.OrderedMap
use ovvio.Collections.OrderedMap.{
  Field, assign, OrderedMap, head, tail, moved, checked, unlink, link_before, link_after,
}
use ovvio.Collections.OrderedMap.Ring.{Ring, checked-Ring}
use ovvio.Collections.OrderedMap.Contents.{
  remove-HasUniqueKeys, Paired-frame, Paired-length, Place, find-Place,
}
use ovvio.Collections.OrderedMap.Refinement.{
  Represents, absent, place-IsReady, place_keys, place_has, place_length, place_pairs,
}
use ovvio.Collections.SetUtils.Equal.{remove_absent}

module _ {K V : Type 0} (dec : Discrete K) where
  module _ (s : OrderedMap K V) (ks : List K) (k : K) (r : Represents dec s ks)
      (q : Place dec s.key s.map r.links ks k) where
    -- The other keys are still known by their links.
    others :
        (js : List K)
        → Sets.has dec k js ≡ false
        → All (λ j. Maps.get dec j (Maps.remove dec k s.map) ≡ Maps.get dec j s.map) js
    unfolding Sets.has
    others [] h = tt
    others (j ∷ js) h =
        (ground (arith, Maps.get-remove dec k j s.map, same_iff dec j k), others js (ground arith))

    -- The list without the key.
    delete_place :
        (t : OrderedMap K V) × (OrderedMap.delete dec s k ≡ some (t, true))
        × Represents dec t (q.keys_before ++ q.keys_behind)
        × (t.value ≡ s.value)
        × ((j : K) → k ≢ j → Maps.get dec j t.map ≡ Maps.get dec j s.map)
    unfolding OrderedMap.delete
    delete_place =
        let ready = place-IsReady dec s ks k r q in
        let xs = q.before ++ q.behind in
        let js = q.keys_before ++ q.keys_behind in
        let u : OrderedMap K V = record (unlink s q.link) {
          map = Maps.remove dec k (unlink s q.link).map;
        } in
        let g = ready.ring in
        let gu : Ring (moved u) xs = record {
          seg = g.seg;
          distinct = g.distinct;
          start = g.start;
          end = g.end;
          room = g.room;
          below = g.below;
          clear = g.clear;
        } in
        let (e, v, out) = place_keys dec s ks k r q in
        let same_map : (moved u).map ≡ Maps.remove dec k s.map = unfold unlink in refl in
        let (uniq, len) = remove-HasUniqueKeys dec k q.link s.map q.found r.unique in
        let pairs =
          Paired-frame dec s.key s.key s.map (Maps.remove dec k s.map) xs js (all_refl xs)
            (others js out) (place_pairs dec s ks k r q) in
        let count : length (Maps.remove dec k s.map) ≡ length js =
          omega (arith, len, r.count, place_length dec s ks k r q) in
        let check : checked (moved u) ≡ some (moved u) =
          checked-Ring (moved u) xs gu
            (ap length same_map ∙ count ∙ sym (Paired-length dec s.key _ xs js pairs)) in
        (
          moved u,
          ground (arith, q.found, ready.detached, check),
          record {
            links = xs;
            ring = gu;
            paired = unfold unlink in pairs;
            distinct = v;
            known =
                unfold unlink in
                λ j. ground (
                  arith,
                  Maps.get-remove dec k j s.map,
                  r.known j,
                  place_has dec s ks k r q j,
                  same_iff dec k j,
                  out_iff j out,
                );
            unique = unfold unlink in uniq;
            count = unfold unlink in count;
          },
          unfold unlink in refl,
          unfold unlink in λ j n. ground (arith, Maps.get-remove dec k j s.map),
        )
      where
        all_refl : (l : List ℕ) → All (λ x. s.key x ≡ s.key x) l
        all_refl [] = tt
        all_refl (x ∷ l) = (refl, all_refl l)

        out_iff :
            (j : K)
            → Sets.has dec k (q.keys_before ++ q.keys_behind) ≡ false
            → k ≡ j
            → Sets.has dec j (q.keys_before ++ q.keys_behind) ≡ false
        out_iff j h e = subst (λ i. Sets.has dec i (q.keys_before ++ q.keys_behind) ≡ false) e h

  -- `delete` takes a key out and tells whether it was there; no assertion fails.
  pub delete-Represents :
      (s : OrderedMap K V) (ks : List K) (k : K)
      → Represents dec s ks
      → (t : OrderedMap K V) × (OrderedMap.delete dec s k ≡ some (t, Sets.has dec k ks))
        × Represents dec t (Sets.remove dec k ks)
        × (t.value ≡ s.value)
        × ((j : K) → k ≢ j → Maps.get dec j t.map ≡ Maps.get dec j s.map)
  unfolding OrderedMap.delete
  delete-Represents s ks k r = elim (Bool-cases (Sets.has dec k ks)) [
    | inr out ↦ (
      s,
      ground (arith, absent dec s ks r k out, out),
      subst (Represents dec s) (sym (remove_absent dec k ks out)) r,
      refl,
      λ j n. refl,
    )
    | inl in_keys ↦
        let q = find-Place dec s.key s.map r.links ks k r.paired in_keys in
        let (t, e, rep, v, m) = delete_place s ks k r q in
        (
          t,
          e ∙ ap (λ b. some (t, b)) (sym in_keys),
          subst (Represents dec t) (sym (place_keys dec s ks k r q).0) rep,
          v,
          m,
        )
  ]
