-- ===== src/Collections/OrderedMap/Moves.antt =====
-- base/collections/orderedmap.ts: moving a key.
use ovvio.Base.{
  some, List, [], ◌∷◌, ◌++◌, ◌≡◌, refl, sym, ap, ◌∙◌, subst, if◌then◌else◌, length, length-append,
  arith, inl, inr, Bool-cases,
}
use ovvio.Base.Sets
use ovvio.Collections.OrderedMap
use ovvio.Collections.OrderedMap.{
  Field, assign, OrderedMap, head, tail, moved, checked, unlink, link_before, link_after,
}
use ovvio.Collections.OrderedMap.Ring.{checked-Ring}
use ovvio.Collections.OrderedMap.Ready.{insert_before-Ring, insert_after-Ring}
use ovvio.Collections.OrderedMap.Contents.{
  Paired, Paired-append, Paired-length, Place, find-Place, NoRepeats-snoc,
}
use ovvio.Collections.OrderedMap.Refinement.{
  Represents, absent, rebuild, moved-Ring, place-IsReady, place_keys, place_has, place_length,
  place_pairs,
}
use ovvio.Collections.SetUtils.Equal.{NoRepeats}

module _ {K V : Type 0} (dec : Discrete K) where
  module _ (s : OrderedMap K V) (ks : List K) (k : K) (r : Represents dec s ks)
      (q : Place dec s.key s.map r.links ks k) where
    -- The list without the key, then the key.
    to_end :
        (t : OrderedMap K V) × (OrderedMap.move_to_end dec s k ≡ some t)
        × Represents dec t ((q.keys_before ++ q.keys_behind) ++ k ∷ [])
        × (t.value ≡ s.value)
        × (t.map ≡ s.map)
    unfolding OrderedMap.move_to_end
    to_end =
        let u = link_before (unlink s q.link) tail q.link in
        let (ins, g) =
          insert_before-Ring s (q.before ++ q.behind) q.link (place-IsReady dec s ks k r q) in
        let g' = moved-Ring dec u ((q.before ++ q.behind) ++ q.link ∷ []) g in
        let (e, v, out) = place_keys dec s ks k r q in
        let js = (q.keys_before ++ q.keys_behind) ++ k ∷ [] in
        let pairs =
          Paired-append dec s.key s.map (q.before ++ q.behind) (q.link ∷ [])
            (q.keys_before ++ q.keys_behind) (k ∷ []) (place_pairs dec s ks k r q)
            (q.named, q.found, tt) in
        let size : length js ≡ length ks = omega (
          arith,
          length-append (q.keys_before ++ q.keys_behind) (k ∷ []),
          place_length dec s ks k r q,
        ) in
        let same_map : u.map ≡ s.map = unfold link_before unlink in refl in
        let check : checked (moved u) ≡ some (moved u) =
          checked-Ring (moved u) ((q.before ++ q.behind) ++ q.link ∷ []) g' (
            ap length same_map
            ∙ r.count
            ∙ sym size
            ∙ sym (Paired-length dec s.key s.map _ _ pairs)) in
        (
          moved u,
          ground (arith, q.found, ins, check),
          rebuild dec s (moved u) ks js ((q.before ++ q.behind) ++ q.link ∷ []) r g'
              (unfold link_before unlink in refl) same_map pairs
              (NoRepeats-snoc dec k (q.keys_before ++ q.keys_behind) v out)
              (λ j.
                Sets.has-append dec j (q.keys_before ++ q.keys_behind) (k ∷ [])
                ∙ unfold Sets.has in ground (arith, place_has dec s ks k r q j))
              size,
          unfold link_before unlink in refl,
          same_map,
        )

    -- The key, then the list without it.
    to_start :
        (t : OrderedMap K V) × (OrderedMap.move_to_start dec s k ≡ some t)
        × Represents dec t (k ∷ (q.keys_before ++ q.keys_behind))
        × (t.value ≡ s.value)
        × (t.map ≡ s.map)
    unfolding OrderedMap.move_to_start
    to_start =
        let u = link_after (unlink s q.link) head q.link in
        let xs = q.link ∷ (q.before ++ q.behind) in
        let (ins, g) =
          insert_after-Ring s (q.before ++ q.behind) q.link (place-IsReady dec s ks k r q) in
        let g' = moved-Ring dec u xs g in
        let (e, v, out) = place_keys dec s ks k r q in
        let js = k ∷ (q.keys_before ++ q.keys_behind) in
        let pairs : Paired dec s.key s.map xs js = (q.named, q.found, place_pairs dec s ks k r q) in
        let size : length js ≡ length ks = omega (arith, place_length dec s ks k r q) in
        let same_map : u.map ≡ s.map = unfold link_after unlink in refl in
        let check : checked (moved u) ≡ some (moved u) = checked-Ring (moved u) xs g' (
          ap length same_map
          ∙ r.count
          ∙ sym size
          ∙ sym (Paired-length dec s.key s.map xs js pairs)) in
        (
          moved u,
          ground (arith, q.found, ins, check),
          rebuild dec s (moved u) ks js xs r g' (unfold link_after unlink in refl) same_map pairs
              (unfold NoRepeats in (out, v))
              (λ j. unfold Sets.has in ground (arith, place_has dec s ks k r q j)) size,
          unfold link_after unlink in refl,
          same_map,
        )

  -- `moveToEnd` puts a key behind all others, and does nothing to another value.
  pub move_to_end-Represents :
      (s : OrderedMap K V) (ks : List K) (k : K)
      → Represents dec s ks
      → (t : OrderedMap K V) × (OrderedMap.move_to_end dec s k ≡ some t)
        × Represents dec t (if Sets.has dec k ks then Sets.remove dec k ks ++ k ∷ [] else ks)
        × (t.value ≡ s.value)
        × (t.map ≡ s.map)
  unfolding OrderedMap.move_to_end
  move_to_end-Represents s ks k r = elim (Bool-cases (Sets.has dec k ks)) [
    | inr out ↦ (s, ground (arith, absent dec s ks r k out), rw out r, refl, refl)
    | inl in_keys ↦
        let q = find-Place dec s.key s.map r.links ks k r.paired in_keys in
        let (t, e, rep, v, m) = to_end s ks k r q in
        (
          t,
          e,
          rw in_keys (
              subst (Represents dec t) (ap (λ l. l ++ k ∷ []) (sym (place_keys dec s ks k r q).0))
                rep),
          v,
          m,
        )
  ]

  -- `moveToStart` puts a key before all others.
  pub move_to_start-Represents :
      (s : OrderedMap K V) (ks : List K) (k : K)
      → Represents dec s ks
      → (t : OrderedMap K V) × (OrderedMap.move_to_start dec s k ≡ some t)
        × Represents dec t (if Sets.has dec k ks then k ∷ Sets.remove dec k ks else ks)
        × (t.value ≡ s.value)
        × (t.map ≡ s.map)
  unfolding OrderedMap.move_to_start
  move_to_start-Represents s ks k r = elim (Bool-cases (Sets.has dec k ks)) [
    | inr out ↦ (s, ground (arith, absent dec s ks r k out), rw out r, refl, refl)
    | inl in_keys ↦
        let q = find-Place dec s.key s.map r.links ks k r.paired in_keys in
        let (t, e, rep, v, m) = to_start s ks k r q in
        (
          t,
          e,
          rw in_keys
              (subst (Represents dec t) (ap (λ l. k ∷ l) (sym (place_keys dec s ks k r q).0)) rep),
          v,
          m,
        )
  ]
