-- ===== src/Collections/OrderedMap/Ready.antt =====
-- base/collections/orderedmap.ts: the insertion of a link, of no list or of the same one, and its
-- assertions.
use ovvio.Base.{
  ℕ, ◌<◌, some, List, [], ◌∷◌, ◌++◌, ◌≡◌, ◌≢◌, ◌∙◌, subst, length-append, All, All-append, arith,
}
use mathlib.Core.List.{append_assoc}
use ovvio.Collections.OrderedMap.{
  OrderedMap, head, tail, valid_links, unlink, detach, link_before, link_after, insert_before,
  insert_after,
}
use ovvio.Collections.OrderedMap.Segment.{IsDistinct, All-split, Segment-frame}
use ovvio.Collections.OrderedMap.Ring.{Ring, IsLoose, Ring-Apart, IsDistinct-mid, detach-Ring}
use ovvio.Collections.OrderedMap.Attach.{IsFree, link_before-Ring, link_after-Ring}

module _ {K V : Type 0} where
  -- A link that can enter the chain behind `detach`.
  pub record IsReady (s : OrderedMap K V) (xs : List ℕ) (x : ℕ) : Type 0 where
    pub detached : detach s x ≡ some (unlink s x)
    pub ring : Ring (unlink s x) xs
    pub free : IsFree (unlink s x) xs x

  loose_fields :
      (s : OrderedMap K V) (x : ℕ)
      → IsLoose s x
      → ((i : ℕ) → (unlink s x).next i ≡ s.next i) × ((i : ℕ) → (unlink s x).prev i ≡ s.prev i)
  unfolding unlink
  loose_fields s x (n, p) = (λ i. ground arith, λ i. ground arith)

  -- A link of no list is ready as it is.
  pub loose-IsReady :
      (s : OrderedMap K V) (xs : List ℕ) (x : ℕ) → Ring s xs → IsFree s xs x → IsReady s xs x
  unfolding detach valid_links
  loose-IsReady s xs x g f =
      let (fn, fp) = loose_fields s x f.loose in
      let (n, p) = f.loose in
      let pointwise : (l : List ℕ)
          → All (λ i. (unlink s x).next i ≡ s.next i) l
            × All (λ i. (unlink s x).prev i ≡ s.prev i) l =
        λ l. (
          everywhere (λ i. (unlink s x).next i ≡ s.next i) fn l,
          everywhere (λ i. (unlink s x).prev i ≡ s.prev i) fp l,
        ) in
      record {
        detached = ground arith;
        ring = record {
          seg =
              Segment-frame s.next s.prev (unlink s x).next (unlink s x).prev head xs tail (fn head)
                (pointwise xs).0 (pointwise xs).1 (fp tail) g.seg;
          distinct = g.distinct;
          start = fp head ∙ g.start;
          end = fn tail ∙ g.end;
          room = unfold unlink in g.room;
          below = unfold unlink in g.below;
          clear = unfold unlink in λ i ge. (fn i ∙ (g.clear i ge).0, fp i ∙ (g.clear i ge).1);
        };
        free = record {
          loose = (fn x ∙ f.loose.0, fp x ∙ f.loose.1);
          inside = f.inside;
          below = unfold unlink in f.below;
          apart = f.apart;
          room = unfold unlink in f.room;
        };
      }
    where
      everywhere : (P : ℕ → Type 0) → ((i : ℕ) → P i) → (l : List ℕ) → All P l
      everywhere P h [] = tt
      everywhere P h (i ∷ l) = (h i, everywhere P h l)

  -- A link of the list is ready for the rest of it.
  pub member-IsReady :
      (s : OrderedMap K V) (l : List ℕ) (x : ℕ) (r : List ℕ)
      → Ring s (l ++ x ∷ r)
      → IsReady s (l ++ r) x
  member-IsReady s l x r g =
      let (d, ring, loose) = detach-Ring s l x r g in
      let (hxs, txs) = Ring-Apart s (l ++ x ∷ r) g in
      let (hl, hr) = All-split (λ z. z ≢ head) l (x ∷ r) hxs in
      let (tl, tr) = All-split (λ z. z ≢ tail) l (x ∷ r) txs in
      let (bl, br) = All-split (λ z. z < s.fresh) l (x ∷ r) g.below in
      let (rest, xl, xr) =
        IsDistinct-mid l x (r ++ tail ∷ [])
          (subst IsDistinct (append_assoc l (x ∷ r) (tail ∷ [])) g.distinct.1) in
      let x_head : x ≢ head = hr.0 in
      let x_tail : x ≢ tail = tr.0 in
      record {
        detached = d;
        ring = ring;
        free = record {
          loose = loose;
          inside = omega arith;
          below = unfold unlink in br.0;
          apart = All-append _ l r xl (All-split (λ z. z ≢ x) r (tail ∷ []) xr).0;
          room = unfold unlink in omega (arith, length-append l (x ∷ r), length-append l r, g.room);
        };
      }

  -- A ready link is put at the end, and no assertion fails.
  pub insert_before-Ring :
      (s : OrderedMap K V) (xs : List ℕ) (x : ℕ)
      → IsReady s xs x
      → (insert_before s tail x ≡ some (link_before (unlink s x) tail x))
        × Ring (link_before (unlink s x) tail x) (xs ++ x ∷ [])
  unfolding insert_before
  insert_before-Ring s xs x h =
      let (g, vt, vx, nx) = link_before-Ring (unlink s x) xs x h.ring h.free in
      let inside = h.free.inside in (ground (arith, h.detached), g)

  pub insert_after-Ring :
      (s : OrderedMap K V) (xs : List ℕ) (x : ℕ)
      → IsReady s xs x
      → (insert_after s head x ≡ some (link_after (unlink s x) head x))
        × Ring (link_after (unlink s x) head x) (x ∷ xs)
  unfolding insert_after
  insert_after-Ring s xs x h =
      let (g, vh, vx, px) = link_after-Ring (unlink s x) xs x h.ring h.free in
      let inside = h.free.inside in (ground (arith, h.detached), g)
