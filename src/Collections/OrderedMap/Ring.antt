-- ===== src/Collections/OrderedMap/Ring.antt =====
-- base/collections/orderedmap.ts: the chain of an `OrderedMap`, and the assertions of its links.
use ovvio.Base.{
  ℕ, zero, suc, ◌+◌, ◌≤◌, ◌<◌, true, none, some, List, [], ◌∷◌, ◌++◌, ◌≡◌, ◌≢◌, sym, ◌∙◌, subst,
  ◌==◌, if◌then◌else◌, length, length-append, All, All-append, arith,
}
use mathlib.Core.List.{append_assoc}
use ovvio.Collections.OrderedMap.{
  OrderedMap, head, tail, valid_links, unlink, detach, count_links, checked,
}
use ovvio.Collections.OrderedMap.Segment.{
  Segment, last_of, first_of, Apart, IsDistinct, All-split, last-All, first-All, Segment-split,
  Segment-first, Segment-last,
}
use ovvio.Collections.OrderedMap.Splice.{unlink-Segment}

-- Distinctness of a list with a link in it.
pub IsDistinct-mid :
    (l : List ℕ) (x : ℕ) (r : List ℕ)
    → IsDistinct (l ++ x ∷ r)
    → IsDistinct (l ++ r) × Apart x l × Apart x r
IsDistinct-mid [] x r d = (d.1, tt, d.0)
IsDistinct-mid (y ∷ l) x r d =
    let (rest, xl, xr) = IsDistinct-mid l x r d.1 in
    let (yl, yxr) = All-split (λ z. z ≢ y) l (x ∷ r) d.0 in
    ((All-append _ l r yl yxr.1, rest), (λ e. yxr.0 (sym e), xl), xr)

module _ {K V : Type 0} where
  -- The links of the list, between head and tail.
  pub record Ring (s : OrderedMap K V) (xs : List ℕ) : Type 0 where
    pub seg : Segment s.next s.prev head xs tail
    pub distinct : IsDistinct (head ∷ (xs ++ tail ∷ []))
    pub start : s.prev head ≡ none
    pub end : s.next tail ≡ none
    pub room : length xs + 2 ≤ s.fresh
    pub below : All (λ i. i < s.fresh) xs
    pub clear : (i : ℕ) → s.fresh ≤ i → (s.next i ≡ none) × (s.prev i ≡ none)

  -- A link that is in no list.
  abbrev pub IsLoose : OrderedMap K V → ℕ → Type 0
  IsLoose s x = (s.next x ≡ none) × (s.prev x ≡ none)

  -- Head and tail are not in the list.
  pub Ring-Apart : (s : OrderedMap K V) (xs : List ℕ) → Ring s xs → Apart head xs × Apart tail xs
  Ring-Apart s xs g =
      let (rest, th, tn) = IsDistinct-mid (head ∷ xs) tail [] g.distinct in
      ((All-split (λ z. z ≢ head) xs (tail ∷ []) g.distinct.0).0, th.1)

  count_links-Segment :
      (s : OrderedMap K V) (fuel a : ℕ) (l : List ℕ)
      → s.next tail ≡ none
      → Segment s.next s.prev a l tail
      → length l + 1 < fuel
      → count_links fuel s a ≡ some (length l + 2)
  unfolding count_links
  count_links-Segment s zero a l e seg h = absurd (omega arith)
  count_links-Segment s (suc zero) a l e seg h = absurd (omega arith)
  count_links-Segment s (suc (suc fuel)) a [] e seg h = ground arith
  count_links-Segment s (suc (suc fuel)) a (x ∷ l) e seg h =
      ground (arith, count_links-Segment s (suc fuel) x l e seg.2 (omega arith))

  -- The assertion on the length holds where the map has as many keys as the list has links.
  pub checked-Ring :
      (s : OrderedMap K V) (xs : List ℕ) → Ring s xs → length s.map ≡ length xs → checked s ≡ some s
  unfolding checked
  checked-Ring s xs g h =
      ground
        (arith, count_links-Segment s (s.fresh + 1) head xs g.end g.seg (omega (arith, g.room)))

  -- The fields behind `detach`, by the neighbours of the link.
  unlink_fields :
      (s : OrderedMap K V) (x p q : ℕ)
      → s.next x ≡ some q
      → s.prev x ≡ some p
      → q ≢ x
      → p ≢ x
      → ((i : ℕ)
          → (unlink s x).next i ≡ (if x == i then none else if p == i then some q else s.next i))
        × ((i : ℕ)
            → (unlink s x).prev i ≡ (if x == i then none else if q == i then some p else s.prev i))
  unfolding unlink
  unlink_fields s x p q nx px qx pxx = (λ i. ground arith, λ i. ground arith)

  pub detach-Ring :
      (s : OrderedMap K V) (l : List ℕ) (x : ℕ) (r : List ℕ)
      → Ring s (l ++ x ∷ r)
      → (detach s x ≡ some (unlink s x)) × Ring (unlink s x) (l ++ r) × IsLoose (unlink s x) x
  unfolding detach
  detach-Ring s l x r g =
      let (left, right) = Segment-split s.next s.prev head l x r tail g.seg in
      let (px, np) = Segment-last s.next s.prev head l x left in
      let (nx, pq) = Segment-first s.next s.prev x r tail right in
      let p = last_of head l in
      let q = first_of r tail in
      let d = subst (λ m. IsDistinct (head ∷ m)) (append_assoc l (x ∷ r) (tail ∷ [])) g.distinct in
      let (rest, xl, xrt) = IsDistinct-mid (head ∷ l) x (r ++ tail ∷ []) d in
      let (xr, xt) = All-split (λ z. z ≢ x) r (tail ∷ []) xrt in
      let p_ne : p ≢ x = last-All (λ z. z ≢ x) head l xl.0 xl.1 in
      let q_ne : q ≢ x = first-All (λ z. z ≢ x) r tail xr xt.0 in
      let (hxs, txs) = Ring-Apart s (l ++ x ∷ r) g in
      let (hl, hr) = All-split (λ z. z ≢ head) l (x ∷ r) hxs in
      let (tl, tr) = All-split (λ z. z ≢ tail) l (x ∷ r) txs in
      let (bl, br) = All-split (λ z. z < s.fresh) l (x ∷ r) g.below in
      let q_head : q ≢ head = first-All (λ z. z ≢ head) r tail hr.1 (λ e. omega arith) in
      let p_tail : p ≢ tail = last-All (λ z. z ≢ tail) head l (λ e. omega arith) tl in
      let q_lt : q < s.fresh = first-All (λ z. z < s.fresh) r tail br.1 (omega (arith, g.room)) in
      let p_lt : p < s.fresh = last-All (λ z. z < s.fresh) head l (omega (arith, g.room)) bl in
      let x_lt : x < s.fresh = br.0 in
      let x_head : x ≢ head = hr.0 in
      let x_tail : x ≢ tail = tr.0 in
      let (fn, fp) = unlink_fields s x p q nx px q_ne p_ne in
      let valid : valid_links s x ≡ true = unfold valid_links in ground arith in
      (
        ground arith,
        record {
          seg =
              unlink-Segment s.next s.prev (unlink s x).next (unlink s x).prev head l x r tail g.seg
                d (fn p ∙ ground arith) (fp q ∙ ground arith) (λ i a b. fn i ∙ ground arith)
                (λ i a b. fp i ∙ ground arith);
          distinct = subst (λ m. IsDistinct (head ∷ m)) (sym (append_assoc l r (tail ∷ []))) rest;
          start = fp head ∙ ground arith;
          end = fn tail ∙ ground arith;
          room = omega (arith, length-append l (x ∷ r), length-append l r, g.room);
          below = All-append _ l r bl br.1;
          clear =
              λ i ge. (fn i ∙ ground (arith, g.clear i ge), fp i ∙ ground (arith, g.clear i ge));
        },
        (fn x ∙ ground arith, fp x ∙ ground arith),
      )
