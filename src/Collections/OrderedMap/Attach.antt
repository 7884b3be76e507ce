-- ===== src/Collections/OrderedMap/Attach.antt =====
-- base/collections/orderedmap.ts: a loose link enters the chain, at its end or at its start.
use ovvio.Base.{
  ℕ, ◌+◌, ◌≤◌, ◌<◌, true, none, some, List, [], ◌∷◌, ◌++◌, ◌≡◌, ◌≢◌, sym, ◌∙◌, subst, ◌==◌,
  if◌then◌else◌, length, length-append, All-append, arith,
}
use mathlib.Core.List.{append_assoc}
use ovvio.Collections.OrderedMap.{OrderedMap, head, tail, valid_links, link_before, link_after}
use ovvio.Collections.OrderedMap.Segment.{
  last_of, first_of, Apart, IsDistinct, All-split, last-All, first-All, Segment-first, Segment-last,
}
use ovvio.Collections.OrderedMap.Splice.{append-Segment, cons-Segment}
use ovvio.Collections.OrderedMap.Ring.{Ring, IsLoose, Ring-Apart}

-- A link more in a list of distinct ones.
IsDistinct-insert :
    (l : List ℕ) (x : ℕ) (r : List ℕ)
    → IsDistinct (l ++ r)
    → Apart x l
    → Apart x r
    → IsDistinct (l ++ x ∷ r)
IsDistinct-insert [] x r d xl xr = (xr, d)
IsDistinct-insert (y ∷ l) x r d xl xr =
    let (yl, yr) = All-split (λ z. z ≢ y) l r d.0 in
    (All-append _ l (x ∷ r) yl ((λ e. xl.0 (sym e)), yr), IsDistinct-insert l x r d.1 xl.1 xr)

module _ {K V : Type 0} where
  -- What a link needs to enter the chain.
  pub record IsFree (s : OrderedMap K V) (xs : List ℕ) (x : ℕ) : Type 0 where
    pub loose : IsLoose s x
    pub inside : 1 < x
    pub below : x < s.fresh
    pub apart : Apart x xs
    pub room : length xs + 3 ≤ s.fresh

  link_before_fields :
      (s : OrderedMap K V) (x p : ℕ)
      → s.prev tail ≡ some p
      → 1 < x
      → ((i : ℕ)
          → (link_before s tail x).next i
            ≡ (if p == i then some x else if x == i then some tail else s.next i))
        × ((i : ℕ)
            → (link_before s tail x).prev i
              ≡ (if tail == i then some x else if x == i then some p else s.prev i))
  unfolding link_before
  link_before_fields s x p pt h = (λ i. ground arith, λ i. ground arith)

  pub link_before-Ring :
      (s : OrderedMap K V) (xs : List ℕ) (x : ℕ)
      → Ring s xs
      → IsFree s xs x
      → let t = link_before s tail x in
        Ring t (xs ++ x ∷ [])
        × (valid_links t tail ≡ true)
        × (valid_links t x ≡ true)
        × (t.next x ≡ some tail)
  link_before-Ring s xs x g f =
      let t = link_before s tail x in
      let (pt, np) = Segment-last s.next s.prev head xs tail g.seg in
      let p = last_of head xs in
      let (hxs, txs) = Ring-Apart s xs g in
      let free = f.inside in
      let p_ne : p ≢ x = last-All (λ z. z ≢ x) head xs (λ e. omega arith) f.apart in
      let p_tail : p ≢ tail = last-All (λ z. z ≢ tail) head xs (λ e. omega arith) txs in
      let p_lt : p < s.fresh =
        last-All (λ z. z < s.fresh) head xs (omega (arith, g.room)) g.below in
      let (fn, fp) = link_before_fields s x p pt f.inside in
      let nx : t.next x ≡ some tail = fn x ∙ ground arith in
      let pe : t.prev tail ≡ some x = fp tail ∙ ground arith in
      let px : t.prev x ≡ some p = fp x ∙ ground arith in
      let pn : t.next p ≡ some x = fn p ∙ ground arith in
      let ne : t.next tail ≡ none = fn tail ∙ ground (arith, g.end) in
      let lt = f.below in
      (
        record {
          seg =
              append-Segment s.next s.prev t.next t.prev head xs x tail g.seg g.distinct
                ((λ e. omega arith), f.apart) (λ e. omega arith) nx pe pn px
                (λ i a b. fn i ∙ ground arith) (λ i a b. fp i ∙ ground arith);
          distinct =
              subst (λ m. IsDistinct (head ∷ m)) (sym (append_assoc xs (x ∷ []) (tail ∷ [])))
                (IsDistinct-insert (head ∷ xs) x (tail ∷ []) g.distinct
                  ((λ e. omega arith), f.apart) ((λ e. omega arith), tt));
          start = fp head ∙ ground (arith, g.start);
          end = ne;
          room = unfold link_before in omega (arith, length-append xs (x ∷ []), f.room);
          below = unfold link_before in All-append _ xs (x ∷ []) g.below (f.below, tt);
          clear =
              unfold link_before in
              λ i ge. (fn i ∙ ground (arith, g.clear i ge), fp i ∙ ground (arith, g.clear i ge));
        },
        unfold valid_links in ground arith,
        unfold valid_links in ground arith,
        nx,
      )

  link_after_fields :
      (s : OrderedMap K V) (x q : ℕ)
      → s.next head ≡ some q
      → 1 < x
      → ((i : ℕ)
          → (link_after s head x).next i
            ≡ (if head == i then some x else if x == i then some q else s.next i))
        × ((i : ℕ)
            → (link_after s head x).prev i
              ≡ (if q == i then some x else if x == i then some head else s.prev i))
  unfolding link_after
  link_after_fields s x q nh h = (λ i. ground arith, λ i. ground arith)

  pub link_after-Ring :
      (s : OrderedMap K V) (xs : List ℕ) (x : ℕ)
      → Ring s xs
      → IsFree s xs x
      → let t = link_after s head x in
        Ring t (x ∷ xs)
        × (valid_links t head ≡ true)
        × (valid_links t x ≡ true)
        × (t.prev x ≡ some head)
  link_after-Ring s xs x g f =
      let t = link_after s head x in
      let (nh, ph) = Segment-first s.next s.prev head xs tail g.seg in
      let q = first_of xs tail in
      let (hxs, txs) = Ring-Apart s xs g in
      let free = f.inside in
      let q_ne : q ≢ x = first-All (λ z. z ≢ x) xs tail f.apart (λ e. omega arith) in
      let q_head : q ≢ head = first-All (λ z. z ≢ head) xs tail hxs (λ e. omega arith) in
      let q_lt : q < s.fresh =
        first-All (λ z. z < s.fresh) xs tail g.below (omega (arith, g.room)) in
      let (fn, fp) = link_after_fields s x q nh f.inside in
      let px : t.prev x ≡ some head = fp x ∙ ground arith in
      let he : t.next head ≡ some x = fn head ∙ ground arith in
      let nx : t.next x ≡ some q = fn x ∙ ground arith in
      let qp : t.prev q ≡ some x = fp q ∙ ground arith in
      let pe : t.prev head ≡ none = fp head ∙ ground (arith, g.start) in
      let lt = f.below in
      (
        record {
          seg =
              cons-Segment s.next s.prev t.next t.prev head xs x tail g.seg g.distinct f.apart
                (λ e. omega arith) he px nx qp (λ i a b. fn i ∙ ground arith)
                (λ i a b. fp i ∙ ground arith);
          distinct =
              IsDistinct-insert (head ∷ []) x (xs ++ tail ∷ []) g.distinct ((λ e. omega arith), tt)
                (All-append _ xs (tail ∷ []) f.apart ((λ e. omega arith), tt));
          start = pe;
          end = fn tail ∙ ground (arith, g.end);
          room = unfold link_after in omega (arith, f.room);
          below = unfold link_after in (f.below, g.below);
          clear =
              unfold link_after in
              λ i ge. (fn i ∙ ground (arith, g.clear i ge), fp i ∙ ground (arith, g.clear i ge));
        },
        unfold valid_links in ground arith,
        unfold valid_links in ground arith,
        px,
      )
