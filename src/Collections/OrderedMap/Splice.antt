-- ===== src/Collections/OrderedMap/Splice.antt =====
-- base/collections/orderedmap.ts: what taking a link out of a chain and putting one in does to it.
use ovvio.Base.{ℕ, some, List, [], ◌∷◌, ◌++◌, ◌≡◌, ◌≢◌, sym, ◌∙◌, All}
use ovvio.Collections.OrderedMap.{Field}
use ovvio.Collections.OrderedMap.Segment.{
  Segment, last_of, first_of, Apart, IsDistinct, All-split, last-All, first-All, Segment-frame,
}

-- The fields `n'` and `p'` are `n` and `p` but at the given links.
abbrev pub Agree : Field ℕ → Field ℕ → ℕ → ℕ → Type 0
Agree f f' x y = (i : ℕ) → i ≢ x → i ≢ y → f' i ≡ f i

Agree-all :
    (f f' : Field ℕ) (x y : ℕ) (l : List ℕ)
    → Agree f f' x y
    → Apart x l
    → Apart y l
    → All (λ i. f' i ≡ f i) l
Agree-all f f' x y [] g h k = tt
Agree-all f f' x y (i ∷ l) g h k = (g i h.0 k.0, Agree-all f f' x y l g h.1 k.1)

module _ (n p n' p' : Field ℕ) where
  -- The link `x` is taken out, between `a` and what comes behind it.
  unlink_here :
      (a x : ℕ) (r : List ℕ) (b : ℕ)
      → Segment n p x r b
      → n' a ≡ some (first_of r b)
      → p' (first_of r b) ≡ some a
      → Agree n n' x a
      → Agree p p' x (first_of r b)
      → Apart x r
      → x ≢ b
      → Apart a r
      → IsDistinct (r ++ b ∷ [])
      → Segment n' p' a r b
  unlink_here a x [] b seg na pf gn gp ax xb aa d = (na, pf)
  unlink_here a x (y ∷ r) b seg na pf gn gp ax xb aa d =
      let (yr, yb) = All-split (λ z. z ≢ y) r (b ∷ []) d.0 in
      (
        na,
        pf,
        Segment-frame n p n' p' y r b (gn y ax.0 aa.0) (Agree-all n n' x a r gn ax.1 aa.1)
            (Agree-all p p' x y r gp ax.1 yr) (gp b (λ e. xb (sym e)) yb.0) seg.2,
      )

  pub unlink-Segment :
      (a : ℕ) (l : List ℕ) (x : ℕ) (r : List ℕ) (b : ℕ)
      → Segment n p a (l ++ x ∷ r) b
      → IsDistinct (a ∷ (l ++ x ∷ (r ++ b ∷ [])))
      → n' (last_of a l) ≡ some (first_of r b)
      → p' (first_of r b) ≡ some (last_of a l)
      → Agree n n' x (last_of a l)
      → Agree p p' x (first_of r b)
      → Segment n' p' a (l ++ r) b
  unlink-Segment a [] x r b seg d na pf gn gp =
      let (ar, ab) = All-split (λ z. z ≢ a) r (b ∷ []) d.0.1 in
      let (xr, xb) = All-split (λ z. z ≢ x) r (b ∷ []) d.1.0 in
      unlink_here a x r b seg.2 na pf gn gp xr (λ e. xb.0 (sym e)) ar d.1.1
  unlink-Segment a (z ∷ l) x r b seg d na pf gn gp =
      let (al, axr) = All-split (λ y. y ≢ a) (z ∷ l) (x ∷ (r ++ b ∷ [])) d.0 in
      let (zl, zxr) = All-split (λ y. y ≢ z) l (x ∷ (r ++ b ∷ [])) d.1.0 in
      let (zr, zb) = All-split (λ y. y ≢ z) r (b ∷ []) zxr.1 in
      (
        gn a (λ e. axr.0 (sym e)) (λ e. last-All (λ y. y ≢ a) z l al.0 al.1 (sym e)) ∙ seg.0,
        gp z (λ e. zxr.0 (sym e)) (λ e. first-All (λ y. y ≢ z) r b zr zb.0 (sym e)) ∙ seg.1,
        unlink-Segment z l x r b seg.2 d.1 na pf gn gp,
      )

  -- The link `x` is put in before the end.
  pub append-Segment :
      (a : ℕ) (l : List ℕ) (x b : ℕ)
      → Segment n p a l b
      → IsDistinct (a ∷ (l ++ b ∷ []))
      → Apart x (a ∷ l)
      → x ≢ b
      → n' x ≡ some b
      → p' b ≡ some x
      → n' (last_of a l) ≡ some x
      → p' x ≡ some (last_of a l)
      → Agree n n' x (last_of a l)
      → Agree p p' x b
      → Segment n' p' a (l ++ x ∷ []) b
  append-Segment a [] x b seg d ax xb nx pb nl px gn gp = (nl, px, (nx, pb))
  append-Segment a (z ∷ l) x b seg d ax xb nx pb nl px gn gp =
      let (al, ab) = All-split (λ y. y ≢ a) (z ∷ l) (b ∷ []) d.0 in
      let (zl, zb) = All-split (λ y. y ≢ z) l (b ∷ []) d.1.0 in
      (
        gn a ax.0 (λ e. last-All (λ y. y ≢ a) z l al.0 al.1 (sym e)) ∙ seg.0,
        gp z ax.1.0 (λ e. zb.0 (sym e)) ∙ seg.1,
        append-Segment z l x b seg.2 d.1 ax.1 xb nx pb nl px gn gp,
      )

  -- The link `x` is put in behind the start.
  pub cons-Segment :
      (a : ℕ) (l : List ℕ) (x b : ℕ)
      → Segment n p a l b
      → IsDistinct (a ∷ (l ++ b ∷ []))
      → Apart x l
      → x ≢ b
      → n' a ≡ some x
      → p' x ≡ some a
      → n' x ≡ some (first_of l b)
      → p' (first_of l b) ≡ some x
      → Agree n n' x a
      → Agree p p' x (first_of l b)
      → Segment n' p' a (x ∷ l) b
  cons-Segment a [] x b seg d xl xb na px nx pf gn gp = (na, px, (nx, pf))
  cons-Segment a (y ∷ l) x b seg d xl xb na px nx pf gn gp =
      let (al, ab) = All-split (λ z. z ≢ a) l (b ∷ []) d.0.1 in
      let (yl, yb) = All-split (λ z. z ≢ y) l (b ∷ []) d.1.0 in
      (
        na,
        px,
        (
          nx,
          pf,
          Segment-frame n p n' p' y l b (gn y xl.0 d.0.0) (Agree-all n n' x a l gn xl.1 al)
              (Agree-all p p' x y l gp xl.1 yl) (gp b (λ e. xb (sym e)) yb.0) seg.2,
        ),
      )
