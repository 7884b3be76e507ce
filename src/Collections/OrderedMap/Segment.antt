-- ===== src/Collections/OrderedMap/Segment.antt =====
-- base/collections/orderedmap.ts: chains of links, in both directions.
use ovvio.Base.{ℕ, some, List, [], ◌∷◌, ◌++◌, ◌≡◌, ◌≢◌, ◌∙◌, All}
use ovvio.Collections.OrderedMap.{Field}

-- From the link `a` by `l` to `b`, and back.
abbrev pub Segment : Field ℕ → Field ℕ → ℕ → List ℕ → ℕ → Type 0
Segment n p a [] b = (n a ≡ some b) × (p b ≡ some a)
Segment n p a (x ∷ l) b = (n a ≡ some x) × (p x ≡ some a) × Segment n p x l b

abbrev pub last_of : ℕ → List ℕ → ℕ
last_of a [] = a
last_of a (x ∷ l) = last_of x l

abbrev pub first_of : List ℕ → ℕ → ℕ
first_of [] b = b
first_of (x ∷ l) b = x

-- No link of the list is the given one, and none is there twice.
abbrev pub Apart : ℕ → List ℕ → Type 0
Apart x l = All (λ y. y ≢ x) l

abbrev pub IsDistinct : List ℕ → Type 0
IsDistinct [] = Unit
IsDistinct (x ∷ l) = Apart x l × IsDistinct l

pub All-split : (P : ℕ → Type 0) (xs ys : List ℕ) → All P (xs ++ ys) → All P xs × All P ys
All-split P [] ys h = (tt, h)
All-split P (x ∷ xs) ys h = let (l, r) = All-split P xs ys h.1 in ((h.0, l), r)

pub last-All : (P : ℕ → Type 0) (a : ℕ) (l : List ℕ) → P a → All P l → P (last_of a l)
last-All P a [] h k = h
last-All P a (x ∷ l) h k = last-All P x l k.0 k.1

pub first-All : (P : ℕ → Type 0) (l : List ℕ) (b : ℕ) → All P l → P b → P (first_of l b)
first-All P [] b h k = k
first-All P (x ∷ l) b h k = h.0

module _ (n p : Field ℕ) where
  pub Segment-last :
      (a : ℕ) (l : List ℕ) (b : ℕ)
      → Segment n p a l b
      → (p b ≡ some (last_of a l)) × (n (last_of a l) ≡ some b)
  Segment-last a [] b h = (h.1, h.0)
  Segment-last a (x ∷ l) b h = Segment-last x l b h.2

  pub Segment-first :
      (a : ℕ) (l : List ℕ) (b : ℕ)
      → Segment n p a l b
      → (n a ≡ some (first_of l b)) × (p (first_of l b) ≡ some a)
  Segment-first a [] b h = (h.0, h.1)
  Segment-first a (x ∷ l) b h = (h.0, h.1)

  pub Segment-split :
      (a : ℕ) (l : List ℕ) (x : ℕ) (r : List ℕ) (b : ℕ)
      → Segment n p a (l ++ x ∷ r) b
      → Segment n p a l x × Segment n p x r b
  Segment-split a [] x r b h = ((h.0, h.1), h.2)
  Segment-split a (y ∷ l) x r b h = let (s, t) = Segment-split y l x r b h.2 in ((h.0, h.1, s), t)

  -- A segment stays where the fields of its links do.
  pub Segment-frame :
      (n' p' : Field ℕ) (a : ℕ) (l : List ℕ) (b : ℕ)
      → n' a ≡ n a
      → All (λ i. n' i ≡ n i) l
      → All (λ i. p' i ≡ p i) l
      → p' b ≡ p b
      → Segment n p a l b
      → Segment n' p' a l b
  Segment-frame n' p' a [] b na nl pl pb h = (na ∙ h.0, pb ∙ h.1)
  Segment-frame n' p' a (x ∷ l) b na nl pl pb h =
      (na ∙ h.0, pl.0 ∙ h.1, Segment-frame n' p' x l b nl.0 nl.1 pl.1 pb h.2)
