-- ===== src/Collections/Search/Bounds.antt =====
-- base/algorithms.ts: what one comparison of `bsearch` says of the elements on either side.
use Prim.Native.Nat.{Ordering}
use ovvio.Base.{
  ℕ, zero, suc, ◌<◌, ◌≡◌, refl, ◌≢◌, subst, List, [], ◌∷◌, some, arith, length, get_elem?, take,
  drop, All,
}
use ovvio.Collections.Search.{IsOrder, IsSorted}

pub All-mono {ℓ κ μ} :
    {A : Type ℓ} (P : A → Type κ) (Q : A → Type μ) (xs : List A)
    → ((x : A) → P x → Q x)
    → All P xs
    → All Q xs
All-mono P Q [] f h = tt
All-mono P Q (x ∷ xs) f h = (f x h.0, All-mono P Q xs f h.1)

module _ {ℓ} {A : Type ℓ} where
  pub All-drop {κ} : (P : A → Type κ) (i : ℕ) (xs : List A) → All P xs → All P (drop i xs)
  All-drop P zero xs h = h
  All-drop P (suc i) [] h = tt
  All-drop P (suc i) (x ∷ xs) h = All-drop P i xs h.1

  pub All-take {κ} : (P : A → Type κ) (i : ℕ) (xs : List A) → All P xs → All P (take i xs)
  All-take P zero xs h = tt
  All-take P (suc i) [] h = tt
  All-take P (suc i) (x ∷ xs) h = (h.0, All-take P i xs h.1)

  pub All-drop_suc {κ} :
      (P : A → Type κ) (i : ℕ) (xs : List A) → All P (drop i xs) → All P (drop (suc i) xs)
  All-drop_suc P i [] h = tt
  All-drop_suc P zero (x ∷ xs) h = h.1
  All-drop_suc P (suc i) (x ∷ xs) h = All-drop_suc P i xs h

  pub All-take-drop {κ} :
      (P : A → Type κ) (i : ℕ) (xs : List A) → All P (take i xs) → All P (drop i xs) → All P xs
  All-take-drop P zero xs h k = k
  All-take-drop P (suc i) [] h k = tt
  All-take-drop P (suc i) (x ∷ xs) h k = (h.0, All-take-drop P i xs h.1 k)

  pub All-get {κ} :
      (P : A → Type κ) (i : ℕ) (xs : List A) (x : A) → All P xs → get_elem? xs i ≡ some x → P x
  All-get P i [] x h e = cc
  All-get P zero (y ∷ xs) x h e = let same_x : y ≡ x = ground arith in subst P same_x h.0
  All-get P (suc i) (y ∷ xs) x h e = All-get P i xs x h.1 e

  pub get_elem?_inside : (i : ℕ) (xs : List A) → i < length xs → (x : A) × (get_elem? xs i ≡ some x)
  get_elem?_inside i [] h = elim h [ ]
  get_elem?_inside zero (x ∷ xs) h = (x, refl)
  get_elem?_inside (suc i) (x ∷ xs) h = get_elem?_inside i xs (omega arith)

module _ {ℓ} {A : Type ℓ} (cmp : A → A → Ordering) (order : IsOrder cmp) (value : A) where
  open order use {trans_lt, trans_gt, trans_le}

  -- Above an element is above all before it.
  pub take_above :
      (i : ℕ) (xs : List A) (x : A)
      → IsSorted cmp xs
      → get_elem? xs i ≡ some x
      → cmp value x ≡ Ordering.gt
      → All (λ y. cmp value y ≡ Ordering.gt) (take (suc i) xs)
  take_above i [] x s e g = tt
  take_above zero (y ∷ xs) x s e g = (ground arith, tt)
  take_above (suc i) (y ∷ xs) x s e g = (
    trans_gt value y x g (All-get (λ z. cmp y z ≢ Ordering.gt) i xs x s.0 e),
    take_above i xs x s.1 e g,
  )

  -- Level with an element is not below any before it.
  pub take_level :
      (i : ℕ) (xs : List A) (x : A)
      → IsSorted cmp xs
      → get_elem? xs i ≡ some x
      → cmp value x ≢ Ordering.lt
      → All (λ y. cmp value y ≢ Ordering.lt) (take i xs)
  take_level i [] x s e g = All-take (λ y. cmp value y ≢ Ordering.lt) i [] tt
  take_level zero (y ∷ xs) x s e g = tt
  take_level (suc i) (y ∷ xs) x s e g = (
    λ below. g (trans_lt value y x below (All-get (λ z. cmp y z ≢ Ordering.gt) i xs x s.0 e)),
    take_level i xs x s.1 e g,
  )

  -- Below an element is below all behind it.
  pub drop_below :
      (i : ℕ) (xs : List A) (x : A)
      → IsSorted cmp xs
      → get_elem? xs i ≡ some x
      → cmp value x ≡ Ordering.lt
      → All (λ y. cmp value y ≡ Ordering.lt) (drop i xs)
  drop_below i [] x s e g = cc
  drop_below zero (y ∷ xs) x s e g =
      let g' : cmp value y ≡ Ordering.lt = ground arith in
      (
        g',
        All-mono (λ z. cmp y z ≢ Ordering.gt) (λ z. cmp value z ≡ Ordering.lt) xs
            (λ z. trans_lt value y z g') s.0,
      )
  drop_below (suc i) (y ∷ xs) x s e g = drop_below i xs x s.1 e g

  -- Level with an element is not above any behind it.
  pub drop_level :
      (i : ℕ) (xs : List A) (x : A)
      → IsSorted cmp xs
      → get_elem? xs i ≡ some x
      → cmp value x ≢ Ordering.gt
      → All (λ y. cmp value y ≢ Ordering.gt) (drop i xs)
  drop_level i [] x s e g = cc
  drop_level zero (y ∷ xs) x s e g =
      let g' : cmp value y ≢ Ordering.gt = ground arith in
      (
        g',
        All-mono (λ z. cmp y z ≢ Ordering.gt) (λ z. cmp value z ≢ Ordering.gt) xs
            (λ z. trans_le value y z g') s.0,
      )
  drop_level (suc i) (y ∷ xs) x s e g = drop_level i xs x s.1 e g
