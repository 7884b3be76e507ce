-- ===== src/Collections/Search/Insertion.antt =====
-- base/algorithms.ts: on a sorted array `bsearch` ends, and finds where the value fits in.
use Prim.Native.Nat.{Ordering}
use ovvio.Base.{
  ℕ, zero, suc, ◌+◌, ◌-◌, ◌/◌, ◌≤◌, ◌<◌, ◌≡◌, refl, sym, subst, ◌≢◌, ◌⊎◌, List, [], ◌∷◌, Option,
  some, arith, ltb, length, get_elem?, take, drop, All, inl, inr, Bool-cases,
}
use ovvio.Collections.Search.{IsOrder, IsSorted, Fits, bsearch_fixup, bsearch_loop, bsearch}
use ovvio.Collections.Search.Bounds.{
  All-mono, All-take-drop, All-drop_suc, get_elem?_inside, take_above, take_level, drop_below,
  drop_level,
}

Ordering-cases : (o : Ordering) → (o ≡ Ordering.lt) ⊎ (o ≡ Ordering.eq) ⊎ (o ≡ Ordering.gt)
Ordering-cases o = ground arith

module _ {ℓ} {A : Type ℓ} (cmp : A → A → Ordering) (order : IsOrder cmp) (value : A) where
  abbrev Above : A → Type 0
  Above x = cmp value x ≡ Ordering.gt

  abbrev Below : A → Type 0
  Below x = cmp value x ≡ Ordering.lt

  -- A result of the search.
  abbrev Finds : List A → Option ℕ → Type ℓ
  Finds arr o = (r : ℕ) × (o ≡ some r) × Fits cmp arr value r

  -- Where all before are above and all behind are below, nothing is level.
  Fits-between :
      (arr : List A) (r : ℕ)
      → r ≤ length arr
      → All Above (take r arr)
      → All Below (drop r arr)
      → Fits cmp arr value r
  Fits-between arr r inside before behind = record {
    inside = inside;
    before = All-mono Above (λ x. cmp value x ≢ Ordering.lt) (take r arr) (λ x h. cc) before;
    behind = All-mono Below (λ x. cmp value x ≢ Ordering.gt) (drop r arr) (λ x h. cc) behind;
    found = inr (
        All-take-drop (λ x. cmp value x ≢ Ordering.eq) r arr
          (All-mono Above (λ x. cmp value x ≢ Ordering.eq) (take r arr) (λ x h. cc) before)
          (All-mono Below (λ x. cmp value x ≢ Ordering.eq) (drop r arr) (λ x h. cc) behind));
  }

  Fits-level :
      (arr : List A) (r : ℕ) (x : A)
      → r ≤ length arr
      → IsSorted cmp arr
      → get_elem? arr r ≡ some x
      → cmp value x ≡ Ordering.eq
      → Fits cmp arr value r
  Fits-level arr r x inside sorted at level = record {
    inside = inside;
    before = take_level cmp order value r arr x sorted at (λ h. cc);
    behind = drop_level cmp order value r arr x sorted at (λ h. cc);
    found = inl (x, at, level);
  }

  fixup-Finds :
      (arr : List A) (start : ℕ)
      → IsSorted cmp arr
      → start < length arr
      → All Above (take start arr)
      → All Below (drop (suc start) arr)
      → Finds arr (bsearch_fixup cmp arr value start)
  unfolding bsearch_fixup
  fixup-Finds arr start sorted inside before behind =
      let (x, at) = get_elem?_inside start arr inside in
      elim (Ordering-cases (cmp value x)) [
        | inl below ↦ (
          start,
          ground arith,
          Fits-between arr start (omega arith) before
              (drop_below cmp order value start arr x sorted at below),
        )
        | inr (inl level) ↦
            (start, ground arith, Fits-level arr start x (omega arith) sorted at level)
        | inr (inr above) ↦ (
          suc start,
          ground arith,
          Fits-between arr (suc start) (omega arith)
              (take_above cmp order value start arr x sorted at above) behind,
        )
      ]

  -- The loop's invariant: above all before `start`, below all behind `end`.
  record Between (arr : List A) (start end : ℕ) : Type ℓ where
    start_inside : start < length arr
    end_inside : end < length arr
    ordered : start ≤ suc end
    before : All Above (take start arr)
    behind : All Below (drop (suc end) arr)

  Between-fixup :
      (arr : List A) (start end : ℕ)
      → IsSorted cmp arr
      → Between arr start end
      → ¬ (start < end)
      → Finds arr (bsearch_fixup cmp arr value start)
  Between-fixup arr start end sorted b done = elim (ends start end done b.ordered) [
    | inl e ↦
        fixup-Finds arr start sorted b.start_inside b.before
          (subst (λ k. All Below (drop (suc k) arr)) (sym e) b.behind)
    | inr e ↦
        fixup-Finds arr start sorted b.start_inside b.before
          (All-drop_suc Below start arr (subst (λ k. All Below (drop k arr)) (sym e) b.behind))
  ]
    where
      ends : (i j : ℕ) → ¬ (i < j) → i ≤ suc j → (i ≡ j) ⊎ (i ≡ suc j)
      ends i j h k = omega arith

  module _ (arr : List A) (start end mid : ℕ) (x : A) (sorted : IsSorted cmp arr)
      (b : Between arr start end) (at : get_elem? arr mid ≡ some x) (low : start ≤ mid)
      (high : mid < end) where
    -- `end = mid - 1`
    Between-lower : cmp value x ≡ Ordering.lt → Between arr start (mid - 1)
    Between-lower below = record {
      start_inside = b.start_inside;
      end_inside = omega (arith, b.end_inside);
      ordered = omega arith;
      before = b.before;
      behind = behind_pred mid (drop_below cmp order value mid arr x sorted at below);
    }
      where
        behind_pred : (k : ℕ) → All Below (drop k arr) → All Below (drop (suc (k - 1)) arr)
        behind_pred zero all = All-drop_suc Below zero arr all
        behind_pred (suc k) all = subst (λ n. All Below (drop (suc n) arr)) (omega arith) all

    -- `start = mid + 1`
    Between-upper : cmp value x ≡ Ordering.gt → Between arr (suc mid) end
    Between-upper above = record {
      start_inside = omega (arith, b.end_inside);
      end_inside = b.end_inside;
      ordered = omega arith;
      before = take_above cmp order value mid arr x sorted at above;
      behind = b.behind;
    }

  -- With fuel for the width of the range, the loop ends and finds the place.
  loop-Finds :
      (fuel : ℕ) (arr : List A) (start end : ℕ)
      → IsSorted cmp arr
      → Between arr start end
      → end - start < fuel
      → Finds arr (bsearch_loop cmp fuel arr value start end)
  unfolding bsearch_loop
  loop-Finds zero arr start end sorted b h = elim h [ ]
  loop-Finds (suc fuel) arr start end sorted b h = elim (Bool-cases (ltb start end)) [
    | inr done ↦
        let (r, e, fits) = Between-fixup arr start end sorted b (λ lt. ground arith) in
        (r, ground arith, fits)
    | inl more ↦
        let mid : ℕ = (start + end) / 2 in
        let apart : start < end = ground arith in
        let low : start ≤ mid = omega arith in
        let high : mid < end = omega arith in
        let (x, at) = get_elem?_inside mid arr (omega (arith, b.end_inside)) in
        elim (Ordering-cases (cmp value x)) [
          | inl below ↦
              let (r, e, fits) =
                loop-Finds fuel arr start (mid - 1) sorted
                  (Between-lower arr start end mid x sorted b at low high below) (omega arith) in
              (r, ground arith, fits)
          | inr (inl level) ↦ (
            mid,
            ground arith,
            Fits-level arr mid x (omega (arith, b.end_inside)) sorted at level,
          )
          | inr (inr above) ↦
              let (r, e, fits) =
                loop-Finds fuel arr (suc mid) end sorted
                  (Between-upper arr start end mid x sorted b at low high above) (omega arith) in
              (r, ground arith, fits)
        ]
  ]

  -- On a sorted array `bsearch` ends at an index where the value fits in.
  pub bsearch-Fits :
      (arr : List A)
      → IsSorted cmp arr
      → (r : ℕ) × (bsearch cmp arr value ≡ some r) × Fits cmp arr value r
  unfolding bsearch
  bsearch-Fits [] sorted =
      (0, refl, record { inside = omega arith; before = tt; behind = tt; found = inr tt })
  bsearch-Fits (x ∷ xs) sorted =
      loop-Finds (length (x ∷ xs)) (x ∷ xs) 0 (length xs) sorted
        (record {
          start_inside = omega arith;
          end_inside = omega arith;
          ordered = omega arith;
          before = tt;
          behind = nothing_behind xs;
        })
        (omega arith)
    where
      nothing_behind : (ys : List A) → All Below (drop (length ys) ys)
      nothing_behind [] = tt
      nothing_behind (y ∷ ys) = nothing_behind ys
