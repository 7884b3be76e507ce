-- ===== src/Repo/Order/Total.antt =====
-- repo/repo.ts: commits are ordered totally, and two commits are level only if they have one id.
use Prim.Native.Nat.{Ordering}
use mathlib.Core.Bool.{true, false}
use ovvio.Base.{[], ◌∷◌, ◌≡◌, ◌≢◌, ◌↔◌, refl, sym, ap, ℕ_discrete, arith}
use mathlib.Core.Path.{ap₂}
use ovvio.Base.Text.{JsString, string_discrete}
use ovvio.Collections.Search.{IsOrder}
use ovvio.Commit.{Records, Commit}
use ovvio.Repo.Order.{gt_string, compare_strings, negate, compare_commits_asc, compare_commits_desc}

-- Of two strings that differ exactly one is greater.
pub gt_string_flip : (s t : JsString) → s ≢ t → (gt_string s t ≡ true) ↔ (gt_string t s ≡ false)
unfolding gt_string
gt_string_flip [] [] n = absurd (n refl)
gt_string_flip [] (b ∷ t) n = (λ h. cc, λ h. cc)
gt_string_flip (a ∷ s) [] n = (λ h. refl, λ h. refl)
gt_string_flip (a ∷ s) (b ∷ t) n = elim (ℕ_discrete a b) [
  | no other ↦ (λ h. ground arith, λ h. ground arith)
  | yes e ↦
      let (to, from) = gt_string_flip s t (λ p. n (ap₂ ◌∷◌ e p)) in
      (λ h. ground (arith, to (ground arith)), λ h. ground (arith, from (ground arith)))
]

gt_string_trans :
    (s t u : JsString) → gt_string s t ≡ true → gt_string t u ≡ true → gt_string s u ≡ true
unfolding gt_string
gt_string_trans [] t u h k = cc
gt_string_trans (a ∷ s) [] u h k = cc
gt_string_trans (a ∷ s) (b ∷ t) [] h k = refl
gt_string_trans (a ∷ s) (b ∷ t) (c ∷ u) h k = ground (arith, gt_string_trans s t u)

pub gt_string_irrefl : (s : JsString) → gt_string s s ≡ false
unfolding gt_string
gt_string_irrefl [] = refl
gt_string_irrefl (a ∷ s) = ground (arith, gt_string_irrefl s)

-- A comparator is a total order up to level elements.
record IsLinear {ℓ} {A : Type ℓ} (cmp : A → A → Ordering) : Type ℓ where
  swap : (x y : A) → cmp y x ≡ negate (cmp x y)
  lt_trans : (x y z : A) → cmp x y ≡ Ordering.lt → cmp y z ≡ Ordering.lt → cmp x z ≡ Ordering.lt
  eq_congr : (x y z : A) → cmp x y ≡ Ordering.eq → cmp x z ≡ cmp y z

module _ {ℓ} {A : Type ℓ} (cmp : A → A → Ordering) (linear : IsLinear cmp) where
  open linear use {swap, lt_trans, eq_congr}

  IsLinear→IsOrder : IsOrder cmp
  unfolding negate
  IsLinear→IsOrder = record {
    flip_lt = λ x y h. ground (arith, swap x y);
    flip_gt = λ x y h. ground (arith, swap x y);
    trans_lt =
        λ x y z h k. ground (arith, lt_trans x y z, eq_congr z y x, swap x y, swap y z, swap x z);
    trans_gt = λ x y z h k. ground (
      arith,
      lt_trans z y x,
      lt_trans y z x,
      lt_trans x y z,
      eq_congr x y z,
      eq_congr y z x,
      swap x y,
      swap y z,
      swap x z,
    );
    trans_le = λ x y z h k. λ g.
        ground
          (arith, lt_trans x y z, eq_congr x y z, eq_congr y z x, swap x y, swap y z, swap x z);
  }

compare_strings→eq : (x y : JsString) → compare_strings x y ≡ Ordering.eq → x ≡ y
unfolding compare_strings
compare_strings→eq x y h = ground arith

compare_strings_swap : (x y : JsString) → compare_strings y x ≡ negate (compare_strings x y)
unfolding compare_strings negate
compare_strings_swap x y = elim (string_discrete x y) [
  | yes e ↦ ground arith
  | no n ↦ ground (arith, gt_string_flip x y n, gt_string_flip y x (λ e. n (sym e)))
]

compare_strings-lt : (x y : JsString) → (compare_strings x y ≡ Ordering.lt) ↔ (gt_string y x ≡ true)
unfolding compare_strings
compare_strings-lt x y = elim (string_discrete x y) [
  | yes e ↦ (
    λ h. absurd (ground arith),
    λ h. absurd (ground (arith, gt_string_irrefl x, ap (λ s. gt_string s x) e)),
  )
  | no n ↦
      let (to, from) = gt_string_flip y x (λ e. n (sym e)) in
      (λ h. from (ground arith), λ h. ground (arith, to h))
]

compare_strings-IsLinear : IsLinear compare_strings
compare_strings-IsLinear = record {
  swap = compare_strings_swap;
  lt_trans = λ x y z h k.
      (compare_strings-lt x z).1
        (gt_string_trans z y x ((compare_strings-lt y z).0 k) ((compare_strings-lt x y).0 h));
  eq_congr = λ x y z h. ap (λ s. compare_strings s z) (compare_strings→eq x y h);
}

module _ (api : Records) where
  -- Two commits are level exactly if their timestamps and their ids are the same.
  pub compare-eq_iff :
      (a b : Commit api)
      → (compare_commits_asc api a b ≡ Ordering.eq) ↔ ((a.timestamp ≡ b.timestamp) × (a.id ≡ b.id))
  unfolding compare_commits_asc
  compare-eq_iff a b = (
    λ h. (ground arith, compare_strings→eq a.id b.id (ground arith)),
    λ (t, i). unfold compare_strings in ground arith,
  )

  compare_commits_asc-IsLinear : IsLinear (compare_commits_asc api)
  unfolding negate compare_commits_asc
  compare_commits_asc-IsLinear = record {
    swap = λ a b. ground (arith, compare_strings-IsLinear.swap a.id b.id);
    lt_trans = λ a b c h k. ground (arith, compare_strings-IsLinear.lt_trans a.id b.id c.id);
    eq_congr = λ a b c h. ground (arith, compare_strings-IsLinear.eq_congr a.id b.id c.id);
  }

  -- The ascending comparison of commits orders them totally.
  pub compare_commits_asc-IsOrder : IsOrder (compare_commits_asc api)
  compare_commits_asc-IsOrder =
      IsLinear→IsOrder (compare_commits_asc api) compare_commits_asc-IsLinear

  desc-IsLinear : IsLinear (compare_commits_desc api)
  unfolding negate compare_commits_desc
  desc-IsLinear = record {
    swap = λ a b. ground (arith, compare_commits_asc-IsLinear.swap a b);
    lt_trans = λ a b c h k. ground (
      arith,
      compare_commits_asc-IsLinear.swap a b,
      compare_commits_asc-IsLinear.swap b c,
      compare_commits_asc-IsLinear.swap a c,
      compare_commits_asc-IsLinear.lt_trans c b a,
    );
    eq_congr = λ a b c h. ground (arith, compare_commits_asc-IsLinear.eq_congr a b c);
  }

  -- The descending comparison of commits, by which the repository sorts the commits of a key,
  -- orders them: it is a total preorder.
  pub compare_commits_desc-IsOrder : IsOrder (compare_commits_desc api)
  compare_commits_desc-IsOrder = IsLinear→IsOrder (compare_commits_desc api) desc-IsLinear
