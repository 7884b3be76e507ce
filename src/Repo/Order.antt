-- ===== src/Repo/Order.antt =====
-- repo/repo.ts: `compareCommitsAsc` and `compareCommitsDesc`, over `compareStrings` of
-- base/string.ts. The sign of a comparison is an `Ordering`.
pub mod Total
use Prim.Native.Nat.{Ordering, compare}
use mathlib.Core.Bool.{Bool, true, false}
use ovvio.Base.{ℕ, List, [], ◌∷◌, if◌then◌else◌, ltb, ◌==◌, same}
use ovvio.Base.Text.{JsString, string_discrete}
use ovvio.Commit.{Records, Commit}

-- `s1 > s2` of JavaScript: by the first code unit that differs.
unfoldable pub gt_string : JsString → JsString → Bool
gt_string [] t = false
gt_string (a ∷ s) [] = true
gt_string (a ∷ s) (b ∷ t) = elim (compare a b) [
  | Ordering.lt ↦ false
  | Ordering.gt ↦ true
  | Ordering.eq ↦ gt_string s t
]

unfoldable pub compare_strings : JsString → JsString → Ordering
unfolding gt_string
compare_strings s t =
    if same string_discrete s t
    then Ordering.eq
    else if gt_string s t
    then Ordering.gt
    else Ordering.lt

-- `x * -1`
unfoldable pub negate : Ordering → Ordering
negate Ordering.lt = Ordering.gt
negate Ordering.eq = Ordering.eq
negate Ordering.gt = Ordering.lt

module _ (api : Records) where
  unfoldable pub compare_commits_asc : Commit api → Commit api → Ordering
  unfolding compare_strings
  compare_commits_asc a b = elim (compare a.timestamp b.timestamp) [
    | Ordering.eq ↦ compare_strings a.id b.id
    | other ↦ other
  ]

  unfoldable pub compare_commits_desc : Commit api → Commit api → Ordering
  unfolding compare_commits_asc negate
  compare_commits_desc a b = negate (compare_commits_asc a b)
