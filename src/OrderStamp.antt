-- ===== src/OrderStamp.antt =====
-- cfds/base/orderstamp.ts: `between`, with `commonPrefixLen` of base/string.ts.
pub mod Between
use ovvio.Base.{
  ℕ, zero, suc, ◌+◌, ◌<◌, Option, none, some, List, [], ◌∷◌, ◌++◌, same, ltb, ◌==◌, if◌then◌else◌,
  length, get_elem?, take, drop,
}
use ovvio.Base.Text.{JsString, string_discrete}
use ovvio.Numbers.{random_int}
use ovvio.Repo.Order.{gt_string}

abbrev pub char_code_min : ℕ
char_code_min = 1

abbrev pub char_code_max : ℕ
char_code_max = 254

abbrev pub random_suffix_len : ℕ
random_suffix_len = 16

unfoldable pub common_prefix_len : JsString → JsString → ℕ
common_prefix_len [] t = 0
common_prefix_len (a ∷ s) [] = 0
common_prefix_len (a ∷ s) (b ∷ t) =
    let rest = common_prefix_len s t in if a == b then suc rest else 0

-- `s.charCodeAt(i)` at an index of the string.
abbrev pub char_code_at : JsString → ℕ → ℕ
char_code_at s i = elim (get_elem? s i) [ none ↦ 0 | some c ↦ c ]

-- The values of `Math.random()`, from the first call of `between` on.
module _ (random : ℕ → ℕ) where
  -- The loop over the rest of `prev`, and the number of calls of `randomInt` with it.
  unfoldable pub climb : JsString → ℕ → JsString × ℕ
  climb [] k = ([], k)
  climb (c ∷ rest) k =
      let (more, k') = climb rest k in
      if ltb c char_code_max
      then (random_int (random k) (suc c) char_code_max ∷ [], suc k)
      else (c ∷ more, k')

  unfoldable pub random_suffix : ℕ → ℕ → JsString
  random_suffix zero k = []
  random_suffix (suc n) k =
      random_int (random k) char_code_min char_code_max ∷ random_suffix n (suc k)

  -- The body, for values in order.
  unfoldable pub between_ordered : JsString → JsString → JsString
  unfolding climb random_suffix common_prefix_len
  between_ordered prev next =
      let prefix_len = common_prefix_len prev next in
      let min_char =
        if ltb prefix_len (length prev) then char_code_at prev prefix_len else char_code_min in
      let max_char = if ltb 0 prefix_len then char_code_at next prefix_len else char_code_max in
      let (above, k) = climb (drop (suc prefix_len) prev) 1 in
      take prefix_len prev
      ++ random_int (random 0) min_char max_char ∷ (above ++ random_suffix random_suffix_len k)

  -- `none` where the assertion fails.
  unfoldable pub between : JsString → JsString → Option JsString
  unfolding between_ordered gt_string
  between prev next =
      if same string_discrete prev next
      then none
      else if gt_string prev next
      then some (between_ordered next prev)
      else some (between_ordered prev next)
