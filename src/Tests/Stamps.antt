-- ===== src/Tests/Stamps.antt =====
-- cfds/base/orderstamp.ts at small stamps.
use ovvio.Base.{ℕ, ◌^◌, ◌<◌, some, [], ◌∷◌, ◌≡◌, refl, true, arith, length, dec_lt, ℕ_discrete}
use ovvio.Base.Text.{JsString, str, string_discrete}
use ovvio.Numbers.{random_int}
use ovvio.OrderStamp.{
  common_prefix_len, char_code_at, climb, random_suffix, between_ordered, between,
}
use ovvio.OrderStamp.Between.{IsRandom, between-gt, greatest, between_beyond}
use ovvio.Repo.Order.{gt_string}

program : Unit {0}
unfolding random_int common_prefix_len climb random_suffix between_ordered between gt_string
    string_discrete ℕ_discrete dec_lt
program = tt

-- A generator that gives one half.
abbrev half : ℕ → ℕ
half k = 2 ^ 52

half-IsRandom : IsRandom half
half-IsRandom k = omega arith

abbrev low : JsString
low = str "1a"

abbrev high : JsString
high = str "1cd"

middle :
    between half low high
    ≡ some (
        49 ∷ 98 ∷ 127 ∷ 127 ∷ 127 ∷ 127 ∷ 127 ∷ 127 ∷ 127 ∷ 127 ∷ 127 ∷ 127 ∷ 127 ∷ 127 ∷ 127 ∷ 127
        ∷ 127 ∷ 127 ∷ [])
unfolding program
middle = refl

ordered :
    (gt_string high low ≡ true)
    × (0 < common_prefix_len low high)
    × (common_prefix_len low high ≡ length low → 1 < char_code_at high (common_prefix_len low high))
unfolding program
ordered = (refl, omega arith, λ e. omega arith)

between-gt_example :
    (r : JsString) × (between half low high ≡ some r)
    × (between half high low ≡ some r)
    × (gt_string r low ≡ true)
    × (gt_string high r ≡ true)
between-gt_example = between-gt half half-IsRandom low high ordered.0 ordered.1 ordered.2

between_beyond_example :
    (r : JsString) × (between greatest (str "a") (str "b") ≡ some r)
    × (gt_string r (str "b") ≡ true)
between_beyond_example = between_beyond 97 98 [] [] (omega arith) (omega arith)
