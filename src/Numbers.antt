-- ===== src/Numbers.antt =====
-- base/math.ts: random integers. A value of `Math.random()` is given by its numerator over 2 ^ 53.
use ovvio.Base.{ℕ, suc, ◌+◌, ◌-◌, ◌*◌, ◌/◌, ◌^◌, ◌≤◌, ◌<◌, ltb, ◌==◌, if◌then◌else◌, arith, ◌≡◌}

-- The floor of a product with a negative number rounds away from zero.
unfoldable pub random_int : ℕ → ℕ → ℕ → ℕ
random_int random min max =
    if min == max
    then min
    else if ltb min max
    then random * (max - min) / 2 ^ 53 + min
    else min - (random * (min - max) + (2 ^ 53 - 1)) / 2 ^ 53

-- A product with a value below one stays below the other factor.
mul_bound : (random d : ℕ) → random < 2 ^ 53 → random * d ≤ (2 ^ 53 - 1) * d
mul_bound random d r = grind arith

pub random_int_bounds :
    (random min max : ℕ)
    → random < 2 ^ 53
    → min < max
    → (min ≤ random_int random min max) × (random_int random min max < max)
unfolding random_int
random_int_bounds random min max r h = ground (arith, mul_bound random (max - min))

pub random_int_same : (random n : ℕ) → random_int random n n ≡ n
unfolding random_int
random_int_same random n = ground arith

-- The greatest value of `Math.random()` gives the greatest integer.
pub random_int_greatest :
    (min max : ℕ) → min < max → max ≤ 2 ^ 53 → suc (random_int (2 ^ 53 - 1) min max) ≡ max
unfolding random_int
random_int_greatest min max h b = ground arith
