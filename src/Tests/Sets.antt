-- ===== src/Tests/Sets.antt =====
-- base/set.ts at small inputs.
use ovvio.Base.{ℕ, Bool, true, false, List, [], ◌∷◌, refl, ◌≡◌, ◌↔◌, ltb, ℕ_discrete, dec_lt}
use ovvio.Base.Sets.{has, add, remove}
use ovvio.Collections.SetUtils.{
  update, from, add_missing, difference, any_in, intersects, all_in, equals, count_in, rest_in,
  equals_filtered,
}
use ovvio.Collections.SetUtils.Equal.{NoRepeats}
use ovvio.Collections.SetUtils.Filtered.{equals_filtered_iff}

program : Unit {0}
unfolding has add remove update from add_missing difference any_in intersects all_in equals count_in
    rest_in equals_filtered NoRepeats ℕ_discrete dec_lt
program = tt

abbrev low : List ℕ
low = 1 ∷ 2 ∷ []

abbrev high : List ℕ
high = 3 ∷ 2 ∷ []

abbrev above_two : ℕ → Bool
above_two n = ltb 2 n

runs :
    (difference ℕ_discrete low high ≡ 1 ∷ 3 ∷ [])
    × (equals ℕ_discrete low (2 ∷ 1 ∷ []) ≡ true)
    × (equals ℕ_discrete low high ≡ false)
    × (intersects ℕ_discrete low high ≡ true)
    × (equals_filtered ℕ_discrete above_two low high ≡ false)
    × (equals_filtered ℕ_discrete above_two high (4 ∷ []) ≡ false)
unfolding program
runs = (refl, refl, refl, refl, refl, refl)

low-NoRepeats : NoRepeats ℕ_discrete low
unfolding program
low-NoRepeats = (refl, (refl, tt))

high-NoRepeats : NoRepeats ℕ_discrete high
unfolding program
high-NoRepeats = (refl, (refl, tt))

equals_filtered_iff_example :
    (equals_filtered ℕ_discrete above_two low high ≡ true)
    ↔ ((a : ℕ) → above_two a ≡ true → has ℕ_discrete a low ≡ has ℕ_discrete a high)
equals_filtered_iff_example =
    equals_filtered_iff ℕ_discrete above_two low high low-NoRepeats high-NoRepeats
