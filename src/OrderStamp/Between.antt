-- ===== src/OrderStamp/Between.antt =====
-- cfds/base/orderstamp.ts: where the result of `between` lies.
use ovvio.Base.{
  ℕ, zero, suc, ◌^◌, ◌-◌, ◌≤◌, ◌<◌, some, [], ◌∷◌, ◌++◌, ◌≡◌, ◌≢◌, refl, ap, ◌∙◌, true, false, ltb,
  ◌==◌, if◌then◌else◌, length, take, drop, arith, ◌⊎◌, inl, inr, Bool-cases,
}
use ovvio.Base.Text.{JsString}
use ovvio.Numbers.{random_int, random_int_bounds, random_int_same, random_int_greatest}
use ovvio.OrderStamp.{
  char_code_min, char_code_max, random_suffix_len, common_prefix_len, char_code_at, climb,
  random_suffix, between_ordered, between,
}
use ovvio.Repo.Order.{gt_string}
use ovvio.Repo.Order.Total.{gt_string_flip, gt_string_irrefl}

-- Behind the common prefix.
abbrev rest_of : JsString → JsString → JsString
rest_of s t = drop (common_prefix_len s t) s

gt_prefix :
    (p n u : JsString)
    → (gt_string (take (common_prefix_len p n) p ++ u) p
        ≡ gt_string u (drop (common_prefix_len p n) p))
      × (gt_string n (take (common_prefix_len p n) p ++ u)
          ≡ gt_string (drop (common_prefix_len p n) n) u)
      × (gt_string n p
          ≡ gt_string (drop (common_prefix_len p n) n) (drop (common_prefix_len p n) p))
unfolding common_prefix_len gt_string
gt_prefix [] n u = (refl, refl, refl)
gt_prefix (a ∷ s) [] u = (refl, refl, refl)
gt_prefix (a ∷ s) (b ∷ t) u = elim (Bool-cases (a == b)) [
  | inl e ↦ rw e (ground (arith, gt_prefix s t u))
  | inr e ↦ rw e (ground arith)
]

-- What is behind the common prefix differs at once.
apart :
    (p n : JsString)
    → gt_string n p ≡ true
    → (b : ℕ) × (t : JsString) × (drop (common_prefix_len p n) n ≡ b ∷ t)
      × ((drop (common_prefix_len p n) p ≡ [])
          ⊎ ((a : ℕ) × (s : JsString) × (drop (common_prefix_len p n) p ≡ a ∷ s) × (a < b)))
unfolding common_prefix_len gt_string
apart [] [] h = absurd (cc)
apart [] (b ∷ t) h = (b, t, refl, inl refl)
apart (a ∷ s) [] h = absurd (cc)
apart (a ∷ s) (b ∷ t) h = elim (Bool-cases (a == b)) [
  | inl e ↦ rw e (apart s t (ground arith))
  | inr e ↦ rw e (b, t, refl, inr (a, s, refl, ground arith))
]

get_elem-drop :
    (k a : ℕ) (p s : JsString)
    → drop k p ≡ a ∷ s
    → (char_code_at p k ≡ a) × (k < length p) × (drop (suc k) p ≡ s)
get_elem-drop zero a [] s h = absurd (cc)
get_elem-drop zero a (x ∷ xs) s h = ground arith
get_elem-drop (suc k) a [] s h = absurd (cc)
get_elem-drop (suc k) a (x ∷ xs) s h = ground (arith, get_elem-drop k a xs s h)

drop-nil : (k : ℕ) (p : JsString) → drop k p ≡ [] → length p ≤ k
drop-nil zero [] h = omega arith
drop-nil zero (x ∷ xs) h = absurd (cc)
drop-nil (suc k) [] h = omega arith
drop-nil (suc k) (x ∷ xs) h = omega (arith, drop-nil k xs h)

common_prefix_len-le : (p n : JsString) → common_prefix_len p n ≤ length p
unfolding common_prefix_len
common_prefix_len-le [] n = omega arith
common_prefix_len-le (a ∷ s) [] = omega arith
common_prefix_len-le (a ∷ s) (b ∷ t) = ground (arith, common_prefix_len-le s t)

module _ (random : ℕ → ℕ) where
  -- What `Math.random()` gives is below one.
  abbrev pub IsRandom : Type 0
  IsRandom = (k : ℕ) → random k < 2 ^ 53

  module _ (below : IsRandom) where
    random_int_ge : (k min max : ℕ) → min ≤ max → min ≤ random_int (random k) min max
    random_int_ge k min max h =
        ground
          (arith, random_int_bounds (random k) min max (below k), random_int_same (random k) min)

    climb-gt :
        (rest : JsString) (k x : ℕ) (u : JsString)
        → gt_string ((climb random rest k).0 ++ x ∷ u) rest ≡ true
    unfolding climb gt_string
    climb-gt [] k x u = refl
    climb-gt (c ∷ rest) k x u =
        ground (arith, climb-gt rest k x u, random_int_ge k (suc c) char_code_max)

    -- What `between_ordered` puts behind the common prefix.
    abbrev first : JsString → JsString → ℕ
    first prev next =
        random_int (random 0)
          (if ltb (common_prefix_len prev next) (length prev)
            then char_code_at prev (common_prefix_len prev next)
            else char_code_min)
          (if ltb 0 (common_prefix_len prev next)
            then char_code_at next (common_prefix_len prev next)
            else char_code_max)

    abbrev others : JsString → JsString
    others rest =
        (climb random rest 1).0 ++ random_suffix random random_suffix_len (climb random rest 1).1

    others-gt : (rest : JsString) → gt_string (others rest) rest ≡ true
    unfolding random_suffix
    others-gt rest = climb-gt rest 1 _ _

    -- A first character that is above `prev` or level with it, and below `next`.
    put-gt :
        (a b c : ℕ) (s t w : JsString)
        → a ≤ c
        → c < b
        → gt_string w s ≡ true
        → (gt_string (c ∷ w) (a ∷ s) ≡ true) × (gt_string (b ∷ t) (c ∷ w) ≡ true)
    unfolding gt_string
    put-gt a b c s t w h k g = ground arith

    put_end-gt :
        (b c : ℕ) (t w : JsString)
        → c < b
        → (gt_string (c ∷ w) [] ≡ true) × (gt_string (b ∷ t) (c ∷ w) ≡ true)
    unfolding gt_string
    put_end-gt b c t w h = ground arith

    rests-gt :
        (prev next : JsString)
        → gt_string next prev ≡ true
        → 0 < common_prefix_len prev next
        → (common_prefix_len prev next ≡ length prev
            → 1 < char_code_at next (common_prefix_len prev next))
        → let k = common_prefix_len prev next in
          let u = first prev next ∷ others (drop (suc k) prev) in
          (gt_string u (drop k prev) ≡ true) × (gt_string (drop k next) u ≡ true)
    rests-gt prev next h shared room =
        let (b, t, dn, side) = apart prev next h in
        let k = common_prefix_len prev next in
        let (bn, ln, tn) = get_elem-drop k b next t dn in
        elim side [
          | inr (a, s, dp, lt) ↦
              let (ap', lp, sp) = get_elem-drop k a prev s dp in
              let c : first prev next ≡ random_int (random 0) a b = ground arith in
              rw (c, dp, dn, sp)
                (put-gt a b (random_int (random 0) a b) s t (others s)
                  (random_int_ge 0 a b (omega arith))
                  (random_int_bounds (random 0) a b (below 0) lt).1 (others-gt s))
          | inl dp ↦
              let end : length prev ≤ k = drop-nil k prev dp in
              let c : first prev next ≡ random_int (random 0) 1 b = ground arith in
              let more : 1 < b = ground (arith, room, common_prefix_len-le prev next) in
              rw (c, dp, dn)
                (put_end-gt b (random_int (random 0) 1 b) t (others (drop (suc k) prev))
                  (random_int_bounds (random 0) 1 b (below 0) more).1)
        ]

    between_ordered-gt :
        (prev next : JsString)
        → gt_string next prev ≡ true
        → 0 < common_prefix_len prev next
        → (common_prefix_len prev next ≡ length prev
            → 1 < char_code_at next (common_prefix_len prev next))
        → (gt_string (between_ordered random prev next) prev ≡ true)
          × (gt_string next (between_ordered random prev next) ≡ true)
    unfolding between_ordered
    between_ordered-gt prev next h shared room =
        let k = common_prefix_len prev next in
        let (above, under) = rests-gt prev next h shared room in
        let (x, y, z) = gt_prefix prev next (first prev next ∷ others (drop (suc k) prev)) in
        (x ∙ above, y ∙ under)

    -- The stamp between two stamps that share their first character lies strictly between them, in
    -- whichever order they are given, if the lesser is no prefix of the greater or the character
    -- of the greater behind that prefix is above the least one.
    pub between-gt :
        (prev next : JsString)
        → gt_string next prev ≡ true
        → 0 < common_prefix_len prev next
        → (common_prefix_len prev next ≡ length prev
            → 1 < char_code_at next (common_prefix_len prev next))
        → (r : JsString) × (between random prev next ≡ some r)
          × (between random next prev ≡ some r)
          × (gt_string r prev ≡ true)
          × (gt_string next r ≡ true)
    unfolding between
    between-gt prev next h shared room =
        let differ : next ≢ prev =
          λ e. absurd (ground (arith, ap (λ s. gt_string s prev) e, gt_string_irrefl prev)) in
        let flip : gt_string prev next ≡ false = (gt_string_flip next prev differ).0 h in
        let (above, under) = between_ordered-gt prev next h shared room in
        (between_ordered random prev next, ground arith, ground arith, above, under)

-- The greatest value of `Math.random()`, at each call.
abbrev pub greatest : ℕ → ℕ
greatest k = 2 ^ 53 - 1

between_ordered_apart :
    (a b : ℕ) (s t : JsString)
    → a < b
    → b < 253
    → gt_string (between_ordered greatest (a ∷ s) (b ∷ t)) (b ∷ t) ≡ true
unfolding between_ordered common_prefix_len gt_string
between_ordered_apart a b s t h k =
    let other : (a == b) ≡ false = ground arith in
    rw other (ground (arith, random_int_greatest a 254))

-- Without a common prefix the stamp may lie beyond both: its first character runs up to the
-- greatest one and not up to that of the greater stamp.
pub between_beyond :
    (a b : ℕ) (s t : JsString)
    → a < b
    → b < 253
    → (r : JsString) × (between greatest (a ∷ s) (b ∷ t) ≡ some r) × (gt_string r (b ∷ t) ≡ true)
unfolding between
between_beyond a b s t h k =
    let less : gt_string (a ∷ s) (b ∷ t) ≡ false = unfold gt_string in ground arith in
    (between_ordered greatest (a ∷ s) (b ∷ t), ground arith, between_ordered_apart a b s t h k)
