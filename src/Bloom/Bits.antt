-- ===== src/Bloom/Bits.antt =====
-- base/bloom.ts: single bits of a `BitField`.
use Prim.Native.Nat.{bit_and, bit_or}
use ovvio.Base.{
  ℕ, zero, suc, ◌/◌, ◌%◌, ◌^◌, ◌<◌, Bool, true, false, not, ◌&&◌, ◌||◌, [], ◌∷◌, ◌≡◌, refl, ap, sym,
  ◌∙◌, ◌==◌, if◌then◌else◌, length, set, arith, Bool-cases, All, inl, inr,
}
use ovvio.Bloom.{BitField, byte_at, get, set_bit, bit_size, zeros}

all_below : ℕ → (ℕ → Bool) → Bool
all_below zero p = true
all_below (suc n) p = p n && all_below n p

all_below_lem : (n : ℕ) (p : ℕ → Bool) (x : ℕ) → all_below n p ≡ true → x < n → p x ≡ true
unfolding all_below
all_below_lem zero p x h lt = absurd (omega arith)
all_below_lem (suc n) p x h lt = ground (arith, all_below_lem n p x)

-- A bit of a byte.
abbrev bit : ℕ → ℕ → Bool
bit b i = not (bit_and b (2 ^ i) == 0)

abbrev same_bool : Bool → Bool → Bool
same_bool true b = b
same_bool false b = not b

same_bool_lem : (a b : Bool) → same_bool a b ≡ true → a ≡ b
same_bool_lem true b h = sym h
same_bool_lem false true h = absurd (cc)
same_bool_lem false false h = refl

bits_table :
    all_below 256 (λ b.
      all_below 8
        (λ i. all_below 8 (λ j. same_bool (bit (bit_or b (2 ^ i) % 256) j) (i == j || bit b j))))
    ≡ true
unfolding all_below
bits_table = refl

bit-or :
    (b i j : ℕ) → b < 256 → i < 8 → j < 8 → bit (bit_or b (2 ^ i) % 256) j ≡ (i == j || bit b j)
bit-or b i j hb hi hj =
    same_bool_lem _ _
      (all_below_lem 8 _ j (all_below_lem 8 _ i (all_below_lem 256 _ b bits_table hb) hi) hj)

zero_table : all_below 8 (λ j. same_bool (bit 0 j) false) ≡ true
unfolding all_below
zero_table = refl

-- Every entry is a byte.
abbrev pub IsBytes : BitField → Type 0
IsBytes buf = All (λ b. b < 256) buf

byte_at-lt : (buf : BitField) (i : ℕ) → IsBytes buf → byte_at buf i < 256
byte_at-lt [] i h = omega arith
byte_at-lt (b ∷ buf) zero h = h.0
byte_at-lt (b ∷ buf) (suc i) h = byte_at-lt buf i h.1

byte_at-set :
    (buf : BitField) (i j v : ℕ)
    → i < length buf
    → byte_at (set buf i v) j ≡ (if i == j then v else byte_at buf j)
byte_at-set [] i j v h = absurd (omega arith)
byte_at-set (b ∷ buf) zero zero v h = refl
byte_at-set (b ∷ buf) zero (suc j) v h = ground arith
byte_at-set (b ∷ buf) (suc i) zero v h = ground arith
byte_at-set (b ∷ buf) (suc i) (suc j) v h = ground (arith, byte_at-set buf i j v)

length-set : (buf : BitField) (i v : ℕ) → length (set buf i v) ≡ length buf
length-set [] i v = refl
length-set (b ∷ buf) zero v = refl
length-set (b ∷ buf) (suc i) v = omega (arith, length-set buf i v)

set-IsBytes : (buf : BitField) (i v : ℕ) → v < 256 → IsBytes buf → IsBytes (set buf i v)
set-IsBytes [] i v h k = tt
set-IsBytes (b ∷ buf) zero v h k = (h, k.1)
set-IsBytes (b ∷ buf) (suc i) v h k = (k.0, set-IsBytes buf i v h k.1)

-- A bit that is set is set, and the others keep their values.
pub get-set_bit :
    (buf : BitField) (i j : ℕ)
    → IsBytes buf
    → i < bit_size buf
    → get (set_bit buf i true) j ≡ (i == j || get buf j)
unfolding get set_bit bit_size
get-set_bit buf i j bytes h =
    let v = bit_or (byte_at buf (i / 8)) (2 ^ (i % 8)) % 256 in
    let at : byte_at (set buf (i / 8) v) (j / 8)
        ≡ (if i / 8 == j / 8 then v else byte_at buf (j / 8)) =
      byte_at-set buf (i / 8) (j / 8) v (omega arith) in
    elim (Bool-cases (i / 8 == j / 8)) [
      | inl e ↦
          let place : i / 8 ≡ j / 8 = ground arith in
          let value : byte_at (set buf (i / 8) v) (j / 8) ≡ v = ground arith in
          let level : (i % 8 == j % 8) ≡ (i == j) = ground arith in
          ap (λ b. bit b (j % 8)) value
          ∙ bit-or (byte_at buf (i / 8)) (i % 8) (j % 8) (byte_at-lt buf (i / 8) bytes)
              (omega arith) (omega arith)
          ∙ ap (λ c. c || bit (byte_at buf (i / 8)) (j % 8)) level
          ∙ ap (λ k. i == j || bit (byte_at buf k) (j % 8)) place
      | inr n ↦
          let value : byte_at (set buf (i / 8) v) (j / 8) ≡ byte_at buf (j / 8) = ground arith in
          let differ : (i == j) ≡ false = ground arith in
          ap (λ b. bit b (j % 8)) value
          ∙ sym (ap (λ c. c || bit (byte_at buf (j / 8)) (j % 8)) differ)
    ]

pub set_bit-IsBytes : (buf : BitField) (i : ℕ) (b : Bool) → IsBytes buf → IsBytes (set_bit buf i b)
unfolding set_bit
set_bit-IsBytes buf i true h = set-IsBytes buf (i / 8) _ (omega arith) h
set_bit-IsBytes buf i false h = set-IsBytes buf (i / 8) _ (omega arith) h

pub length-set_bit : (buf : BitField) (i : ℕ) (b : Bool) → length (set_bit buf i b) ≡ length buf
unfolding set_bit
length-set_bit buf i true = length-set buf (i / 8) _
length-set_bit buf i false = length-set buf (i / 8) _

byte_at-zeros : (n i : ℕ) → byte_at (zeros n) i ≡ 0
unfolding zeros
byte_at-zeros zero i = refl
byte_at-zeros (suc n) zero = refl
byte_at-zeros (suc n) (suc i) = byte_at-zeros n i

-- A field of zeros has no bit set.
pub get-zeros : (n j : ℕ) → get (zeros n) j ≡ false
unfolding get
get-zeros n j =
    ap (λ b. bit b (j % 8)) (byte_at-zeros n (j / 8))
    ∙ same_bool_lem _ _ (all_below_lem 8 _ (j % 8) zero_table (omega arith))

pub zeros-IsBytes : (n : ℕ) → IsBytes (zeros n)
unfolding zeros
zeros-IsBytes zero = tt
zeros-IsBytes (suc n) = (omega arith, zeros-IsBytes n)

pub length-zeros : (n : ℕ) → length (zeros n) ≡ n
unfolding zeros
length-zeros zero = refl
length-zeros (suc n) = omega (arith, length-zeros n)
