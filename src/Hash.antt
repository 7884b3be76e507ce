-- ===== src/Hash.antt =====
-- base/hash.ts: the class `MurmurHash3`. A 32-bit integer is its bit pattern, below 2 ^ 32; the
-- products of the source stay below 2 ^ 53, where JavaScript computes exactly.
use Prim.Native.Nat.{bit_and, bit_or, bit_xor}
use ovvio.Base.{
  ℕ, zero, suc, ◌+◌, ◌-◌, ◌*◌, ◌/◌, ◌%◌, ◌^◌, ◌<◌, ◌&&◌, Option, none, some, ltb, leb, ◌==◌,
  if◌then◌else◌, length, get_elem?, arith,
}
use ovvio.Base.Text.{JsString}

-- `ToInt32`, `x << k` and `x >>> k` of a pattern.
abbrev pub word : ℕ → ℕ
word x = x % 2 ^ 32

abbrev shl : ℕ → ℕ → ℕ
shl x k = x * 2 ^ k % 2 ^ 32

abbrev shr : ℕ → ℕ → ℕ
shr x k = x / 2 ^ k

pub record Murmur3State : Type 0 where
  pub seed : ℕ
  pub h1 : ℕ
  pub rem : ℕ
  pub k1 : ℕ
  pub len : ℕ

-- `Murmur3StateReset` of a state, with a new seed or with the old one.
unfoldable pub reset : Murmur3State → Option ℕ → Murmur3State
reset state none = record { seed = state.seed; h1 = state.seed; rem = 0; k1 = 0; len = 0 }
reset state (some seed) = record { seed = seed; h1 = seed; rem = 0; k1 = 0; len = 0 }

-- The constructor, for a given seed.
unfoldable pub new_hash : ℕ → Murmur3State
new_hash seed = record { seed = seed; h1 = seed; rem = 0; k1 = 0; len = 0 }

-- `key.charCodeAt(i)`, read as 0 by the operators beyond the end.
abbrev code_at : JsString → ℕ → ℕ
code_at key i = elim (get_elem? key i) [ none ↦ 0 | some c ↦ c ]

-- The cases 0 to 3 of the first switch, from the one that is entered: the new `k1` and `i`.
unfoldable pub fill : JsString → ℕ → ℕ → ℕ × ℕ
fill key rem k1 =
    let i0 : ℕ = 0 in
    let len = length key in
    let (k, i) : ℕ × ℕ =
      if rem == 0 && ltb i0 len then (bit_xor k1 (code_at key i0 % 2 ^ 16), suc i0) else (k1, i0) in
    let (k', i') : ℕ × ℕ =
      if leb rem 1 && ltb i len
      then (bit_xor k (shl (code_at key i % 2 ^ 16) 8), suc i)
      else (k, i) in
    let (k'', i'') : ℕ × ℕ =
      if leb rem 2 && ltb i' len
      then (bit_xor k' (shl (code_at key i' % 2 ^ 16) 16), suc i')
      else (k', i') in
    if leb rem 3 && ltb i'' len
    then (
      bit_xor (bit_xor k'' (shl (code_at key i'' % 2 ^ 8) 24))
          (shr (bit_and (code_at key i'') 0xff00) 8),
      suc i'',
    )
    else (k'', i'')

unfoldable pub mix_k : ℕ → ℕ
mix_k k1 =
    let a = word (k1 * 0x2d51 + (k1 % 2 ^ 16) * 0xcc9e0000) in
    let b = bit_or (shl a 15) (shr a 17) in word (b * 0x3593 + (b % 2 ^ 16) * 0x1b870000)

unfoldable pub mix_h : ℕ → ℕ → ℕ
mix_h h1 k1 =
    let a = bit_xor (word h1) k1 in
    let b = bit_or (shl a 13) (shr a 19) in word (b * 5 + 0xe6546b64)

-- The loop over blocks of four characters; `fuel` bounds the blocks.
unfoldable pub blocks : ℕ → JsString → ℕ → ℕ → ℕ → ℕ → ℕ × ℕ
unfolding mix_k mix_h
blocks zero key len i h1 k1 = (h1, i)
blocks (suc fuel) key len i h1 k1 =
    let h = mix_h h1 (mix_k k1) in
    let low =
      bit_xor (bit_xor (code_at key i % 2 ^ 16) (shl (code_at key (i + 1) % 2 ^ 16) 8))
        (shl (code_at key (i + 2) % 2 ^ 16) 16) in
    let top = code_at key (i + 3) in
    let k = bit_xor low (bit_xor (shl (top % 2 ^ 8) 24) (shr (bit_and top 0xff00) 8)) in
    let more = blocks fuel key len (i + 4) h k in if leb len i then (h, i) else more

-- The second switch: what is left over for the next call.
unfoldable pub leftover : JsString → ℕ → ℕ → ℕ
leftover key rem i =
    let a = if rem == 3 then shl (code_at key (i + 2) % 2 ^ 16) 16 else 0 in
    let b =
      if leb 2 rem && leb rem 3 then bit_xor a (shl (code_at key (i + 1) % 2 ^ 16) 8) else a in
    if leb 1 rem && leb rem 3 then bit_xor b (code_at key i % 2 ^ 16) else b

-- `Murmur3StateAdd`
unfoldable pub add : Murmur3State → JsString → Murmur3State
unfolding fill blocks leftover
add state key =
    let (k, i) = fill key state.rem state.k1 in
    let rem = (length key + state.rem) % 4 in
    if ltb rem (length key)
    then (let (h, j) = blocks (length key) key (length key - rem) i state.h1 k in
        record state { len = state.len + length key; rem = rem; h1 = h; k1 = leftover key rem j })
    else record state { len = state.len + length key; rem = rem; k1 = k }

-- `Murmur3StateResult`; a pattern from 2 ^ 31 on is a negative number.
unfoldable pub result : Murmur3State → ℕ
unfolding mix_k
result state =
    let a =
      if ltb 0 state.k1 && ltb state.k1 (2 ^ 31)
      then bit_xor (word state.h1) (mix_k state.k1)
      else state.h1 in
    let b = bit_xor (word a) (word state.len) in
    let c = bit_xor b (shr b 16) in
    let d = word (c * 0xca6b + (c % 2 ^ 16) * 0x85eb0000) in
    let e = bit_xor d (shr d 13) in
    let f = word (e * 0xae35 + (e % 2 ^ 16) * 0xc2b20000) in word (bit_xor f (shr f 16))

-- A hash is an unsigned integer of 32 bits.
pub result-lt : (state : Murmur3State) → result state < 2 ^ 32
unfolding result
result-lt state = omega arith
