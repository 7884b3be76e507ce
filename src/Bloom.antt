-- ===== src/Bloom.antt =====
-- base/bloom.ts: the classes `BitField` and `BloomFilter` over the hash of base/hash.ts. The sizes
-- that the constructor derives from a rate are given; the coding of bytes in Base64 is a parameter.
pub mod Bits
pub mod Laws
use Prim.Native.Nat.{bit_and, bit_or}
use ovvio.Base.{
  ℕ, zero, suc, ◌+◌, ◌-◌, ◌*◌, ◌/◌, ◌%◌, ◌^◌, Bool, true, false, not, Option, none, some, List, [],
  ◌∷◌, ◌==◌, if◌then◌else◌, length, get_elem?, set, map,
}
use ovvio.Base.Text.{JsString}
use ovvio.Hash
use ovvio.Hash.{Murmur3State}

-- The bytes of a `BitField`.
abbrev pub BitField : Type 0
BitField = List ℕ

unfoldable pub zeros : ℕ → BitField
zeros zero = []
zeros (suc n) = 0 ∷ zeros n

-- `new BitField(size)`: the quotient is rounded up.
unfoldable pub new_field : ℕ → BitField
unfolding zeros
new_field size = zeros ((size + 7) / 8)

unfoldable pub bit_size : BitField → ℕ
bit_size buffer = length buffer * 8

abbrev pub byte_at : BitField → ℕ → ℕ
byte_at buffer i = elim (get_elem? buffer i) [ none ↦ 0 | some b ↦ b ]

-- `idx >> 3` of an index below 2 ^ 31; a byte beyond the end reads as no bit.
unfoldable pub get : BitField → ℕ → Bool
get buffer idx = not (bit_and (byte_at buffer (idx / 8)) (2 ^ (idx % 8)) == 0)

unfoldable pub set_bit : BitField → ℕ → Bool → BitField
set_bit buffer idx true =
    set buffer (idx / 8) (bit_or (byte_at buffer (idx / 8)) (2 ^ (idx % 8)) % 256)
set_bit buffer idx false =
    set buffer (idx / 8) (bit_and (byte_at buffer (idx / 8)) (255 - 2 ^ (idx % 8)) % 256)

pub record BloomFilter : Type 0 where
  pub filter : BitField
  pub hashes : List Murmur3State

-- The constructor, for `m` bits and the seeds of the hashes.
unfoldable pub new_bloom : ℕ → List ℕ → BloomFilter
unfolding new_field
new_bloom m seeds = record { filter = new_field m; hashes = map Hash.new_hash seeds }

-- `h.hash(val); h.result()`, and the state behind `h.reset()`.
unfoldable pub hash_of : Murmur3State → JsString → ℕ
hash_of h val = Hash.result (Hash.add h val)

unfoldable pub after : Murmur3State → JsString → Murmur3State
after h val = Hash.reset (Hash.add h val) none

-- The inner loop of `add`.
unfoldable pub add_bits : BitField → ℕ → List Murmur3State → JsString → BitField
unfolding set_bit hash_of
add_bits buf size [] val = buf
add_bits buf size (h ∷ hs) val = add_bits (set_bit buf (hash_of h val % size) true) size hs val

unfoldable pub add_value : BloomFilter → JsString → BloomFilter
unfolding add_bits after bit_size
add_value f val = record {
  filter = add_bits f.filter (bit_size f.filter) f.hashes val;
  hashes = map (λ h. after h val) f.hashes;
}

unfoldable pub add : BloomFilter → List JsString → BloomFilter
unfolding add_value
add f [] = f
add f (val ∷ values) = add (add_value f val) values

-- The loop of `has`, and the hashes behind it.
unfoldable pub has_loop : BitField → ℕ → List Murmur3State → JsString → Bool × List Murmur3State
unfolding get hash_of after
has_loop buf size [] value = (true, [])
has_loop buf size (h ∷ hs) value =
    let (found, hs') = has_loop buf size hs value in
    if not (get buf (hash_of h value % size))
    then (false, after h value ∷ hs)
    else (found, after h value ∷ hs')

unfoldable pub has : BloomFilter → JsString → Bool × BloomFilter
unfolding has_loop bit_size
has f value =
    let (found, hs) = has_loop f.filter (bit_size f.filter) f.hashes value in
    (found, record f { hashes = hs })

-- `resetSeed` of each hash, with the seeds that are drawn.
unfoldable pub reset_seeds : (ℕ → ℕ) → ℕ → List Murmur3State → List Murmur3State
reset_seeds drawn k [] = []
reset_seeds drawn k (h ∷ hs) = Hash.reset h (some (drawn k)) ∷ reset_seeds drawn (suc k) hs

unfoldable pub clear : (ℕ → ℕ) → BloomFilter → BloomFilter
unfolding zeros reset_seeds
clear drawn f = record { filter = zeros (length f.filter); hashes = reset_seeds drawn 0 f.hashes }

-- What `serialize` writes under `d` and `s`, and `deserialize`.
module _ {Code : Type 0} (encode : BitField → Code) (decode : Code → BitField) where
  unfoldable pub serialize : BloomFilter → Code × List ℕ
  serialize f = (encode f.filter, map (λ h. h.seed) f.hashes)

  unfoldable pub deserialize : Code × List ℕ → BloomFilter
  deserialize (d, s) = record { filter = decode d; hashes = map Hash.new_hash s }
