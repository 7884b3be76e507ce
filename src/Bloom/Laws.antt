-- ===== src/Bloom/Laws.antt =====
-- base/bloom.ts: a filter never forgets a value.
use ovvio.Base.{
  ℕ, ◌*◌, ◌/◌, ◌%◌, ◌<◌, ◌+◌, true, false, List, [], ◌∷◌, ◌≡◌, ◌↔◌, refl, ap, sym, ◌∙◌, subst,
  length, map, arith, Bool-cases, All, inl, inr,
}
use mathlib.Core.Path.{ap₂, subst₂}
use ovvio.Collections.Search.Bounds.{All-mono}
use ovvio.Base.Text.{JsString}
use ovvio.Hash
use ovvio.Hash.{Murmur3State}
use ovvio.Bloom.{
  BitField, BloomFilter, get, set_bit, bit_size, zeros, new_field, new_bloom, hash_of, after,
  add_bits, add_value, add, has_loop, has, serialize, deserialize,
}
use ovvio.Bloom.Bits.{
  IsBytes, get-set_bit, set_bit-IsBytes, length-set_bit, get-zeros, zeros-IsBytes, length-zeros,
}

-- A hash that was reset, as the methods leave it.
abbrev pub IsReset : Murmur3State → Type 0
IsReset h = Hash.new_hash h.seed ≡ h

pub record IsValid (f : BloomFilter) : Type 0 where
  pub bytes : IsBytes f.filter
  pub filled : 0 < length f.filter
  pub ready : All IsReset f.hashes

seed-add : (h : Murmur3State) (v : JsString) → (Hash.add h v).seed ≡ h.seed
unfolding Hash.add
seed-add h v = ground arith

after-IsReset : (h : Murmur3State) (v : JsString) → IsReset h → after h v ≡ h
unfolding after Hash.reset Hash.new_hash
after-IsReset h v r = ap Hash.new_hash (seed-add h v) ∙ r

after_all : (hs : List Murmur3State) (v : JsString) → All IsReset hs → map (λ h. after h v) hs ≡ hs
after_all [] v r = refl
after_all (h ∷ hs) v r = ap₂ ◌∷◌ (after-IsReset h v r.0) (after_all hs v r.1)

-- The bits of a value are set.
abbrev Covers : BitField → ℕ → List Murmur3State → JsString → Type 0
Covers buf size hs v = All (λ h. get buf (hash_of h v % size) ≡ true) hs

has_loop_iff :
    (buf : BitField) (size : ℕ) (hs : List Murmur3State) (v : JsString)
    → ((has_loop buf size hs v).0 ≡ true) ↔ Covers buf size hs v
unfolding has_loop
has_loop_iff buf size [] v = (λ h. tt, λ h. refl)
has_loop_iff buf size (h ∷ hs) v =
    let (to, from) = has_loop_iff buf size hs v in
    elim (Bool-cases (get buf (hash_of h v % size))) [
      | inl found ↦ (λ k. (found, to (ground arith)), λ k. let rest = from k.1 in ground arith)
      | inr absent ↦ (λ k. absurd (ground arith), λ k. absurd (ground arith))
    ]

has_loop-state :
    (buf : BitField) (size : ℕ) (hs : List Murmur3State) (v : JsString)
    → All IsReset hs
    → (has_loop buf size hs v).1 ≡ hs
unfolding has_loop
has_loop-state buf size [] v r = refl
has_loop-state buf size (h ∷ hs) v r =
    ground (arith, has_loop-state buf size hs v r.1, after-IsReset h v r.0)

-- Adding a value only sets bits, and sets those of the value.
record Grows (buf buf' : BitField) : Type 0 where
  bytes : IsBytes buf'
  size : length buf' ≡ length buf
  kept : (j : ℕ) → get buf j ≡ true → get buf' j ≡ true

set_bit-Grows :
    (buf : BitField) (i : ℕ) → IsBytes buf → i < bit_size buf → Grows buf (set_bit buf i true)
set_bit-Grows buf i b h = record {
  bytes = set_bit-IsBytes buf i true b;
  size = length-set_bit buf i true;
  kept = λ j k. ground (arith, get-set_bit buf i j b h);
}

place-lt : (n x : ℕ) → 0 < n → x % (n * 8) < n * 8
place-lt n x h = grind arith

add_bits-Grows :
    (buf : BitField) (n : ℕ) (hs : List Murmur3State) (v : JsString)
    → IsBytes buf
    → length buf ≡ n
    → 0 < n
    → Grows buf (add_bits buf (n * 8) hs v) × Covers (add_bits buf (n * 8) hs v) (n * 8) hs v
unfolding add_bits
add_bits-Grows buf n [] v b e h = (record { bytes = b; size = refl; kept = λ j k. k }, tt)
add_bits-Grows buf n (x ∷ hs) v b e h =
    let i = hash_of x v % (n * 8) in
    let lt : i < bit_size buf = unfold bit_size in omega (arith, place-lt n (hash_of x v) h) in
    let g = set_bit-Grows buf i b lt in
    let (g', c) = add_bits-Grows (set_bit buf i true) n hs v g.bytes (g.size ∙ e) h in
    (
      record { bytes = g'.bytes; size = g'.size ∙ g.size; kept = λ j k. g'.kept j (g.kept j k) },
      (g'.kept i (ground (arith, get-set_bit buf i i b lt)), c),
    )

-- A filter keeps the hashes and the bits that are set.
record Extends (f g : BloomFilter) : Type 0 where
  valid : IsValid g
  hashes : g.hashes ≡ f.hashes
  size : length g.filter ≡ length f.filter
  kept : (j : ℕ) → get f.filter j ≡ true → get g.filter j ≡ true

add_value-Extends :
    (f : BloomFilter) (v : JsString)
    → IsValid f
    → Extends f (add_value f v) × ((has (add_value f v) v).0 ≡ true)
unfolding add_value has bit_size
add_value-Extends f v valid =
    let n = length f.filter in
    let (g, c) = add_bits-Grows f.filter n f.hashes v valid.bytes refl valid.filled in
    let same_hashes = after_all f.hashes v valid.ready in
    (
      record {
        valid = record {
          bytes = g.bytes;
          filled = omega (arith, g.size, valid.filled);
          ready = subst (All IsReset) (sym same_hashes) valid.ready;
        };
        hashes = same_hashes;
        size = g.size;
        kept = g.kept;
      },
      (has_loop_iff _ _ _ v).1 (
          subst₂ (λ m hs. Covers (add_bits f.filter (n * 8) f.hashes v) (m * 8) hs v) (sym g.size)
            (sym same_hashes) c),
    )

-- What a filter has, a filter that extends it has too.
has-Extends :
    (f g : BloomFilter) (v : JsString) → Extends f g → (has f v).0 ≡ true → (has g v).0 ≡ true
unfolding has bit_size
has-Extends f g v e h =
    let c = (has_loop_iff f.filter (length f.filter * 8) f.hashes v).0 h in
    (has_loop_iff g.filter (length g.filter * 8) g.hashes v).1 (
      subst₂ (λ m hs. Covers g.filter (m * 8) hs v) (sym e.size) (sym e.hashes)
        (All-mono _ _ f.hashes (λ x k. e.kept _ k) c))

add-Extends : (f : BloomFilter) (vs : List JsString) → IsValid f → Extends f (add f vs)
unfolding add
add-Extends f [] valid = record { valid = valid; hashes = refl; size = refl; kept = λ j k. k }
add-Extends f (v ∷ vs) valid =
    let (e, own) = add_value-Extends f v valid in
    let e' = add-Extends (add_value f v) vs e.valid in
    record {
      valid = e'.valid;
      hashes = e'.hashes ∙ e.hashes;
      size = e'.size ∙ e.size;
      kept = λ j k. e'.kept j (e.kept j k);
    }

add-has :
    (f : BloomFilter) (vs : List JsString) → IsValid f → All (λ v. (has (add f vs) v).0 ≡ true) vs
unfolding add
add-has f [] valid = tt
add-has f (v ∷ vs) valid =
    let (e, own) = add_value-Extends f v valid in
    (
      has-Extends (add_value f v) (add (add_value f v) vs) v
          (add-Extends (add_value f v) vs e.valid) own,
      add-has (add_value f v) vs e.valid,
    )

-- No false negatives: a filter answers yes for all values that are added, and still for all for
-- which it answered yes before. It stays valid and keeps its size.
pub no_false_negatives :
    (f : BloomFilter) (vs : List JsString)
    → IsValid f
    → All (λ v. (has (add f vs) v).0 ≡ true) vs
      × ((v : JsString) → (has f v).0 ≡ true → (has (add f vs) v).0 ≡ true)
      × IsValid (add f vs)
      × (length (add f vs).filter ≡ length f.filter)
no_false_negatives f vs valid =
    let e = add-Extends f vs valid in
    (add-has f vs valid, λ v. has-Extends f (add f vs) v e, e.valid, e.size)

-- To ask a valid filter does not change it.
pub has_pure : (f : BloomFilter) (v : JsString) → IsValid f → (has f v).1 ≡ f
unfolding has
has_pure f v valid =
    ap (λ hs. record f { hashes = hs })
      (has_loop-state f.filter (bit_size f.filter) f.hashes v valid.ready)

new_hashes-IsReset : (seeds : List ℕ) → All IsReset (map Hash.new_hash seeds)
unfolding Hash.new_hash
new_hashes-IsReset [] = tt
new_hashes-IsReset (s ∷ seeds) = (refl, new_hashes-IsReset seeds)

-- A new filter is valid, and with a hash at least it has no value.
pub new_bloom-IsValid :
    (m s : ℕ) (seeds : List ℕ)
    → 0 < m
    → IsValid (new_bloom m (s ∷ seeds))
      × ((v : JsString) → (has (new_bloom m (s ∷ seeds)) v).0 ≡ false)
unfolding new_bloom new_field has has_loop
new_bloom-IsValid m s seeds h = (
  record {
    bytes = zeros-IsBytes ((m + 7) / 8);
    filled = omega (arith, length-zeros ((m + 7) / 8));
    ready = new_hashes-IsReset (s ∷ seeds);
  },
  λ v. ground (
    arith,
    get-zeros ((m + 7) / 8) (hash_of (Hash.new_hash s) v % bit_size (zeros ((m + 7) / 8))),
  ),
)

module _ {Code : Type 0} (encode : BitField → Code) (decode : Code → BitField) where
  same_seeds :
      (hs : List Murmur3State) → All IsReset hs → map Hash.new_hash (map (λ h. h.seed) hs) ≡ hs
  same_seeds [] r = refl
  same_seeds (h ∷ hs) r = ap₂ ◌∷◌ r.0 (same_seeds hs r.1)

  -- A valid filter is read back as it was written, if the coding of its bytes is undone.
  pub deserialize-serialize :
      (f : BloomFilter)
      → IsValid f
      → decode (encode f.filter) ≡ f.filter
      → deserialize encode decode (serialize encode decode f) ≡ f
  unfolding deserialize serialize
  deserialize-serialize f valid e =
      ap₂ (λ b hs. record { filter = b; hashes = hs }) e (same_seeds f.hashes valid.ready)
