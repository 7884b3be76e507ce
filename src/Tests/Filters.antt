-- ===== src/Tests/Filters.antt =====
-- base/bloom.ts and base/hash.ts at small inputs.
use ovvio.Base.{true, false, List, [], ◌∷◌, ◌≡◌, refl, arith, length, dec_lt, ℕ_discrete, All}
use ovvio.Base.Text.{JsString, str}
use ovvio.Hash
use ovvio.Bloom
use ovvio.Bloom.{BitField, BloomFilter, new_field, new_bloom, serialize, deserialize, zeros}
use ovvio.Bloom.Laws.{IsValid, no_false_negatives, new_bloom-IsValid, deserialize-serialize}

program : Unit {0}
unfolding Hash.reset Hash.new_hash Hash.fill Hash.mix_k Hash.mix_h Hash.blocks Hash.leftover
    Hash.add Hash.result new_field new_bloom Bloom.get Bloom.set_bit Bloom.hash_of Bloom.after
    Bloom.add_bits Bloom.add_value Bloom.add Bloom.has_loop Bloom.has Bloom.bit_size zeros serialize
    deserialize ℕ_discrete dec_lt
program = tt

-- Test vectors of MurmurHash3 for ASCII texts.
vectors :
    (Hash.result (Hash.add (Hash.new_hash 0) (str "test")) ≡ 0xba6bd213)
    × (Hash.result (Hash.add (Hash.new_hash 0) (str "Hello, world!")) ≡ 0xc0363e43)
    × (Hash.result (Hash.add (Hash.new_hash 0) (str "")) ≡ 0)
    × (Hash.result (Hash.add (Hash.new_hash 0x9747b28c) (str "a")) ≡ 0x7fa09ea6)
unfolding program
vectors = (refl, refl, refl, refl)

abbrev small : BloomFilter
small = new_bloom 32 (1 ∷ 2 ∷ [])

abbrev words : List JsString
words = str "a" ∷ str "bc" ∷ []

no_false_negatives_example :
    All (λ v. (Bloom.has (Bloom.add small words) v).0 ≡ true) words
    × ((v : JsString)
        → (Bloom.has small v).0 ≡ true
        → (Bloom.has (Bloom.add small words) v).0 ≡ true)
    × IsValid (Bloom.add small words)
    × (length (Bloom.add small words).filter ≡ length small.filter)
no_false_negatives_example =
    no_false_negatives small words (new_bloom-IsValid 32 1 (2 ∷ []) (omega arith)).0

other_word : (Bloom.has (Bloom.add small words) (str "xyz")).0 ≡ false
unfolding program
other_word = refl

deserialize-serialize_example :
    deserialize {Code = BitField}
      (λ b. b)
      (λ c. c)
      (serialize {Code = BitField} (λ b. b) (λ c. c) small)
    ≡ small
deserialize-serialize_example =
    deserialize-serialize {Code = BitField} (λ b. b) (λ c. c) small
      (new_bloom-IsValid 32 1 (2 ∷ []) (omega arith)).0 refl
