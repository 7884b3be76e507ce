-- ===== src/Tests/Containers.antt =====
-- base/algorithms.ts and base/collections at small inputs.
use Prim.Native.Nat.{Ordering, compare}
use ovvio.Base.{
  ℕ, true, false, some, List, [], ◌∷◌, refl, ◌≡◌, ◌⊎◌, ◌↔◌, ◌<◌, arith, ◌==◌, ℕ_discrete, dec_lt,
  insert_at,
}
use ovvio.Base.Maps
use ovvio.Base.Text.{JsString, str, string_discrete}
use ovvio.Collections.Search.{IsOrder, IsSorted, Fits, bsearch, bsearch_loop, bsearch_fixup}
use ovvio.Collections.Search.Insertion.{bsearch-Fits}
use ovvio.Collections.SortedList
use ovvio.Collections.SortedList.{SortedList, holds}
use ovvio.Collections.SortedList.Order.{add-IsSorted}
use ovvio.Collections.HashSet
use ovvio.Collections.HashSet.{HashSet, no_clone}
use ovvio.Collections.HashSet.Laws.{IsHashing, IsValid, empty-IsValid, add-IsValid}
use ovvio.Collections.HashSet.Size.{size_pos}

program : Unit {0}
unfolding bsearch bsearch_loop bsearch_fixup holds SortedList.add SortedList.delete SortedList.find
    SortedList.has HashSet.add HashSet.has HashSet.delete HashSet.find HashSet.splice HashSet.size
    string_discrete ℕ_discrete dec_lt Maps.get Maps.put Maps.remove
program = tt

abbrev digits : List ℕ
digits = 1 ∷ 3 ∷ 5 ∷ []

compare-IsOrder : IsOrder compare
compare-IsOrder = record {
  flip_lt = λ x y h. ground arith;
  flip_gt = λ x y h. ground arith;
  trans_lt = λ x y z h k. ground arith;
  trans_gt = λ x y z h k. ground arith;
  trans_le = λ x y z h k. λ g. ground arith;
}

digits-IsSorted : IsSorted compare digits
digits-IsSorted = ((λ e. cc, (λ e. cc, tt)), ((λ e. cc, tt), (tt, tt)))

found :
    (bsearch compare digits 3 ≡ some 1)
    × (bsearch compare digits 4 ≡ some 2)
    × (bsearch compare digits 9 ≡ some 3)
unfolding program
found = (refl, refl, refl)

bsearch-Fits_example : (r : ℕ) × (bsearch compare digits 4 ≡ some r) × Fits compare digits 4 r
bsearch-Fits_example = bsearch-Fits compare compare-IsOrder 4 digits digits-IsSorted

abbrev list : SortedList ℕ
list = record { arr = digits }

add-IsSorted_example :
    (s' : SortedList ℕ) × (i : ℕ) × (SortedList.add compare ◌==◌ list 4 ≡ some (s', i))
    × IsSorted compare s'.arr
    × ((s' ≡ list) × (holds compare ◌==◌ digits 4 i ≡ true)
        ⊎ (s'.arr ≡ insert_at i 4 digits) × (holds compare ◌==◌ digits 4 i ≡ false))
add-IsSorted_example = add-IsSorted compare compare-IsOrder 4 ◌==◌ list digits-IsSorted

level : (x v : ℕ) → ((x == v) ≡ true) ↔ (compare v x ≡ Ordering.eq)
level x v = (λ h. ground arith, λ h. ground arith)

-- Numbers with one hash for all.
abbrev one_hash : ℕ → JsString
one_hash n = str "h"

one_hash-IsHashing : IsHashing one_hash ◌==◌
one_hash-IsHashing = record {
  laws = record {
    eq_refl = λ a. ground arith;
    eq_sym = λ a b h. ground arith;
    eq_trans = λ a b c h k. ground arith;
  };
  hash_eq = λ a b h. refl;
}

abbrev three : HashSet ℕ
three = (HashSet.add one_hash ◌==◌ no_clone HashSet.empty 3).0

three-IsValid : IsValid one_hash ◌==◌ three
three-IsValid =
    add-IsValid one_hash ◌==◌ one_hash-IsHashing HashSet.empty 3 (empty-IsValid one_hash ◌==◌)

three-has :
    (HashSet.has one_hash ◌==◌ no_clone three 3 ≡ true)
    × (HashSet.has one_hash ◌==◌ no_clone (HashSet.delete one_hash ◌==◌ no_clone three 3).0 3
        ≡ false)
unfolding program
three-has = (refl, refl)

size_pos_example :
    (0 < HashSet.size three) ↔ ((v : ℕ) × (HashSet.has one_hash ◌==◌ no_clone three v ≡ true))
size_pos_example = size_pos one_hash ◌==◌ one_hash-IsHashing three three-IsValid
