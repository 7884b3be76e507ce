-- ===== src/Objects/Differences.antt =====
-- cfds/base/object.ts: what `diff` holds of each field.
use ovvio.Base.{
  Option, none, some, List, [], ◌∷◌, ◌++◌, ◌≡◌, refl, sym, ap, ◌∙◌, subst, is_some, arith,
}
use mathlib.Core.List.{append-nil}
use mathlib.Core.Logic.{ite}
use ovvio.Base.Text.{JsString, string_discrete}
use ovvio.Base.Maps
use ovvio.Base.Maps.{Map, HasUniqueKeys, put-HasUniqueKeys}
use ovvio.Objects.{
  ValueType, FieldChanges, TypeOperations, SchemeFields, DataType, DataChanges, add_changes,
  field_diff, diff_loop, diff,
}
use ovvio.Objects.Changes.{IsField, listed, Holds, weaken, add_none, push_all-Holds}

module _ {V C : Type 0} (get_type_operations : ValueType → TypeOperations V C) where
  -- The changes of a field of the scheme, and none of any other.
  abbrev pub diff_at : SchemeFields → DataType V → DataType V → JsString → List C
  diff_at fields data1 data2 j = elim (Maps.get string_discrete j fields) [
    | none ↦ []
    | some type ↦ listed (
        field_diff get_type_operations type (Maps.get string_discrete j data1)
          (Maps.get string_discrete j data2))
  ]

  add_changes-Holds :
      (changes : DataChanges C) (at : JsString → List C) (P : JsString → Type 0) (k : JsString)
      (f : FieldChanges C)
      → P k
      → Holds changes at P
      → Holds (add_changes changes k f) (λ j. ite (string_discrete k j) (at j ++ listed f) (at j)) P
  unfolding add_changes
  add_changes-Holds changes at P k FieldChanges.undefined in_p h =
      weaken changes at _ P (λ j. add_none (string_discrete k j) (at j)) h
  add_changes-Holds changes at P k (FieldChanges.one c) in_p h =
      push_all-Holds changes at P k (c ∷ []) in_p h
  add_changes-Holds changes at P k (FieldChanges.many cs) in_p h =
      push_all-Holds changes at P k cs in_p h

  diff_loop-Holds :
      (fields : SchemeFields) (data1 data2 : DataType V) (changes : DataChanges C)
      (at : JsString → List C) (P : JsString → Type 0)
      → HasUniqueKeys string_discrete fields
      → ((j : JsString) → IsField fields j → P j)
      → Holds changes at P
      → Holds
          (diff_loop get_type_operations fields data1 data2 changes)
          (λ j. at j ++ diff_at fields data1 data2 j)
          P
  unfolding diff_loop Maps.get
  diff_loop-Holds [] data1 data2 changes at P u in_p h =
      weaken changes at _ P (λ j. sym (append-nil (at j))) h
  diff_loop-Holds ((k, t) ∷ fields) data1 data2 changes at P u in_p h =
      let own =
        field_diff get_type_operations t (Maps.get string_discrete k data1)
          (Maps.get string_discrete k data2) in
      weaken _ _ _ P
        (λ j.
          here j (at j) (string_discrete k j) (Maps.get string_discrete j fields)
            (λ same_key. subst (λ i. Maps.get string_discrete i fields ≡ none) same_key u.0))
        (diff_loop-Holds fields data1 data2 (add_changes changes k own)
          (λ j. ite (string_discrete k j) (at j ++ listed own) (at j)) P u.1
          (λ j is_key. in_p j (further j is_key))
          (add_changes-Holds changes at P k own
            (in_p k (ap is_some (Maps.get_head string_discrete k t fields))) h))
    where
      further : (j : JsString) → IsField fields j → IsField ((k, t) ∷ fields) j
      further j is_key = ground (arith, is_key)

      one_diff : JsString → ValueType → List C
      one_diff j type = listed (
          field_diff get_type_operations type (Maps.get string_discrete j data1)
            (Maps.get string_discrete j data2))

      here :
          (j : JsString) (l : List C) (d : Dec (k ≡ j)) (o : Option ValueType)
          → (k ≡ j → o ≡ none)
          → ite d (l ++ one_diff k t) l ++ (elim o [ none ↦ [] | some type ↦ one_diff j type ])
            ≡ l ++ (elim (ite d (some t) o) [ none ↦ [] | some type ↦ one_diff j type ])
      here j l (yes p) o h =
          rw (h p) (append-nil (l ++ one_diff k t) ∙ ap (λ i. l ++ one_diff i t) p)
      here j l (no n) o h = refl

  pub diff-Holds :
      (fields : SchemeFields) (data1 data2 : DataType V)
      → HasUniqueKeys string_discrete fields
      → Holds
          (diff get_type_operations fields data1 data2)
          (diff_at fields data1 data2)
          (IsField fields)
  unfolding diff Maps.get
  diff-Holds fields data1 data2 u =
      diff_loop-Holds fields data1 data2 [] (λ j. []) (IsField fields) u (λ j is_key. is_key)
        (record { unique = tt; holds = λ j. refl; among = λ j is_key. absurd (cc) })
