-- ===== src/Objects.antt =====
-- cfds/base/object.ts: the data of a record, field by field, and the changes between two of them.
-- The operations of a type of values are the interface of cfds/base/types/index.ts. A field that is
-- undefined is a field that is not there; the options are fixed. `none` is an error that is thrown.
pub mod Changes
pub mod Differences
pub mod Patching
pub mod Laws
pub mod Fields
pub mod Primitive
pub mod SetType
pub mod MapType
pub mod Normal
use ovvio.Base.{
  Bool, true, false, ◌||◌, Option, none, some, List, [], ◌∷◌, ◌++◌, if◌then◌else◌, is_some,
}
use ovvio.Base.Text.{JsString, string_discrete}
use ovvio.Base.Maps
use ovvio.Base.Maps.{Map}
use ovvio.Base.Sets

pub data ValueType : Type 0 where
  string : ValueType
  number : ValueType
  boolean : ValueType
  date : ValueType
  str_set : ValueType
  set : ValueType
  ref : ValueType
  ref_set : ValueType
  map : ValueType
  ref_map : ValueType
  richtext_v3 : ValueType

-- undefined | Change | Change[]
pub data FieldChanges (C : Type 0) : Type 0 where
  undefined : FieldChanges C
  one : C → FieldChanges C
  many : List C → FieldChanges C

pub record TypeOperations (V C : Type 0) : Type 0 where
  pub equals : V → V → Bool
  pub value_added_diff : V → FieldChanges C
  pub value_removed_diff : V → FieldChanges C
  pub value_changed_diff : V → V → FieldChanges C
  pub patch : Option V → List C → Option V
  pub is_empty : V → Bool
  pub normalize : V → V

abbrev pub SchemeFields : Type 0
SchemeFields = Map JsString ValueType

abbrev pub DataType : Type 0 → Type 0
DataType V = Map JsString V

abbrev pub DataChanges : Type 0 → Type 0
DataChanges C = Map JsString (List C)

module _ {C : Type 0} where
  -- `changes[field]`, where undefined is no changes.
  abbrev pub changes_at : JsString → DataChanges C → List C
  changes_at field changes = elim (Maps.get string_discrete field changes) [
    | none ↦ []
    | some cs ↦ cs
  ]

  -- The loop that pushes the changes of a field.
  unfoldable pub push_all : DataChanges C → JsString → List C → DataChanges C
  push_all changes field [] = changes
  push_all changes field (change ∷ fchanges) =
      push_all (Maps.put string_discrete field (changes_at field changes ++ change ∷ []) changes)
        field fchanges

  -- `addChanges` of `diff`
  unfoldable pub add_changes : DataChanges C → JsString → FieldChanges C → DataChanges C
  unfolding push_all
  add_changes changes field undefined = changes
  add_changes changes field (one c) = push_all changes field (c ∷ [])
  add_changes changes field (many cs) = push_all changes field cs

  -- `addChanges` of `concatChanges`
  unfoldable pub add_from : DataChanges C → DataChanges C → DataChanges C
  add_from changes [] = changes
  add_from changes ((key, cs) ∷ from) =
      add_from (Maps.put string_discrete key (changes_at key changes ++ cs) changes) from

  unfoldable pub concat_changes : DataChanges C → DataChanges C → DataChanges C
  unfolding add_from
  concat_changes changes1 changes2 = add_from (add_from [] changes1) changes2

  unfoldable pub any_changes : DataChanges C → Bool
  any_changes [] = false
  any_changes ((key, []) ∷ changes) = any_changes changes
  any_changes ((key, c ∷ cs) ∷ changes) = true

-- `valueTypeEquals`, with the equality of each type.
unfoldable pub value_type_equals :
    {V : Type 0} → (ValueType → V → V → Bool) → ValueType → Option V → Option V → Bool
value_type_equals type_equals type none none = true
value_type_equals type_equals type none (some value2) = false
value_type_equals type_equals type (some value1) none = false
value_type_equals type_equals type (some value1) (some value2) = type_equals type value1 value2

module _ {V C : Type 0} (get_type_operations : ValueType → TypeOperations V C) where
  -- The changes of one field.
  unfoldable pub field_diff : ValueType → Option V → Option V → FieldChanges C
  field_diff type none none = FieldChanges.undefined
  field_diff type none (some value2) = (get_type_operations type).value_added_diff value2
  field_diff type (some value1) none = (get_type_operations type).value_removed_diff value1
  field_diff type (some value1) (some value2) =
      (get_type_operations type).value_changed_diff value1 value2

  unfoldable pub diff_loop : SchemeFields → DataType V → DataType V → DataChanges C → DataChanges C
  unfolding field_diff add_changes
  diff_loop [] data1 data2 changes = changes
  diff_loop ((key, type) ∷ fields) data1 data2 changes =
      let value1 = Maps.get string_discrete key data1 in
      let value2 = Maps.get string_discrete key data2 in
      diff_loop fields data1 data2 (add_changes changes key (field_diff type value1 value2))

  unfoldable pub diff : SchemeFields → DataType V → DataType V → DataChanges C
  unfolding diff_loop
  diff fields data1 data2 = diff_loop fields data1 data2 []

  -- `data[field] = value`, or its deletion where the value is undefined.
  abbrev pub set_field : DataType V → JsString → Option V → DataType V
  set_field d field none = Maps.remove string_discrete field d
  set_field d field (some value) = Maps.put string_discrete field value d

  unfoldable pub patch : SchemeFields → DataType V → DataChanges C → Option (DataType V)
  patch fields d [] = some d
  patch fields d ((field, fchanges) ∷ changes) = elim (Maps.get string_discrete field fields) [
    | none ↦ none
    | some type ↦
        let value = (get_type_operations type).patch (Maps.get string_discrete field d) fchanges in
        patch fields (set_field d field value) changes
  ]

  -- A value that is not empty.
  abbrev pub kept_value : ValueType → Option V → Option V
  kept_value type none = none
  kept_value type (some v) = if (get_type_operations type).is_empty v then none else some v

  abbrev pub normal_field :
      (JsString → Bool)
      → (JsString → DataType V → Option V)
      → JsString
      → ValueType
      → DataType V
      → Option V
      → DataType V
  normal_field has_init init key type d none =
      if has_init key then set_field d key (init key d) else Maps.remove string_discrete key d
  normal_field has_init init key type d (some v) =
      Maps.put string_discrete key ((get_type_operations type).normalize v) d

  -- `normalize`; the scheme tells which fields have a first value, and which.
  unfoldable pub normalize :
      (JsString → Bool)
      → (JsString → DataType V → Option V)
      → SchemeFields
      → DataType V
      → DataType V
  normalize has_init init [] d = d
  normalize has_init init ((key, type) ∷ fields) d =
      normalize has_init init fields
        (normal_field has_init init key type d (kept_value type (Maps.get string_discrete key d)))

  unfoldable pub equals : SchemeFields → DataType V → DataType V → Bool
  unfolding value_type_equals
  equals [] data1 data2 = true
  equals ((key, type) ∷ fields) data1 data2 =
      let rest = equals fields data1 data2 in
      if value_type_equals (λ t. (get_type_operations t).equals) type
        (Maps.get string_discrete key data1) (Maps.get string_discrete key data2)
      then rest
      else false

  -- The first loop of `diffKeys`: the keys of the fields that the other data do not have.
  unfoldable pub missing_keys :
      SchemeFields → DataType V → DataType V → List JsString → List JsString
  missing_keys fields [] data2 result = result
  missing_keys fields ((key, v) ∷ data1) data2 result =
      if is_some (Maps.get string_discrete key fields)
      then (if is_some (Maps.get string_discrete key data2)
          then missing_keys fields data1 data2 result
          else missing_keys fields data1 data2 (Sets.add string_discrete key result))
      else missing_keys fields data1 data2 result

  -- The second loop: the keys that are new or have another value.
  unfoldable pub changed_keys :
      SchemeFields → DataType V → DataType V → List JsString → List JsString
  changed_keys fields data1 [] result = result
  changed_keys fields data1 ((key, value2) ∷ data2) result =
      changed_keys fields data1 data2 (elim (Maps.get string_discrete key fields) [
        | none ↦ result
        | some type ↦ elim (Maps.get string_discrete key data1) [
          | none ↦ Sets.add string_discrete key result
          | some value1 ↦
              if (get_type_operations type).equals value1 value2
              then result
              else Sets.add string_discrete key result
        ]
      ])

  unfoldable pub diff_keys : SchemeFields → DataType V → DataType V → List JsString
  unfolding missing_keys changed_keys
  diff_keys fields data1 data2 =
      changed_keys fields data1 data2 (missing_keys fields data1 data2 [])
