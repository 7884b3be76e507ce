-- ===== src/Objects/MapType.antt =====
-- cfds/base/types/map-type.ts: the operations of the types of maps. A patch gives a new map; that it
-- changes the one that it has got is not kept.
pub mod Entries
pub mod Laws
use ovvio.Base.{
  Bool, true, false, Option, none, some, List, [], ◌∷◌, ◌++◌, ◌&&◌, same, is_some, if◌then◌else◌,
  ltb, ◌==◌, length,
}
use ovvio.Base.Maps
use ovvio.Base.Maps.{Map}
use ovvio.Objects.{ValueType, FieldChanges, TypeOperations}
use ovvio.Objects.Fields.{FieldChange, Change, insertion, deletion, patch_with}

module _ {K V : Type 0} (key_dec : Discrete K) (dec : Discrete V) where
  -- The loop of `patchInsert`.
  unfoldable pub put_all : Map K V → Map K V → Map K V
  put_all cur [] = cur
  put_all cur ((k, v) ∷ value) = put_all (Maps.put key_dec k v cur) value

  -- `coreValueEquals(map.get(k), v)`
  abbrev pub is_value : Option V → V → Bool
  is_value none v = false
  is_value (some cur) v = same dec cur v

  -- The loop of `patchDelete`.
  unfoldable pub delete_all : Map K V → Map K V → Map K V
  delete_all cur [] = cur
  delete_all cur ((k, v) ∷ value) =
      delete_all (if is_value (Maps.get key_dec k cur) v then Maps.remove key_dec k cur else cur)
        value

  unfoldable pub patch_insert : Option (Map K V) → FieldChange (Map K V) → Option (Map K V)
  unfolding put_all
  patch_insert none c = some (put_all [] c.value)
  patch_insert (some cur) c = some (put_all cur c.value)

  unfoldable pub patch_delete : Option (Map K V) → FieldChange (Map K V) → Option (Map K V)
  unfolding delete_all
  patch_delete none c = none
  patch_delete (some cur) c =
      let left = delete_all cur c.value in if length left == 0 then none else some left

  -- The first loop of `valueChangedDiff`: what is gone, and what has another value.
  unfoldable pub deleted : Map K V → Map K V → Map K V → Map K V
  deleted [] map2 result = result
  deleted ((k, v) ∷ map1) map2 result =
      deleted map1 map2
        (if is_some (Maps.get key_dec k map2) then result else Maps.put key_dec k v result)

  abbrev pub change_of : V → Option V → Map K V → K → Map K V
  change_of v none result k = result
  change_of v (some value2) result k =
      if same dec v value2 then result else Maps.put key_dec k value2 result

  unfoldable pub changed : Map K V → Map K V → Map K V → Map K V
  changed [] map2 result = result
  changed ((k, v) ∷ map1) map2 result =
      changed map1 map2 (change_of v (Maps.get key_dec k map2) result k)

  -- The second loop: what is new.
  unfoldable pub inserted : Map K V → Map K V → Map K V → Map K V
  inserted map1 [] result = result
  inserted map1 ((k, v) ∷ map2) result =
      inserted map1 map2
        (if is_some (Maps.get key_dec k map1) then result else Maps.put key_dec k v result)

module _ {K V R : Type 0} (key_dec : Discrete K) (dec : Discrete V) (type : ValueType) where
  unfoldable pub patch : Option (Map K V) → List (Change (Map K V) R) → Option (Map K V)
  unfolding patch_insert patch_delete
  patch cur changes = patch_with (patch_insert key_dec dec) (patch_delete key_dec dec) cur changes

  abbrev pub both : Map K V → Map K V → FieldChanges (Change (Map K V) R)
  both [] [] = FieldChanges.undefined
  both (x ∷ insert_map) [] = FieldChanges.many (insertion (x ∷ insert_map) type ∷ [])
  both [] (y ∷ delete_map) = FieldChanges.many (deletion (y ∷ delete_map) type ∷ [])
  both (x ∷ insert_map) (y ∷ delete_map) =
      FieldChanges.many (insertion (x ∷ insert_map) type ∷ deletion (y ∷ delete_map) type ∷ [])

  unfoldable pub value_changed_diff : Map K V → Map K V → FieldChanges (Change (Map K V) R)
  unfolding deleted changed inserted
  value_changed_diff map1 map2 =
      both (inserted key_dec dec map1 map2 (changed key_dec dec map1 map2 []))
        (deleted key_dec dec map1 map2 [])

  -- `equals` stands for `coreValueEquals` of two maps.
  unfoldable pub map_operations :
      (Map K V → Map K V → Bool) → TypeOperations (Map K V) (Change (Map K V) R)
  unfolding patch value_changed_diff
  map_operations equals = record {
    equals = equals;
    value_added_diff = λ value2. FieldChanges.one (insertion value2 type);
    value_removed_diff = λ value1. FieldChanges.one (deletion value1 type);
    value_changed_diff = value_changed_diff;
    patch = patch;
    is_empty = λ value. length value == 0;
    normalize = λ value. value;
  }
