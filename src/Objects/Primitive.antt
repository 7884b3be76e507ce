-- ===== src/Objects/Primitive.antt =====
-- cfds/base/types/core-type.ts and primitive-type.ts: the operations of the types of primitive
-- values, which compare by the equality of core values.
use ovvio.Base.{
  Bool, true, false, Option, none, some, List, ◌≡◌, refl, same, same_iff, if◌then◌else◌, arith,
}
use ovvio.Objects.{ValueType, FieldChanges, TypeOperations, value_type_equals}
use ovvio.Objects.Fields.{FieldChange, Change, insertion, deletion, patch_with, patch_with-append}
use ovvio.Objects.Laws.{IsOperations, Agrees}
use ovvio.Objects.Changes.{listed}

module _ {V : Type 0} (dec : Discrete V) where
  abbrev on_insert : Option V → FieldChange V → Option V
  on_insert cur c = some c.value

  unfoldable pub on_delete : Option V → FieldChange V → Option V
  unfolding value_type_equals
  on_delete cur c =
      if value_type_equals (λ t. same dec) c.value_type cur (some c.value) then none else cur

module _ {V R : Type 0} (dec : Discrete V) (type : ValueType) where
  unfoldable pub patch : Option V → List (Change V R) → Option V
  unfolding on_delete
  patch cur changes = patch_with (on_insert dec) (on_delete dec) cur changes

  unfoldable pub value_changed_diff : V → V → FieldChanges (Change V R)
  value_changed_diff value1 value2 =
      if same dec value1 value2
      then FieldChanges.undefined
      else FieldChanges.one (insertion value2 type)

  unfoldable pub primitive_operations : TypeOperations V (Change V R)
  unfolding patch value_changed_diff
  primitive_operations = record {
    equals = same dec;
    value_added_diff = λ value2. FieldChanges.one (insertion value2 type);
    value_removed_diff = λ value1. FieldChanges.one (deletion value1 type);
    value_changed_diff = value_changed_diff;
    patch = patch;
    is_empty = λ value. false;
    normalize = λ value. value;
  }

  pub primitive_operations-IsOperations :
      IsOperations primitive_operations (λ v. Unit) (λ v w. v ≡ w)
  unfolding primitive_operations patch value_changed_diff on_delete value_type_equals
  primitive_operations-IsOperations = record {
    nothing = λ x. refl;
    joined = λ x cs ds. patch_with-append (on_insert dec) (on_delete dec) x cs ds;
    added = λ w h. refl;
    removed = λ v h. ground arith;
    changed = λ v w h k. chosen v w (same dec v w) (λ e. (same_iff dec v w).0 e);
  }
    where
      chosen :
          (v w : V) (b : Bool)
          → (b ≡ true → v ≡ w)
          → Agrees
              (λ x y. x ≡ y)
              (patch (some v) (
                listed (if b then FieldChanges.undefined else FieldChanges.one (insertion w type))))
              (some w)
      chosen v w true e = e refl
      chosen v w false e = refl
