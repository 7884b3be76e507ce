-- ===== src/Objects/Fields.antt =====
-- cfds/change/field-change.ts: the changes of a field, and the loop over them that the patches of
-- cfds/base/types share. A value is of its type, so the assertion of the constructor holds.
use ovvio.Base.{Option, List, [], ◌∷◌, ◌++◌, ◌≡◌, refl}
use ovvio.Objects.{ValueType}

pub data FieldOperation : Type 0 where
  insert : FieldOperation
  delete : FieldOperation

pub record FieldChange (V : Type 0) : Type 0 where
  pub operation : FieldOperation
  pub value : V
  pub value_type : ValueType

-- A change is a FieldChange, or one of rich text.
pub data Change (V R : Type 0) : Type 0 where
  field : FieldChange V → Change V R
  richtext : R → Change V R

module _ {V R : Type 0} where
  -- `FieldChange.insert`
  abbrev pub insertion : V → ValueType → Change V R
  insertion value type =
      Change.field (record { operation = FieldOperation.insert; value = value; value_type = type })

  -- `FieldChange.delete`
  abbrev pub deletion : V → ValueType → Change V R
  deletion value type =
      Change.field (record { operation = FieldOperation.delete; value = value; value_type = type })

  -- The loop of `patch`, with what it does on an insertion and on a deletion.
  abbrev pub patch_with :
      (Option V → FieldChange V → Option V)
      → (Option V → FieldChange V → Option V)
      → Option V
      → List (Change V R)
      → Option V
  patch_with on_insert on_delete cur [] = cur
  patch_with on_insert on_delete cur (Change.richtext r ∷ changes) =
      patch_with on_insert on_delete cur changes
  patch_with on_insert on_delete cur (Change.field c ∷ changes) =
      patch_with on_insert on_delete
        (elim c.operation [ insert ↦ on_insert cur c | delete ↦ on_delete cur c ]) changes

  pub patch_with-append :
      (f g : Option V → FieldChange V → Option V) (cur : Option V) (cs ds : List (Change V R))
      → patch_with f g cur (cs ++ ds) ≡ patch_with f g (patch_with f g cur cs) ds
  patch_with-append f g cur [] ds = refl
  patch_with-append f g cur (Change.richtext r ∷ cs) ds = patch_with-append f g cur cs ds
  patch_with-append f g cur (Change.field c ∷ cs) ds =
      patch_with-append f g (elim c.operation [ insert ↦ f cur c | delete ↦ g cur c ]) cs ds
