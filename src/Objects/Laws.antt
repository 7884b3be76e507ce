-- ===== src/Objects/Laws.antt =====
-- cfds/base/object.ts: `patch` against `diff` and `concatChanges`, field by field, for every
-- implementation of the operations of types. What a theorem on a field needs of a type it needs of the
-- type of that field only: rich text, whose patch makes a value of nothing, need not have it.
use ovvio.Base.{Option, none, some, List, [], ◌∷◌, ◌++◌, ◌≡◌, sym, ap, ◌∙◌, subst, All}
use mathlib.Core.Logic.{ite}
use ovvio.Base.Text.{JsString, string_discrete}
use ovvio.Base.Maps
use ovvio.Base.Maps.{HasUniqueKeys}
use ovvio.Objects.{
  ValueType, TypeOperations, SchemeFields, DataType, DataChanges, changes_at, field_diff, patch,
  diff, concat_changes,
}
use ovvio.Objects.Changes.{IsField, listed, concat_changes-Holds}
use ovvio.Objects.Differences.{diff-Holds}
use ovvio.Objects.Fields.{FieldChange, Change, patch_with, patch_with-append}
use ovvio.Objects.Patching.{patched_value, patch-Patched, patched_value-changes}

module _ {V : Type 0} where
  -- Both are undefined, or both are values that are the same.
  abbrev pub Agrees : (V → V → Type 0) → Option V → Option V → Type 0
  Agrees Same none none = Unit
  Agrees Same none (some w) = ⊥
  Agrees Same (some v) none = ⊥
  Agrees Same (some v) (some w) = Same v w

  -- A value, where it is defined.
  abbrev pub IfValue : (V → Type 0) → Option V → Type 0
  IfValue P none = Unit
  IfValue P (some v) = P v

-- What holds of all values of some data holds of each field that has a value.
pub All-IfValue :
    {V : Type 0} (P : V → Type 0) (d : DataType V)
    → All (λ e. P e.1) d
    → (j : JsString) → IfValue P (Maps.get string_discrete j d)
unfolding Maps.get
All-IfValue P [] h j = tt
All-IfValue P ((k, v) ∷ d) h j = chosen (string_discrete k j) (All-IfValue P d h.1 j)
  where
    chosen :
        (dd : Dec (k ≡ j))
        → IfValue P (Maps.get string_discrete j d)
        → IfValue P (ite dd (some v) (Maps.get string_discrete j d))
    chosen (yes p) rest = h.0
    chosen (no n) rest = rest

-- What `diff` and `patch` need of a type: a patch with the difference of two normal values leads from
-- one to a value that is the same as the other.
pub record IsOperations {V C : Type 0} (o : TypeOperations V C) (IsNormal : V → Type 0)
    (Same : V → V → Type 0) : Type 0 where
  pub nothing : (x : Option V) → o.patch x [] ≡ x
  pub joined : (x : Option V) (cs ds : List C) → o.patch x (cs ++ ds) ≡ o.patch (o.patch x cs) ds
  pub added :
      (w : V) → IsNormal w → Agrees Same (o.patch none (listed (o.value_added_diff w))) (some w)
  pub removed : (v : V) → IsNormal v → o.patch (some v) (listed (o.value_removed_diff v)) ≡ none
  pub changed :
      (v w : V)
      → IsNormal v
      → IsNormal w
      → Agrees Same (o.patch (some v) (listed (o.value_changed_diff v w))) (some w)

module _ {V C : Type 0} (get_type_operations : ValueType → TypeOperations V C) where
  field_diff-Agrees :
      (t : ValueType) (IsNormal : V → Type 0) (Same : V → V → Type 0)
      → IsOperations (get_type_operations t) IsNormal Same
      → (x y : Option V) → IfValue IsNormal x
      → IfValue IsNormal y
      → Agrees Same
          ((get_type_operations t).patch x (listed (field_diff get_type_operations t x y)))
          y
  unfolding field_diff
  field_diff-Agrees t N Same laws none none h k =
      subst (λ o. Agrees Same o none) (sym (laws.nothing none)) tt
  field_diff-Agrees t N Same laws none (some w) h k = laws.added w k
  field_diff-Agrees t N Same laws (some v) none h k =
      subst (λ o. Agrees Same o none) (sym (laws.removed v h)) tt
  field_diff-Agrees t N Same laws (some v) (some w) h k = laws.changed v w h k

  -- A patch with the difference of two data throws nothing and keeps what is not of the scheme. It
  -- gives a field of the scheme the value of the second data, if the operations of the type of that
  -- field keep their laws and its two values are normal. Nothing is asked of the types of the other
  -- fields. A scheme names a field once.
  pub patch-diff :
      (fields : SchemeFields) (data1 data2 : DataType V)
      → HasUniqueKeys string_discrete fields
      → (j : JsString) (t : ValueType) → Maps.get string_discrete j fields ≡ some t
      → (IsNormal : V → Type 0) (Same : V → V → Type 0)
      → IsOperations (get_type_operations t) IsNormal Same
      → IfValue IsNormal (Maps.get string_discrete j data1)
      → IfValue IsNormal (Maps.get string_discrete j data2)
      → (d : DataType V) × (patch get_type_operations fields data1
            (diff get_type_operations fields data1 data2)
          ≡ some d)
        × Agrees Same (Maps.get string_discrete j d) (Maps.get string_discrete j data2)
        × ((i : JsString)
            → Maps.get string_discrete i fields ≡ none
            → Maps.get string_discrete i d ≡ Maps.get string_discrete i data1)
  patch-diff fields data1 data2 u j t e N Same laws normal1 normal2 =
      let h = diff-Holds get_type_operations fields data1 data2 u in
      let changes = diff get_type_operations fields data1 data2 in
      let (d, run, p) = patch-Patched get_type_operations fields data1 changes h.unique h.among in
      let x = Maps.get string_discrete j data1 in
      let y = Maps.get string_discrete j data2 in
      let own : changes_at j changes ≡ listed (field_diff get_type_operations t x y) =
        h.holds j
        ∙ ap
            (λ o. elim o [
              | none ↦ []
              | some type ↦ listed (field_diff get_type_operations type x y)
            ])
            e in
      let made : Maps.get string_discrete j d
          ≡ (get_type_operations t).patch x (listed (field_diff get_type_operations t x y)) =
        p.known j t e
        ∙ patched_value-changes get_type_operations t laws.nothing x
            (Maps.get string_discrete j changes)
        ∙ ap ((get_type_operations t).patch x) own in
      (
        d,
        run,
        subst (λ o. Agrees Same o y) (sym made)
            (field_diff-Agrees t N Same laws x y normal1 normal2),
        p.others,
      )

module _ {V R : Type 0} (get_type_operations : ValueType → TypeOperations V (Change V R)) where
  -- A patch with the changes of two maps in one, and patches with the first and then with the second,
  -- throw nothing, where the maps have fields of the scheme only. They give the same value to a field
  -- whose type patches a value by the loop over its changes that the types but rich text share, and
  -- keep what is not of the scheme. Nothing is asked of the types of the other fields.
  pub patch-concat_changes :
      (fields : SchemeFields) (d : DataType V) (changes1 changes2 : DataChanges (Change V R))
      → HasUniqueKeys string_discrete changes1
      → HasUniqueKeys string_discrete changes2
      → ((j : JsString) → IsField changes1 j → IsField fields j)
      → ((j : JsString) → IsField changes2 j → IsField fields j)
      → (j : JsString) (t : ValueType) → Maps.get string_discrete j fields ≡ some t
      → (f g : Option V → FieldChange V → Option V)
      → ((x : Option V) (cs : List (Change V R))
          → (get_type_operations t).patch x cs ≡ patch_with f g x cs)
      → (d1 d2 d3 : DataType V) × (patch get_type_operations fields d changes1 ≡ some d1)
        × (patch get_type_operations fields d1 changes2 ≡ some d2)
        × (patch get_type_operations fields d (concat_changes changes1 changes2) ≡ some d3)
        × (Maps.get string_discrete j d3 ≡ Maps.get string_discrete j d2)
        × ((i : JsString)
            → Maps.get string_discrete i fields ≡ none
            → (Maps.get string_discrete i d3 ≡ Maps.get string_discrete i d)
              × (Maps.get string_discrete i d2 ≡ Maps.get string_discrete i d))
  patch-concat_changes fields d changes1 changes2 u1 u2 in1 in2 j t e f g loop =
      let go = patch-Patched get_type_operations fields in
      let h = concat_changes-Holds changes1 changes2 (IsField fields) in1 in2 u1 u2 in
      let (d1, run1, p1) = go d changes1 u1 in1 in
      let (d2, run2, p2) = go d1 changes2 u2 in2 in
      let (d3, run3, p3) = go d (concat_changes changes1 changes2) h.unique h.among in
      let x = Maps.get string_discrete j d in
      let by_loop : (y : Option V) (changes : DataChanges (Change V R))
          → patched_value get_type_operations t y (Maps.get string_discrete j changes)
            ≡ patch_with f g y (changes_at j changes) =
        λ y changes.
          patched_value-changes get_type_operations t (λ z. loop z []) y
            (Maps.get string_discrete j changes)
          ∙ loop y (changes_at j changes) in
      (
        d1,
        d2,
        d3,
        run1,
        run2,
        run3,
        p3.known j t e
            ∙ by_loop x (concat_changes changes1 changes2)
            ∙ ap (patch_with f g x) (h.holds j)
            ∙ patch_with-append f g x (changes_at j changes1) (changes_at j changes2)
            ∙ ap (λ o. patch_with f g o (changes_at j changes2))
                (sym (p1.known j t e ∙ by_loop x changes1))
            ∙ sym (p2.known j t e ∙ by_loop (Maps.get string_discrete j d1) changes2),
        λ i out. (p3.others i out, p2.others i out ∙ p1.others i out),
      )
