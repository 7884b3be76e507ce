-- ===== src/Tests/Changes.antt =====
-- cfds/base/object.ts with the types of sets, at small inputs.
use ovvio.Base.{
  false, ◌==◌, Option, some, none, List, [], ◌∷◌, ◌≡◌, refl, arith, length, dec_lt, ℕ_discrete, ℕ,
}
use ovvio.Base.Text.{JsString, str, string_discrete}
use ovvio.Base.Maps
use ovvio.Base.Maps.{HasUniqueKeys}
use ovvio.Base.Sets
use ovvio.Collections.SetUtils
use ovvio.Collections.SetUtils.ByValue
use ovvio.Objects
use ovvio.Objects.{
  ValueType, TypeOperations, SchemeFields, DataType, DataChanges, patch, diff, concat_changes,
  normalize,
}
use ovvio.Objects.Changes.{IsField}
use ovvio.Objects.Laws.{IsOperations, Agrees, All-IfValue, patch-diff, patch-concat_changes}
use ovvio.Objects.Fields.{Change, insertion, deletion, patch_with}
use ovvio.Objects.Normal.{patch-normalize}
use ovvio.Objects.MapType
use ovvio.Objects.MapType.{map_operations}
use ovvio.Objects.MapType.Laws.{SameEntries, map_operations-IsOperations}
use ovvio.Objects.SetType
use ovvio.Objects.SetType.{IsFull, SameMembers, set_operations, set_operations-IsOperations}

program : Unit {0}
unfolding ℕ_discrete string_discrete dec_lt Maps.get Maps.put Maps.remove Sets.has Sets.add
    SetUtils.update SetUtils.from SetUtils.union SetUtils.add_missing ByValue.union_by_value
    ByValue.subtract_by_value SetType.patch_insert SetType.patch_delete SetType.patch
    SetType.value_changed_diff SetType.set_operations Objects.push_all Objects.add_changes
    Objects.field_diff Objects.diff_loop Objects.diff Objects.patch Objects.add_from
    Objects.concat_changes
program = tt

abbrev set_ops : ValueType → TypeOperations (List ℕ) (Change (List ℕ) Unit)
set_ops type = set_operations ℕ_discrete type

-- A type whose patch makes a first value of nothing, as that of rich text does.
abbrev rich_ops : TypeOperations (List ℕ) (Change (List ℕ) Unit)
rich_ops = record (set_ops ValueType.richtext_v3) {
  patch = λ value cs. elim value [ none ↦ some (0 ∷ []) | some v ↦ some v ];
}

-- Sets, beside one type that does not keep their laws.
abbrev sets : ValueType → TypeOperations (List ℕ) (Change (List ℕ) Unit)
sets ValueType.richtext_v3 = rich_ops
sets ValueType.string = set_ops ValueType.string
sets ValueType.number = set_ops ValueType.number
sets ValueType.boolean = set_ops ValueType.boolean
sets ValueType.date = set_ops ValueType.date
sets ValueType.str_set = set_ops ValueType.str_set
sets ValueType.set = set_ops ValueType.set
sets ValueType.ref = set_ops ValueType.ref
sets ValueType.ref_set = set_ops ValueType.ref_set
sets ValueType.map = set_ops ValueType.map
sets ValueType.ref_map = set_ops ValueType.ref_map

abbrev fields : SchemeFields
fields =
    (str "tags", ValueType.set)
    ∷ (str "refs", ValueType.ref_set)
    ∷ (str "body", ValueType.richtext_v3)
    ∷ []

abbrev old : DataType (List ℕ)
old = (str "tags", 1 ∷ 2 ∷ []) ∷ []

abbrev new : DataType (List ℕ)
new = (str "tags", 2 ∷ 3 ∷ []) ∷ (str "refs", 4 ∷ []) ∷ []

-- The changes between them, and what they make.
changed :
    diff sets fields old new
    ≡ (str "tags", insertion (3 ∷ []) ValueType.set ∷ deletion (1 ∷ []) ValueType.set ∷ [])
      ∷ (str "refs", insertion (4 ∷ []) ValueType.ref_set ∷ [])
      ∷ []
unfolding program
changed = refl

patched : patch sets fields old (diff sets fields old new) ≡ some new
unfolding program
patched = refl

fields-HasUniqueKeys : HasUniqueKeys string_discrete fields
unfolding program
fields-HasUniqueKeys = (refl, (refl, (refl, tt)))

tags_at : Maps.get string_discrete (str "tags") fields ≡ some ValueType.set
unfolding program
tags_at = refl

patch-diff_example :
    (d : DataType (List ℕ)) × (patch sets fields old (diff sets fields old new) ≡ some d)
    × Agrees
        (SameMembers ℕ_discrete)
        (Maps.get string_discrete (str "tags") d)
        (Maps.get string_discrete (str "tags") new)
    × ((i : JsString)
        → Maps.get string_discrete i fields ≡ none
        → Maps.get string_discrete i d ≡ Maps.get string_discrete i old)
patch-diff_example =
    patch-diff sets fields old new fields-HasUniqueKeys (str "tags") ValueType.set tags_at IsFull
      (SameMembers ℕ_discrete) (set_operations-IsOperations ℕ_discrete ValueType.set)
      (All-IfValue IsFull old (refl, tt) (str "tags"))
      (All-IfValue IsFull new (refl, (refl, tt)) (str "tags"))

-- Two changes of the tags.
abbrev adds : DataChanges (Change (List ℕ) Unit)
adds = (str "tags", insertion (7 ∷ []) ValueType.set ∷ []) ∷ []

abbrev removes : DataChanges (Change (List ℕ) Unit)
removes = (str "tags", deletion (1 ∷ []) ValueType.set ∷ []) ∷ []

tags_only :
    (cs : List (Change (List ℕ) Unit)) (j : JsString)
    → IsField ((str "tags", cs) ∷ []) j
    → IsField fields j
unfolding Maps.get
tags_only cs j is_key = ground (arith, is_key)

set_loop :
    (x : Option (List ℕ)) (cs : List (Change (List ℕ) Unit))
    → (sets ValueType.set).patch x cs
      ≡ patch_with (SetType.patch_insert ℕ_discrete) (SetType.patch_delete ℕ_discrete) x cs
unfolding set_operations SetType.patch
set_loop x cs = refl

patch-concat_changes_example :
    (d1 d2 d3 : DataType (List ℕ)) × (patch sets fields old adds ≡ some d1)
    × (patch sets fields d1 removes ≡ some d2)
    × (patch sets fields old (concat_changes adds removes) ≡ some d3)
    × (Maps.get string_discrete (str "tags") d3 ≡ Maps.get string_discrete (str "tags") d2)
    × ((i : JsString)
        → Maps.get string_discrete i fields ≡ none
        → (Maps.get string_discrete i d3 ≡ Maps.get string_discrete i old)
          × (Maps.get string_discrete i d2 ≡ Maps.get string_discrete i old))
unfolding Maps.get
patch-concat_changes_example =
    patch-concat_changes sets fields old adds removes (refl, tt) (refl, tt)
      (tags_only (insertion (7 ∷ []) ValueType.set ∷ []))
      (tags_only (deletion (1 ∷ []) ValueType.set ∷ [])) (str "tags") ValueType.set tags_at
      (SetType.patch_insert ℕ_discrete) (SetType.patch_delete ℕ_discrete) set_loop

set_operations-IsOperations_example :
    IsOperations
      (set_operations {R = Unit} ℕ_discrete ValueType.set)
      IsFull
      (SameMembers ℕ_discrete)
set_operations-IsOperations_example = set_operations-IsOperations ℕ_discrete ValueType.set

-- An empty set is no value.
abbrev empty_tags : DataType (List ℕ)
empty_tags = (str "tags", []) ∷ []

abbrev normal : DataType (List ℕ) → DataType (List ℕ)
normal d = normalize sets (λ k. false) (λ k d. none) fields d

patch-normalize_example :
    (d : DataType (List ℕ)) × (patch sets fields
        (normal old)
        (diff sets fields (normal old) (normal empty_tags))
      ≡ some d)
    × Agrees
        (SameMembers ℕ_discrete)
        (Maps.get string_discrete (str "tags") d)
        (Maps.get string_discrete (str "tags") (normal empty_tags))
unfolding set_operations
patch-normalize_example =
    patch-normalize sets (λ k. false) (λ k d. none) fields old empty_tags fields-HasUniqueKeys
      (str "tags") ValueType.set tags_at (λ v. Unit) IsFull (SameMembers ℕ_discrete)
      (set_operations-IsOperations ℕ_discrete ValueType.set) (λ d. tt) (λ v h full. full)
      (All-IfValue (λ v. Unit) old (tt, tt) (str "tags"))
      (All-IfValue (λ v. Unit) empty_tags (tt, tt) (str "tags"))

map_operations-IsOperations_example :
    IsOperations
      (map_operations {R = Unit} ℕ_discrete ℕ_discrete ValueType.map (λ m n. length m == length n))
      (MapType.Laws.IsFull ℕ_discrete)
      (SameEntries ℕ_discrete)
map_operations-IsOperations_example =
    map_operations-IsOperations ℕ_discrete ℕ_discrete ValueType.map (λ m n. length m == length n)
