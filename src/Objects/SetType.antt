-- ===== src/Objects/SetType.antt =====
-- cfds/base/types/set-type.ts: the operations of the types of sets.
use ovvio.Base.{
  true, false, not, ◌&&◌, ◌||◌, Option, none, some, List, [], ◌∷◌, ◌≡◌, refl, sym, ap, ◌∙◌, suc,
  if◌then◌else◌, ltb, ◌==◌, length, arith,
}
use ovvio.Base.Sets.{has, has_head, has_nil}
use ovvio.Collections.SetUtils.{equals}
use ovvio.Collections.SetUtils.ByValue.{
  subtract_by_value, union_by_value, has-subtract_by_value, has-union_by_value,
}
use ovvio.Objects.{ValueType, FieldChanges, TypeOperations}
use ovvio.Objects.Fields.{FieldChange, Change, insertion, deletion, patch_with, patch_with-append}
use ovvio.Objects.Laws.{IsOperations, Agrees}
use ovvio.Objects.Changes.{listed}

-- A set that is not empty.
abbrev pub IsFull : {A : Type 0} → List A → Type 0
IsFull s = (length s == 0) ≡ false

module _ {A : Type 0} (dec : Discrete A) where
  unfoldable pub patch_insert : Option (List A) → FieldChange (List A) → Option (List A)
  patch_insert none c = some (union_by_value dec [] c.value)
  patch_insert (some cur) c = some (union_by_value dec cur c.value)

  unfoldable pub patch_delete : Option (List A) → FieldChange (List A) → Option (List A)
  patch_delete none c = none
  patch_delete (some cur) c =
      let new_value = subtract_by_value dec cur c.value in
      if ltb 0 (length new_value) then some new_value else none

  -- Sets with the same members.
  abbrev pub SameMembers : List A → List A → Type 0
  SameMembers s t = (a : A) → has dec a s ≡ has dec a t

  members_none : (s : List A) → ((a : A) → has dec a s ≡ false) → s ≡ []
  members_none [] h = refl
  members_none (a ∷ s) h = absurd (let e = h a in let e' = has_head dec a s in cc)

  left_or_none :
      (s w : List A)
      → SameMembers s w
      → IsFull w
      → Agrees SameMembers (if ltb 0 (length s) then some s else none) (some w)
  left_or_none [] [] same_members h = absurd (ground arith)
  left_or_none [] (a ∷ w) same_members h = absurd (
      let e = sym (members_none (a ∷ w) (λ b. sym (same_members b) ∙ has_nil dec b)) in
      ground (arith, ap length e))
  left_or_none (a ∷ s) w same_members h =
      let more : ltb 0 (suc (length s)) ≡ true = ground arith in rw more same_members

module _ {A R : Type 0} (dec : Discrete A) (type : ValueType) where
  unfoldable pub patch : Option (List A) → List (Change (List A) R) → Option (List A)
  unfolding patch_insert patch_delete
  patch cur changes = patch_with (patch_insert dec) (patch_delete dec) cur changes

  -- The changes of what was added and of what was removed.
  abbrev pub both : List A → List A → FieldChanges (Change (List A) R)
  both [] [] = FieldChanges.undefined
  both (x ∷ added) [] = FieldChanges.many (insertion (x ∷ added) type ∷ [])
  both [] (y ∷ removed) = FieldChanges.many (deletion (y ∷ removed) type ∷ [])
  both (x ∷ added) (y ∷ removed) =
      FieldChanges.many (insertion (x ∷ added) type ∷ deletion (y ∷ removed) type ∷ [])

  unfoldable pub value_changed_diff : List A → List A → FieldChanges (Change (List A) R)
  unfolding subtract_by_value
  value_changed_diff value1 value2 =
      both (subtract_by_value dec value2 value1) (subtract_by_value dec value1 value2)

  unfoldable pub set_operations : TypeOperations (List A) (Change (List A) R)
  unfolding patch value_changed_diff
  set_operations = record {
    equals = equals dec;
    value_added_diff = λ value2. FieldChanges.one (insertion value2 type);
    value_removed_diff = λ value1. FieldChanges.one (deletion value1 type);
    value_changed_diff = value_changed_diff;
    patch = patch;
    is_empty = λ value. length value == 0;
    normalize = λ value. value;
  }

module _ {A : Type 0} (R : Type 0) (dec : Discrete A) (type : ValueType) where
  both-Agrees :
      (v w added removed : List A)
      → IsFull w
      → ((a : A) → has dec a added ≡ (has dec a w && not (has dec a v)))
      → ((a : A) → has dec a removed ≡ (has dec a v && not (has dec a w)))
      → Agrees
          (SameMembers dec)
          (patch {R = R} dec type (some v) (listed (both dec type added removed)))
          (some w)
  unfolding patch patch_insert patch_delete
  both-Agrees v w [] [] h in_added in_removed =
      λ a. ground (arith, in_added a, in_removed a, has_nil dec a)
  both-Agrees v w (x ∷ added) [] h in_added in_removed = λ a.
      ground
        (arith, in_added a, in_removed a, has_nil dec a, has-union_by_value dec a v (x ∷ added))
  both-Agrees v w [] (y ∷ removed) h in_added in_removed =
      left_or_none dec (subtract_by_value dec v (y ∷ removed)) w
        (λ a. ground (
          arith,
          in_added a,
          in_removed a,
          has_nil dec a,
          has-subtract_by_value dec a v (y ∷ removed),
        ))
        h
  both-Agrees v w (x ∷ added) (y ∷ removed) h in_added in_removed =
      let all = union_by_value dec v (x ∷ added) in
      left_or_none dec (subtract_by_value dec all (y ∷ removed)) w
        (λ a. ground (
          arith,
          in_added a,
          in_removed a,
          has-union_by_value dec a v (x ∷ added),
          has-subtract_by_value dec a all (y ∷ removed),
        ))
        h

module _ {A R : Type 0} (dec : Discrete A) (type : ValueType) where
  -- Sets that are not empty have the same members behind a patch with their difference; order is
  -- forgotten.
  pub set_operations-IsOperations :
      IsOperations (set_operations {R = R} dec type) IsFull (SameMembers dec)
  unfolding set_operations patch patch_insert patch_delete value_changed_diff
  set_operations-IsOperations = record {
    nothing = λ x. refl;
    joined = λ x cs ds. patch_with-append (patch_insert dec) (patch_delete dec) x cs ds;
    added = λ w h a. has-union_by_value dec a [] w ∙ ap (λ b. b || has dec a w) (has_nil dec a);
    removed = λ v h.
        let none_left : subtract_by_value dec v v ≡ [] =
          members_none dec (subtract_by_value dec v v)
            (λ a. ground (arith, has-subtract_by_value dec a v v)) in
        rw none_left refl;
    changed = λ v w h k.
        both-Agrees R dec type v w (subtract_by_value dec w v) (subtract_by_value dec v w) k
          (λ a. has-subtract_by_value dec a w v) (λ a. has-subtract_by_value dec a v w);
  }
