-- ===== src/Objects/Normal.antt =====
-- cfds/base/object.ts: what `normalize` makes of the fields of a record.
use ovvio.Base.{
  Bool, false, Option, none, some, [], ◌∷◌, ◌≡◌, refl, sym, ◌∙◌, subst, if◌then◌else◌, Bool-cases,
  inl, inr,
}
use mathlib.Core.Logic.{ite, if_pos, if_neg}
use ovvio.Base.Text.{JsString, string_discrete}
use ovvio.Base.Maps
use ovvio.Base.Maps.{HasUniqueKeys}
use ovvio.Objects.{
  diff, patch, ValueType, TypeOperations, SchemeFields, DataType, normalize, kept_value,
  normal_field,
}
use ovvio.Objects.Laws.{IfValue, Agrees, IsOperations, patch-diff}
use ovvio.Objects.Patching.{get-set_field}

module _ {V C : Type 0} (get_type_operations : ValueType → TypeOperations V C)
    (has_init : JsString → Bool) (init : JsString → DataType V → Option V) where
  -- The value that a field gets.
  abbrev new_value : JsString → ValueType → DataType V → Option V → Option V
  new_value key type d none = if has_init key then init key d else none
  new_value key type d (some v) = some ((get_type_operations type).normalize v)

  get-normal_field :
      (key j : JsString) (type : ValueType) (d : DataType V) (o : Option V)
      → Maps.get string_discrete j (normal_field get_type_operations has_init init key type d o)
        ≡ ite (string_discrete key j) (new_value key type d o) (Maps.get string_discrete j d)
  get-normal_field key j type d (some v) =
      Maps.get-put string_discrete key j ((get_type_operations type).normalize v) d
  get-normal_field key j type d none = elim (Bool-cases (has_init key)) [
    | inl e ↦ rw e (get-set_field get_type_operations d key j (init key d))
    | inr e ↦ rw e (Maps.get-remove string_discrete key j d)
  ]

  new_value-Normal :
      (P N : V → Type 0) (key : JsString) (type : ValueType) (d : DataType V)
      → IfValue N (init key d)
      → ((v : V)
          → P v
          → (get_type_operations type).is_empty v ≡ false
          → N ((get_type_operations type).normalize v))
      → (o : Option V) → IfValue P o
      → IfValue N (new_value key type d (kept_value get_type_operations type o))
  new_value-Normal P N key type d of_init of_normalize o h = kept o h
    where
      first : IfValue N (new_value key type d none)
      first = elim (Bool-cases (has_init key)) [ inl e ↦ rw e of_init | inr e ↦ rw e tt ]

      kept :
          (o : Option V)
          → IfValue P o
          → IfValue N (new_value key type d (kept_value get_type_operations type o))
      kept none h = first
      kept (some v) h = elim (Bool-cases ((get_type_operations type).is_empty v)) [
        | inl e ↦ rw e first
        | inr e ↦ rw e (of_normalize v h e)
      ]

  -- Fields that the scheme does not have are as they were.
  normalize-others :
      (fields : SchemeFields) (d : DataType V) (j : JsString)
      → Maps.get string_discrete j fields ≡ none
      → Maps.get string_discrete j (normalize get_type_operations has_init init fields d)
        ≡ Maps.get string_discrete j d
  unfolding normalize Maps.get
  normalize-others [] d j e = refl
  normalize-others ((key, type) ∷ fields) d j e = elim (string_discrete key j) [
    | yes p ↦ absurd (
        let here =
          if_pos (string_discrete key j) p (some type) (Maps.get string_discrete j fields) in
        cc)
    | no n ↦
        let o = kept_value get_type_operations type (Maps.get string_discrete key d) in
        normalize-others fields (normal_field get_type_operations has_init init key type d o) j
          (sym (if_neg (string_discrete key j) n _ _) ∙ e)
        ∙ get-normal_field key j type d o
        ∙ if_neg (string_discrete key j) n _ _
  ]

  -- What holds of the first values of a field and of the normal forms of its values that are not empty
  -- holds of its value behind `normalize`.
  pub normalize-Normal :
      (P N : V → Type 0) (j : JsString) (t : ValueType)
      → ((d : DataType V) → IfValue N (init j d))
      → ((v : V)
          → P v
          → (get_type_operations t).is_empty v ≡ false
          → N ((get_type_operations t).normalize v))
      → (fields : SchemeFields) (d : DataType V) → HasUniqueKeys string_discrete fields
      → Maps.get string_discrete j fields ≡ some t
      → IfValue P (Maps.get string_discrete j d)
      → IfValue N
          (Maps.get string_discrete j (normalize get_type_operations has_init init fields d))
  unfolding normalize Maps.get
  normalize-Normal P N j t of_init of_normalize [] d u e h = absurd (cc)
  normalize-Normal P N j t of_init of_normalize ((key, type) ∷ fields) d u e h =
      elim (string_discrete key j) [
        | no n ↦
            normalize-Normal P N j t of_init of_normalize fields
              (normal_field get_type_operations has_init init key type d o) u.1
              (sym (if_neg (string_discrete key j) n _ _) ∙ e)
              (subst (IfValue P)
                (sym (get-normal_field key j type d o ∙ if_neg (string_discrete key j) n _ _)) h)
        | yes p ↦
            let last : Maps.get string_discrete j fields ≡ none =
              subst (λ i. Maps.get string_discrete i fields ≡ none) p u.0 in
            let same_type : type ≡ t =
              (let here =
                  sym (
                    if_pos (string_discrete key j) p (some type)
                      (Maps.get string_discrete j fields))
                  ∙ e in
                cc) in
            let made =
              normalize-others fields (normal_field get_type_operations has_init init key type d o)
                j last
              ∙ get-normal_field key j type d o
              ∙ if_pos (string_discrete key j) p _ _ in
            subst (IfValue N) (sym made) (own p same_type)
      ]
    where
      o : Option V
      o = kept_value get_type_operations type (Maps.get string_discrete key d)

      own : key ≡ j → type ≡ t → IfValue N (new_value key type d o)
      own p q =
          new_value-Normal P N key type d (subst (λ k. IfValue N (init k d)) (sym p) (of_init d))
            (λ v pv is_kept.
              subst (λ s. N ((get_type_operations s).normalize v)) (sym q)
                (of_normalize v pv
                  (subst (λ s. (get_type_operations s).is_empty v ≡ false) q is_kept)))
            (Maps.get string_discrete key d)
            (subst (λ k. IfValue P (Maps.get string_discrete k d)) (sym p) h)

  -- Once two data are normalized, a patch with their difference throws nothing and gives a field of
  -- the scheme the normalized value of the second. For the type of that field the operations keep
  -- their laws on normal values, the first values are normal, the field's values in both data are
  -- valid, and normalization makes normal values of the valid values that are not empty. Nothing is
  -- asked of the types of the other fields. A scheme names a field once.
  pub patch-normalize :
      (fields : SchemeFields) (data1 data2 : DataType V)
      → HasUniqueKeys string_discrete fields
      → (j : JsString) (t : ValueType) → Maps.get string_discrete j fields ≡ some t
      → (IsValid IsNormal : V → Type 0) (Same : V → V → Type 0)
      → IsOperations (get_type_operations t) IsNormal Same
      → ((d : DataType V) → IfValue IsNormal (init j d))
      → ((v : V)
          → IsValid v
          → (get_type_operations t).is_empty v ≡ false
          → IsNormal ((get_type_operations t).normalize v))
      → IfValue IsValid (Maps.get string_discrete j data1)
      → IfValue IsValid (Maps.get string_discrete j data2)
      → (d : DataType V) × (patch get_type_operations fields
            (normalize get_type_operations has_init init fields data1)
            (diff get_type_operations fields
              (normalize get_type_operations has_init init fields data1)
              (normalize get_type_operations has_init init fields data2))
          ≡ some d)
        × Agrees Same
            (Maps.get string_discrete j d)
            (Maps.get string_discrete j (normalize get_type_operations has_init init fields data2))
  patch-normalize fields data1 data2 u j t e P N Same laws of_init of_normalize h1 h2 =
      let normal = normalize-Normal P N j t of_init of_normalize fields in
      let (d, run, agrees, others) =
        patch-diff get_type_operations fields
          (normalize get_type_operations has_init init fields data1)
          (normalize get_type_operations has_init init fields data2) u j t e N Same laws
          (normal data1 u e h1) (normal data2 u e h2) in
      (d, run, agrees)
