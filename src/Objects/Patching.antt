-- ===== src/Objects/Patching.antt =====
-- cfds/base/object.ts: what `patch` does to each field, whatever the patches of its type are.
use ovvio.Base.{
  Option, none, some, List, [], ◌∷◌, ◌≡◌, refl, sym, ap, ◌∙◌, subst, is_some, arith, Option-cases,
  inl, inr,
}
use mathlib.Core.Logic.{ite, if_neg}
use ovvio.Base.Text.{JsString, string_discrete}
use ovvio.Base.Maps
use ovvio.Base.Maps.{Map, HasUniqueKeys}
use ovvio.Objects.{ValueType, TypeOperations, SchemeFields, DataType, DataChanges, set_field, patch}
use ovvio.Objects.Changes.{IsField}

module _ {V C : Type 0} (get_type_operations : ValueType → TypeOperations V C) where
  -- A value with the changes of its field, if there are any for it.
  abbrev pub patched_value : ValueType → Option V → Option (List C) → Option V
  patched_value type value none = value
  patched_value type value (some cs) = (get_type_operations type).patch value cs

  -- Each field of the scheme that has changes is patched with them, and nothing else.
  pub record Patched (fields : SchemeFields) (d : DataType V) (changes : DataChanges C)
      (d' : DataType V) : Type 0 where
    pub known :
        (j : JsString) (t : ValueType)
        → Maps.get string_discrete j fields ≡ some t
        → Maps.get string_discrete j d'
          ≡ patched_value t (Maps.get string_discrete j d) (Maps.get string_discrete j changes)
    pub others :
        (j : JsString)
        → Maps.get string_discrete j fields ≡ none
        → Maps.get string_discrete j d' ≡ Maps.get string_discrete j d

  pub get-set_field :
      (d : DataType V) (k j : JsString) (o : Option V)
      → Maps.get string_discrete j (set_field get_type_operations d k o)
        ≡ ite (string_discrete k j) o (Maps.get string_discrete j d)
  get-set_field d k j none = Maps.get-remove string_discrete k j d
  get-set_field d k j (some v) = Maps.get-put string_discrete k j v d

  pub patch-Patched :
      (fields : SchemeFields) (d : DataType V) (changes : DataChanges C)
      → HasUniqueKeys string_discrete changes
      → ((j : JsString) → IsField changes j → IsField fields j)
      → (d' : DataType V) × (patch get_type_operations fields d changes ≡ some d')
        × Patched fields d changes d'
  unfolding patch Maps.get
  patch-Patched fields d [] u in_fields =
      (d, refl, record { known = λ j t e. refl; others = λ j e. refl })
  patch-Patched fields d ((k, cs) ∷ changes) u in_fields =
      elim (Option-cases (Maps.get string_discrete k fields)) [
        | inl unknown ↦ absurd (
            let head = in_fields k (ap is_some (Maps.get_head string_discrete k cs changes)) in
            ground arith)
        | inr (t, e) ↦
            let v = (get_type_operations t).patch (Maps.get string_discrete k d) cs in
            let (d', run, rest) =
              patch-Patched fields (set_field get_type_operations d k v) changes u.1
                (λ j is_key. in_fields j (ground (arith, is_key))) in
            (
              d',
              rw (e, patch) run,
              record {
                known = λ j t' e'.
                    rest.known j t' e'
                    ∙ ap (λ o. patched_value t' o (Maps.get string_discrete j changes))
                        (get-set_field d k j v)
                    ∙ step t e j t' e' (string_discrete k j);
                others = λ j out.
                    rest.others j out
                    ∙ get-set_field d k j v
                    ∙ if_neg (string_discrete k j) (λ same_key. absurd (apart t e j out same_key)) _
                        _;
              },
            )
      ]
    where
      apart :
          (t : ValueType)
          → Maps.get string_discrete k fields ≡ some t
          → (j : JsString) → Maps.get string_discrete j fields ≡ none
          → k ≡ j
          → ⊥
      apart t e j out same_key =
          let here = subst (λ i. Maps.get string_discrete i fields ≡ some t) same_key e in
          absurd (cc)

      same_type :
          (t : ValueType)
          → Maps.get string_discrete k fields ≡ some t
          → (j : JsString) (t' : ValueType) → Maps.get string_discrete j fields ≡ some t'
          → k ≡ j
          → t ≡ t'
      same_type t e j t' e' same_key =
          let here = subst (λ i. Maps.get string_discrete i fields ≡ some t) same_key e in cc

      step :
          (t : ValueType)
          → Maps.get string_discrete k fields ≡ some t
          → (j : JsString) (t' : ValueType) → Maps.get string_discrete j fields ≡ some t'
          → (dd : Dec (k ≡ j))
          → patched_value t'
              (ite dd
                ((get_type_operations t).patch (Maps.get string_discrete k d) cs)
                (Maps.get string_discrete j d))
              (Maps.get string_discrete j changes)
            ≡ patched_value t'
                (Maps.get string_discrete j d)
                (ite dd (some cs) (Maps.get string_discrete j changes))
      step t e j t' e' (no n) = refl
      step t e j t' e' (yes p) =
          let last : Maps.get string_discrete j changes ≡ none =
            subst (λ i. Maps.get string_discrete i changes ≡ none) p u.0 in
          let v = (get_type_operations t).patch (Maps.get string_discrete k d) cs in
          ap (patched_value t' v) last
          ∙ ap (λ i. (get_type_operations i).patch (Maps.get string_discrete k d) cs)
              (same_type t e j t' e' p)
          ∙ ap (λ i. (get_type_operations t').patch (Maps.get string_discrete i d) cs) p

  -- Where no changes change nothing, a field without changes is as good as one with none.
  pub patched_value-changes :
      (t : ValueType)
      → ((x : Option V) → (get_type_operations t).patch x [] ≡ x)
      → (x : Option V) (o : Option (List C))
      → patched_value t x o ≡ (get_type_operations t).patch x (elim o [ none ↦ [] | some cs ↦ cs ])
  patched_value-changes t nothing x none = sym (nothing x)
  patched_value-changes t nothing x (some cs) = refl
