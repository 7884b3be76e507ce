-- ===== src/Objects/Changes.antt =====
-- cfds/base/object.ts: what the changes of a record hold of each field.
use ovvio.Base.{
  true, Option, none, some, List, [], ◌∷◌, ◌++◌, ◌≡◌, refl, sym, ap, ◌∙◌, subst, is_some, arith,
}
use mathlib.Core.List.{append_assoc, append-nil}
use mathlib.Core.Logic.{ite, if_pos, if_neg}
use ovvio.Base.Text.{JsString, string_discrete}
use ovvio.Base.Maps
use ovvio.Base.Maps.{Map, HasUniqueKeys, put-HasUniqueKeys}
use ovvio.Objects.{FieldChanges, DataChanges, changes_at, push_all, add_from, concat_changes}

-- A field of a map that has it.
abbrev pub IsField : {V : Type 0} → Map JsString V → JsString → Type 0
IsField fields key = is_some (Maps.get string_discrete key fields) ≡ true

module _ {C : Type 0} where
  -- The changes as a list.
  abbrev pub listed : FieldChanges C → List C
  listed FieldChanges.undefined = []
  listed (FieldChanges.one c) = c ∷ []
  listed (FieldChanges.many cs) = cs

  -- Where a map of changes agrees with lists of changes, and what its keys are among.
  pub record Holds (changes : DataChanges C) (at : JsString → List C) (P : JsString → Type 0)
      : Type 0 where
    pub unique : HasUniqueKeys string_discrete changes
    pub holds : (j : JsString) → changes_at j changes ≡ at j
    pub among : (j : JsString) → IsField changes j → P j

  pub put-Holds :
      (changes : DataChanges C) (at : JsString → List C) (P : JsString → Type 0) (k : JsString)
      (cs : List C)
      → P k
      → Holds changes at P
      → Holds
          (Maps.put string_discrete k (changes_at k changes ++ cs) changes)
          (λ j. ite (string_discrete k j) (at j ++ cs) (at j))
          P
  put-Holds changes at P k cs in_p h = record {
    unique = put-HasUniqueKeys string_discrete k _ changes h.unique;
    holds = λ j.
        let old = h.holds j in
        elim (string_discrete k j) [
          | yes same_key ↦ rw (if_pos _ same_key) (
              subst
                (λ i.
                  changes_at i (Maps.put string_discrete k (changes_at k changes ++ cs) changes)
                  ≡ at i ++ cs)
                same_key
                (ap (λ o. elim o [ none ↦ [] | some l ↦ l ])
                    (Maps.get-put_self string_discrete k (changes_at k changes ++ cs) changes)
                  ∙ ap (λ l. l ++ cs) (h.holds k)))
          | no other ↦ rw (if_neg _ other) (
              ap (λ o. elim o [ none ↦ [] | some l ↦ l ])
                (Maps.get-put_ne string_discrete k j (changes_at k changes ++ cs) changes other)
              ∙ old)
        ];
    among = λ j is_key. elim (string_discrete k j) [
      | yes same_key ↦ subst P same_key in_p
      | no other ↦ h.among j (
          ap is_some
            (sym (Maps.get-put_ne string_discrete k j (changes_at k changes ++ cs) changes other))
          ∙ is_key)
    ];
  }

  pub weaken :
      (changes : DataChanges C) (at to : JsString → List C) (P : JsString → Type 0)
      → ((j : JsString) → at j ≡ to j)
      → Holds changes at P
      → Holds changes to P
  weaken changes at to P e h = record {
    unique = h.unique;
    holds = λ j. h.holds j ∙ e j;
    among = h.among;
  }

  -- Lists that a decision adds to.
  pub add_none : {P : Type 0} (d : Dec P) (l : List C) → l ≡ ite d (l ++ []) l
  add_none (yes p) l = sym (append-nil l)
  add_none (no n) l = refl

  add_twice :
      {P : Type 0} (d : Dec P) (l cs ds : List C)
      → ite d (ite d (l ++ cs) l ++ ds) (ite d (l ++ cs) l) ≡ ite d (l ++ (cs ++ ds)) l
  add_twice (yes p) l cs ds = append_assoc l cs ds
  add_twice (no n) l cs ds = refl

  add_found :
      {P : Type 0} (d : Dec P) (l cs : List C) (o : Option (List C))
      → (P → o ≡ none)
      → ite d (l ++ cs) l ++ (elim o [ none ↦ [] | some ds ↦ ds ])
        ≡ l ++ (elim (ite d (some cs) o) [ none ↦ [] | some ds ↦ ds ])
  add_found (yes p) l cs o h = rw (h p) (append-nil (l ++ cs))
  add_found (no n) l cs o h = refl

  pub push_all-Holds :
      (changes : DataChanges C) (at : JsString → List C) (P : JsString → Type 0) (k : JsString)
      (cs : List C)
      → P k
      → Holds changes at P
      → Holds (push_all changes k cs) (λ j. ite (string_discrete k j) (at j ++ cs) (at j)) P
  unfolding push_all
  push_all-Holds changes at P k [] in_p h =
      weaken changes at _ P (λ j. add_none (string_discrete k j) (at j)) h
  push_all-Holds changes at P k (c ∷ cs) in_p h =
      let next = put-Holds changes at P k (c ∷ []) in_p h in
      weaken _ _ _ P (λ j. add_twice (string_discrete k j) (at j) (c ∷ []) cs)
        (push_all-Holds (Maps.put string_discrete k (changes_at k changes ++ c ∷ []) changes)
          (λ j. ite (string_discrete k j) (at j ++ c ∷ []) (at j)) P k cs in_p next)

  later :
      (k j : JsString) (cs : List C) (from : DataChanges C)
      → IsField from j
      → IsField ((k, cs) ∷ from) j
  unfolding Maps.get
  later k j cs from is_key = ground (arith, is_key)

  pub add_from-Holds :
      (changes from : DataChanges C) (at : JsString → List C) (P : JsString → Type 0)
      → ((j : JsString) → IsField from j → P j)
      → HasUniqueKeys string_discrete from
      → Holds changes at P
      → Holds (add_from changes from) (λ j. at j ++ changes_at j from) P
  unfolding add_from Maps.get
  add_from-Holds changes [] at P in_p u h = weaken changes at _ P (λ j. sym (append-nil (at j))) h
  add_from-Holds changes ((k, cs) ∷ from) at P in_p u h =
      weaken _ _ _ P
        (λ j.
          add_found (string_discrete k j) (at j) cs (Maps.get string_discrete j from)
            (λ same_key. subst (λ i. Maps.get string_discrete i from ≡ none) same_key u.0))
        (add_from-Holds (Maps.put string_discrete k (changes_at k changes ++ cs) changes) from
          (λ j. ite (string_discrete k j) (at j ++ cs) (at j)) P
          (λ j is_key. in_p j (later k j cs from is_key)) u.1
          (put-Holds changes at P k cs
            (in_p k (ap is_some (Maps.get_head string_discrete k cs from))) h))

  -- The changes of both maps, a field's first ones before its second ones.
  pub concat_changes-Holds :
      (changes1 changes2 : DataChanges C) (P : JsString → Type 0)
      → ((j : JsString) → IsField changes1 j → P j)
      → ((j : JsString) → IsField changes2 j → P j)
      → HasUniqueKeys string_discrete changes1
      → HasUniqueKeys string_discrete changes2
      → Holds
          (concat_changes changes1 changes2)
          (λ j. changes_at j changes1 ++ changes_at j changes2)
          P
  unfolding concat_changes Maps.get
  concat_changes-Holds changes1 changes2 P in1 in2 u1 u2 =
      add_from-Holds (add_from [] changes1) changes2 (λ j. changes_at j changes1) P in2 u2
        (add_from-Holds [] changes1 (λ j. []) P in1 u1
          (record { unique = tt; holds = λ j. refl; among = λ j is_key. absurd (cc) }))
