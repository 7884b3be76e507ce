-- ===== src/Objects/MapType/Laws.antt =====
-- cfds/base/types/map-type.ts: the operations of maps keep the laws of a type.
use ovvio.Base.{
  suc, Bool, false, none, some, [], ◌∷◌, ◌≡◌, refl, sym, ap, if◌then◌else◌, ◌==◌, length, arith,
}
use ovvio.Base.Maps
use ovvio.Base.Maps.{Map, HasUniqueKeys}
use ovvio.Objects.{ValueType}
use ovvio.Objects.Changes.{listed}
use ovvio.Objects.Fields.{patch_with-append}
use ovvio.Objects.Laws.{IsOperations, Agrees}
use ovvio.Objects.MapType.{
  put_all, delete_all, patch_insert, patch_delete, deleted, changed, inserted, patch, both,
  value_changed_diff, map_operations,
}
use ovvio.Objects.MapType.Entries.{
  get-put_all, get-delete_all, get-deleted, get-inserted, get-changed, deleted-HasUniqueKeys,
  inserted-HasUniqueKeys, changed-HasUniqueKeys,
}

module _ {K V : Type 0} (key_dec : Discrete K) where
  -- Maps with the same values.
  abbrev pub SameEntries : Map K V → Map K V → Type 0
  SameEntries m n = (k : K) → Maps.get key_dec k m ≡ Maps.get key_dec k n

  -- A map that is not empty, each key there once.
  abbrev pub IsFull : Map K V → Type 0
  IsFull m = HasUniqueKeys key_dec m × ((length m == 0) ≡ false)

  entries_none : (m : Map K V) → ((k : K) → Maps.get key_dec k m ≡ none) → m ≡ []
  entries_none [] h = refl
  entries_none ((k, v) ∷ m) h = absurd (let e = h k in let e' = Maps.get_head key_dec k v m in cc)

  left_or_none :
      (m w : Map K V)
      → SameEntries m w
      → (length w == 0) ≡ false
      → Agrees SameEntries (if length m == 0 then none else some m) (some w)
  unfolding Maps.get
  left_or_none [] w same_entries h =
      absurd (let e = entries_none w (λ k. sym (same_entries k)) in ground (arith, ap length e))
  left_or_none (x ∷ m) w same_entries h =
      let more : (suc (length m) == 0) ≡ false = ground arith in rw more same_entries

module _ {K V : Type 0} (R : Type 0) (key_dec : Discrete K) (dec : Discrete V)
    (type : ValueType) where
  -- What the insertions and the deletions between two maps do to a third that was the first.
  Between : Map K V → Map K V → Map K V → Map K V → Type 0
  Between v w ins del =
      (k : K)
      → Maps.get key_dec k (delete_all key_dec dec (put_all key_dec dec v ins) del)
        ≡ Maps.get key_dec k w

  between :
      (v w : Map K V)
      → HasUniqueKeys key_dec v
      → HasUniqueKeys key_dec w
      → Between v w
          (inserted key_dec dec v w (changed key_dec dec v w []))
          (deleted key_dec dec v w [])
  unfolding Between Maps.get
  between v w uv uw k =
      let cs = changed key_dec dec v w [] in
      let ins = inserted key_dec dec v w cs in
      let del = deleted key_dec dec v w [] in
      let a =
        get-put_all key_dec dec k v ins (
          inserted-HasUniqueKeys key_dec dec v w cs
            (changed-HasUniqueKeys key_dec dec v w [] tt)) in
      let b =
        get-delete_all key_dec dec k (put_all key_dec dec v ins) del
          (deleted-HasUniqueKeys key_dec dec v w [] tt) in
      let c = get-changed key_dec dec k v w [] uv in
      let d = get-inserted key_dec dec k v w cs uw in
      let e = get-deleted key_dec dec k v w [] uv in ground arith

  both-Agrees :
      (v w ins del : Map K V)
      → ((length w == 0) ≡ false)
      → Between v w ins del
      → Agrees
          (SameEntries key_dec)
          (patch {R = R} key_dec dec type (some v) (listed (both key_dec dec type ins del)))
          (some w)
  unfolding patch patch_insert patch_delete put_all delete_all Between
  both-Agrees v w [] [] h go = go
  both-Agrees v w (x ∷ ins) [] h go = go
  both-Agrees v w [] (y ∷ del) h go = left_or_none key_dec _ w go h
  both-Agrees v w (x ∷ ins) (y ∷ del) h go = left_or_none key_dec _ w go h

module _ {K V R : Type 0} (key_dec : Discrete K) (dec : Discrete V) (type : ValueType) where
  -- Maps that are not empty have the same entries behind a patch with their difference.
  pub map_operations-IsOperations :
      (equals : Map K V → Map K V → Bool)
      → IsOperations
          (map_operations {R = R} key_dec dec type equals)
          (IsFull key_dec)
          (SameEntries key_dec)
  unfolding map_operations patch patch_insert patch_delete value_changed_diff Maps.get
  map_operations-IsOperations equals = record {
    nothing = λ x. refl;
    joined =
        λ x cs ds. patch_with-append (patch_insert key_dec dec) (patch_delete key_dec dec) x cs ds;
    added = λ w h k. let e = get-put_all key_dec dec k [] w h.0 in ground arith;
    removed = λ v h.
        let none_left : delete_all key_dec dec v v ≡ [] =
          entries_none key_dec (delete_all key_dec dec v v)
            (λ k. let e = get-delete_all key_dec dec k v v h.0 in ground arith) in
        rw none_left refl;
    changed = λ v w h k.
        both-Agrees R key_dec dec type v w (inserted key_dec dec v w (changed key_dec dec v w []))
          (deleted key_dec dec v w []) k.1 (between R key_dec dec type v w h.0 k.0);
  }
