-- ===== src/Objects/MapType/Entries.antt =====
-- cfds/base/types/map-type.ts: the loops of the operations of maps, entry by entry.
use ovvio.Base.{
  Bool, true, false, Option, none, some, [], ◌∷◌, ◌≡◌, refl, same, is_some, if◌then◌else◌, arith,
}
use mathlib.Core.Logic.{ite}
use ovvio.Base.Maps
use ovvio.Base.Maps.{Map, HasUniqueKeys, put-HasUniqueKeys}
use ovvio.Objects.MapType.{put_all, is_value, delete_all, deleted, change_of, changed, inserted}

module _ {K V : Type 0} (key_dec : Discrete K) (dec : Discrete V) where
  pub get-put_all :
      (j : K) (cur value : Map K V)
      → HasUniqueKeys key_dec value
      → Maps.get key_dec j (put_all key_dec dec cur value)
        ≡ (elim (Maps.get key_dec j value) [ none ↦ Maps.get key_dec j cur | some v ↦ some v ])
  unfolding put_all Maps.get
  get-put_all j cur [] u = refl
  get-put_all j cur ((k, v) ∷ value) u =
      let rest = get-put_all j (Maps.put key_dec k v cur) value u.1 in
      let here = Maps.get-put key_dec k j v cur in ground (arith, u.0)

  pub get-delete_all :
      (j : K) (cur value : Map K V)
      → HasUniqueKeys key_dec value
      → Maps.get key_dec j (delete_all key_dec dec cur value) ≡ (elim (Maps.get key_dec j value) [
        | none ↦ Maps.get key_dec j cur
        | some v ↦
            if is_value key_dec dec (Maps.get key_dec j cur) v then none else Maps.get key_dec j cur
      ])
  unfolding delete_all Maps.get
  get-delete_all j cur [] u = refl
  get-delete_all j cur ((k, v) ∷ value) u =
      let next =
        if is_value key_dec dec (Maps.get key_dec k cur) v
        then Maps.remove key_dec k cur
        else cur in
      let rest = get-delete_all j next value u.1 in
      let here = Maps.get-remove key_dec k j cur in ground (arith, u.0)

  pub get-deleted :
      (j : K) (map1 map2 result : Map K V)
      → HasUniqueKeys key_dec map1
      → Maps.get key_dec j (deleted key_dec dec map1 map2 result)
        ≡ (elim (Maps.get key_dec j map1) [
          | none ↦ Maps.get key_dec j result
          | some v ↦ if is_some (Maps.get key_dec j map2) then Maps.get key_dec j result else some v
        ])
  unfolding deleted Maps.get
  get-deleted j [] map2 result u = refl
  get-deleted j ((k, v) ∷ map1) map2 result u =
      let next =
        if is_some (Maps.get key_dec k map2) then result else Maps.put key_dec k v result in
      let rest = get-deleted j map1 map2 next u.1 in
      let here = Maps.get-put key_dec k j v result in ground (arith, u.0)

  pub get-inserted :
      (j : K) (map1 map2 result : Map K V)
      → HasUniqueKeys key_dec map2
      → Maps.get key_dec j (inserted key_dec dec map1 map2 result)
        ≡ (elim (Maps.get key_dec j map2) [
          | none ↦ Maps.get key_dec j result
          | some v ↦ if is_some (Maps.get key_dec j map1) then Maps.get key_dec j result else some v
        ])
  unfolding inserted Maps.get
  get-inserted j map1 [] result u = refl
  get-inserted j map1 ((k, v) ∷ map2) result u =
      let next =
        if is_some (Maps.get key_dec k map1) then result else Maps.put key_dec k v result in
      let rest = get-inserted j map1 map2 next u.1 in
      let here = Maps.get-put key_dec k j v result in ground (arith, u.0)

  get-change_of :
      (j k : K) (v : V) (o : Option V) (result : Map K V)
      → Maps.get key_dec j (change_of key_dec dec v o result k)
        ≡ ite
            (key_dec k j)
            (elim o [
              | none ↦ Maps.get key_dec j result
              | some value2 ↦ if same dec v value2 then Maps.get key_dec j result else some value2
            ])
            (Maps.get key_dec j result)
  get-change_of j k v none result = ground arith
  get-change_of j k v (some value2) result =
      let here = Maps.get-put key_dec k j value2 result in ground arith

  pub get-changed :
      (j : K) (map1 map2 result : Map K V)
      → HasUniqueKeys key_dec map1
      → Maps.get key_dec j (changed key_dec dec map1 map2 result)
        ≡ (elim (Maps.get key_dec j map1) [
          | none ↦ Maps.get key_dec j result
          | some v ↦ elim (Maps.get key_dec j map2) [
            | none ↦ Maps.get key_dec j result
            | some value2 ↦ if same dec v value2 then Maps.get key_dec j result else some value2
          ]
        ])
  unfolding changed Maps.get
  get-changed j [] map2 result u = refl
  get-changed j ((k, v) ∷ map1) map2 result u =
      let next = change_of key_dec dec v (Maps.get key_dec k map2) result k in
      let rest = get-changed j map1 map2 next u.1 in
      let here = get-change_of j k v (Maps.get key_dec k map2) result in ground (arith, u.0)

  put_if-HasUniqueKeys :
      (b : Bool) (k : K) (v : V) (m : Map K V)
      → HasUniqueKeys key_dec m
      → HasUniqueKeys key_dec (if b then m else Maps.put key_dec k v m)
  put_if-HasUniqueKeys true k v m u = u
  put_if-HasUniqueKeys false k v m u = put-HasUniqueKeys key_dec k v m u

  pub deleted-HasUniqueKeys :
      (map1 map2 result : Map K V)
      → HasUniqueKeys key_dec result
      → HasUniqueKeys key_dec (deleted key_dec dec map1 map2 result)
  unfolding deleted
  deleted-HasUniqueKeys [] map2 result u = u
  deleted-HasUniqueKeys ((k, v) ∷ map1) map2 result u =
      deleted-HasUniqueKeys map1 map2
        (if is_some (Maps.get key_dec k map2) then result else Maps.put key_dec k v result)
        (put_if-HasUniqueKeys (is_some (Maps.get key_dec k map2)) k v result u)

  pub inserted-HasUniqueKeys :
      (map1 map2 result : Map K V)
      → HasUniqueKeys key_dec result
      → HasUniqueKeys key_dec (inserted key_dec dec map1 map2 result)
  unfolding inserted
  inserted-HasUniqueKeys map1 [] result u = u
  inserted-HasUniqueKeys map1 ((k, v) ∷ map2) result u =
      inserted-HasUniqueKeys map1 map2
        (if is_some (Maps.get key_dec k map1) then result else Maps.put key_dec k v result)
        (put_if-HasUniqueKeys (is_some (Maps.get key_dec k map1)) k v result u)

  change_of-HasUniqueKeys :
      (v : V) (o : Option V) (result : Map K V) (k : K)
      → HasUniqueKeys key_dec result
      → HasUniqueKeys key_dec (change_of key_dec dec v o result k)
  change_of-HasUniqueKeys v none result k u = u
  change_of-HasUniqueKeys v (some value2) result k u =
      put_if-HasUniqueKeys (same dec v value2) k value2 result u

  pub changed-HasUniqueKeys :
      (map1 map2 result : Map K V)
      → HasUniqueKeys key_dec result
      → HasUniqueKeys key_dec (changed key_dec dec map1 map2 result)
  unfolding changed
  changed-HasUniqueKeys [] map2 result u = u
  changed-HasUniqueKeys ((k, v) ∷ map1) map2 result u =
      changed-HasUniqueKeys map1 map2 (change_of key_dec dec v (Maps.get key_dec k map2) result k)
        (change_of-HasUniqueKeys v (Maps.get key_dec k map2) result k u)
