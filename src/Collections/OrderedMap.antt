-- ===== src/Collections/OrderedMap.antt =====
-- base/collections/orderedmap.ts: the classes `Link` and `OrderedMap`, a doubly linked list over a
-- store of links, beside a map from the keys to the links. `none` is a failed assertion.
pub mod Segment
pub mod Splice
pub mod Ring
pub mod Attach
pub mod Ready
pub mod Contents
pub mod Refinement
pub mod Moves
pub mod Adds
pub mod Deletes
pub mod Iterator
use ovvio.Base.{
  ℕ, zero, suc, ◌+◌, Bool, true, false, not, ◌&&◌, Option, none, some, List, [], ◌∷◌, ◌==◌,
  if◌then◌else◌, length, is_some,
}
use ovvio.Base.Maps
use ovvio.Base.Maps.{Map}

-- A field of the links, by their numbers, and its assignment.
abbrev pub Field : Type 0 → Type 0
Field A = ℕ → Option A

abbrev pub assign : {A : Type 0} → Field A → ℕ → Option A → Field A
assign f x v y = if x == y then v else f y

-- The assignment to a link that may be undefined.
abbrev pub assign_at : {A : Type 0} → Field A → Option ℕ → Option A → Field A
assign_at f none v = f
assign_at f (some x) v = assign f x v

-- Links 0 and 1 are the head and the tail; the numbers from `fresh` on are not in use.
abbrev pub head : ℕ
head = 0

abbrev pub tail : ℕ
tail = 1

pub record OrderedMap (K V : Type 0) : Type 0 where
  pub map : Map K ℕ
  pub next : Field ℕ
  pub prev : Field ℕ
  pub key : Field K
  pub value : Field V
  pub fresh : ℕ
  pub mutations_count : ℕ

abbrev points_to : Option ℕ → ℕ → Bool
points_to none x = false
points_to (some y) x = y == x

module _ {K V : Type 0} where
  abbrev pub empty : OrderedMap K V
  empty = record {
    map = [];
    next = λ x. if x == head then some tail else none;
    prev = λ x. if x == tail then some head else none;
    key = λ x. none;
    value = λ x. none;
    fresh = 2;
    mutations_count = 0;
  }

  -- `_validateLinks`
  unfoldable pub valid_links : OrderedMap K V → ℕ → Bool
  valid_links s x =
      elim (s.next x) [ none ↦ true | some n ↦ points_to (s.prev n) x ]
      && elim (s.prev x) [ none ↦ true | some p ↦ points_to (s.next p) x ]

  -- The assignments of `detach`.
  unfoldable pub unlink : OrderedMap K V → ℕ → OrderedMap K V
  unlink s x =
      let p = assign_at s.prev (s.next x) (s.prev x) in
      let n = assign_at s.next (p x) (s.next x) in
      record s { next = assign n x none; prev = assign p x none }

  unfoldable pub detach : OrderedMap K V → ℕ → Option (OrderedMap K V)
  unfolding valid_links unlink
  detach s x = if valid_links s x then some (unlink s x) else none

  -- `this.insertAfter(next)`, behind `next.detach()`.
  unfoldable pub link_after : OrderedMap K V → ℕ → ℕ → OrderedMap K V
  link_after s this next =
      let p = assign s.prev next (some this) in
      let n = assign s.next next (s.next this) in
      let p' = assign_at p (n this) (some next) in
      record s { next = assign n this (some next); prev = p' }

  unfoldable pub link_before : OrderedMap K V → ℕ → ℕ → OrderedMap K V
  link_before s this prev =
      let n = assign s.next prev (some this) in
      let p = assign s.prev prev (s.prev this) in
      let n' = assign_at n (p this) (some prev) in
      record s { next = n'; prev = assign p this (some prev) }

  abbrev all_valid : OrderedMap K V → ℕ → ℕ → Bool
  all_valid s this x = valid_links s this && valid_links s x

  unfoldable pub insert_after : OrderedMap K V → ℕ → ℕ → Option (OrderedMap K V)
  unfolding detach link_after
  insert_after s this next = if next == this then none else elim (detach s next) [
    | none ↦ none
    | some s' ↦
        let t = link_after s' this next in
        if all_valid t this next && elim (t.prev next) [ none ↦ false | some q ↦ valid_links t q ]
        then some t
        else none
  ]

  unfoldable pub insert_before : OrderedMap K V → ℕ → ℕ → Option (OrderedMap K V)
  unfolding detach link_before
  insert_before s this prev = if prev == this then none else elim (detach s prev) [
    | none ↦ none
    | some s' ↦
        let t = link_before s' this prev in
        if all_valid t this prev && elim (t.next prev) [ none ↦ false | some q ↦ valid_links t q ]
        then some t
        else none
  ]

  -- The number of links from one on; `none` where it does not end within the fuel.
  unfoldable pub count_links : ℕ → OrderedMap K V → ℕ → Option ℕ
  count_links zero s x = none
  count_links (suc fuel) s x = elim (s.next x) [
    | none ↦ some 1
    | some y ↦ elim (count_links fuel s y) [ none ↦ none | some n ↦ some (suc n) ]
  ]

  -- `assert(head.length === map.size + 2)`
  unfoldable pub checked : OrderedMap K V → Option (OrderedMap K V)
  unfolding count_links
  checked s = elim (count_links (s.fresh + 1) s head) [
    | none ↦ none
    | some n ↦ if n == length s.map + 2 then some s else none
  ]

  unfoldable pub size : OrderedMap K V → ℕ
  size s = length s.map

  unfoldable pub start_key : OrderedMap K V → Option K
  start_key s = elim (s.next head) [ none ↦ none | some x ↦ s.key x ]

  unfoldable pub end_key : OrderedMap K V → Option K
  end_key s = elim (s.prev tail) [ none ↦ none | some x ↦ s.key x ]

  -- `clear` leaves the count of mutations.
  unfoldable pub clear : OrderedMap K V → OrderedMap K V
  clear s = record s {
    map = [];
    next = assign s.next head (some tail);
    prev = assign s.prev tail (some head);
  }

  abbrev moved : OrderedMap K V → OrderedMap K V
  moved s = record s { mutations_count = suc s.mutations_count }

module _ {K V : Type 0} (dec : Discrete K) where
  -- `_addImpl`: the link of the key, which is new if it has to be.
  unfoldable pub add_impl : OrderedMap K V → K → Option (OrderedMap K V × ℕ)
  unfolding insert_before checked
  add_impl s k = elim (Maps.get dec k s.map) [
    | some x ↦ some (s, x)
    | none ↦
        let x = s.fresh in
        let new : OrderedMap K V = record s { key = assign s.key x (some k); fresh = suc x } in
        elim (insert_before new tail x) [
          | none ↦ none
          | some t ↦
              elim (checked (record t {
                map = Maps.put dec k x t.map;
                mutations_count = suc t.mutations_count;
              })) [ none ↦ none | some u ↦ some (u, x) ]
        ]
  ]

  unfoldable pub set : OrderedMap K V → K → V → Option (OrderedMap K V)
  unfolding add_impl
  set s k v = elim (add_impl s k) [
    | none ↦ none
    | some (t, x) ↦ some (record t { value = assign t.value x (some v) })
  ]

  unfoldable pub move_to_end : OrderedMap K V → K → Option (OrderedMap K V)
  unfolding insert_before checked
  move_to_end s k = elim (Maps.get dec k s.map) [
    | none ↦ some s
    | some x ↦ elim (insert_before s tail x) [ none ↦ none | some t ↦ checked (moved t) ]
  ]

  unfoldable pub move_to_start : OrderedMap K V → K → Option (OrderedMap K V)
  unfolding insert_after checked
  move_to_start s k = elim (Maps.get dec k s.map) [
    | none ↦ some s
    | some x ↦ elim (insert_after s head x) [ none ↦ none | some t ↦ checked (moved t) ]
  ]

  unfoldable pub delete : OrderedMap K V → K → Option (OrderedMap K V × Bool)
  unfolding detach checked
  delete s k = elim (Maps.get dec k s.map) [
    | none ↦ some (s, false)
    | some x ↦ elim (detach s x) [
      | none ↦ none
      | some t ↦ elim (checked (moved (record t { map = Maps.remove dec k t.map }))) [
        | none ↦ none
        | some u ↦ some (u, true)
      ]
    ]
  ]

  unfoldable pub get : OrderedMap K V → K → Option V
  get s k = elim (Maps.get dec k s.map) [ none ↦ none | some x ↦ s.value x ]

  unfoldable pub has : OrderedMap K V → K → Bool
  has s k = is_some (Maps.get dec k s.map)

  -- The keys behind and before a key.
  unfoldable pub next_key : OrderedMap K V → K → Option K
  next_key s k = elim (Maps.get dec k s.map) [
    | none ↦ none
    | some x ↦ elim (s.next x) [ none ↦ none | some y ↦ if y == tail then none else s.key y ]
  ]

  unfoldable pub prev_key : OrderedMap K V → K → Option K
  prev_key s k = elim (Maps.get dec k s.map) [
    | none ↦ none
    | some x ↦ elim (s.prev x) [ none ↦ none | some y ↦ if y == head then none else s.key y ]
  ]
