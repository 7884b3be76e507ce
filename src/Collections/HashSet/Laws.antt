-- ===== src/Collections/HashSet/Laws.antt =====
-- base/collections/hash-map.ts: `HashSet` is a set up to the equality that it is built with.
use ovvio.Base.{
  ◌≡◌, ◌≢◌, refl, subst, inl, inr, Bool, true, not, ◌||◌, ◌&&◌, List, [], ◌∷◌, ◌++◌, some, arith,
  is_some, Bool-cases, Option-cases, length, ◌==◌, All, All-append,
}
use ovvio.Base.Maps
use ovvio.Base.Maps.{Map}
use ovvio.Base.Text.{JsString, string_discrete}
use ovvio.Collections.HashSet.{HashSet, no_clone, empty, find, bucket, has, add, delete}
use ovvio.Collections.HashSet.Bucket.{
  IsEquality, IsDistinct, find_congr, find-append, IsDistinct-append, splice_cases, All-splice,
}

module _ {V : Type 0} (hash : V → JsString) (eq : V → V → Bool) where
  -- What the constructor asks of its functions: equal values have equal hashes.
  pub record IsHashing : Type 0 where
    pub laws : IsEquality eq
    pub hash_eq : (a b : V) → eq a b ≡ true → hash a ≡ hash b

  -- The buckets hold values that differ and have the bucket's hash, and none is empty.
  pub record IsValid (s : HashSet V) : Type 0 where
    pub distinct :
        (k : JsString) (values : List V)
        → Maps.get string_discrete k s.buckets ≡ some values
        → IsDistinct eq values
    pub filled :
        (k : JsString) (values : List V)
        → Maps.get string_discrete k s.buckets ≡ some values
        → values ≢ []
    pub hashed :
        (k : JsString) (values : List V)
        → Maps.get string_discrete k s.buckets ≡ some values
        → All (λ c. hash c ≡ k) values

  pub empty-IsValid : IsValid empty
  unfolding Maps.get
  empty-IsValid = record {
    distinct = λ k values h. cc;
    filled = λ k values h. cc;
    hashed = λ k values h. absurd (cc);
  }

  append-ne-nil : (xs : List V) (v : V) → (xs ++ v ∷ []) ≢ []
  append-ne-nil [] v e = cc
  append-ne-nil (x ∷ xs) v e = cc

  put-IsValid :
      (s : HashSet V) (k : JsString) (new : List V)
      → IsDistinct eq new
      → new ≢ []
      → All (λ c. hash c ≡ k) new
      → IsValid s
      → IsValid (record { buckets = Maps.put string_discrete k new s.buckets })
  put-IsValid s k new d n h valid = record {
    distinct = λ j values at.
        ground (arith, Maps.get-put string_discrete k j new s.buckets, valid.distinct j values);
    filled = λ j values at.
        ground (arith, Maps.get-put string_discrete k j new s.buckets, valid.filled j values);
    hashed = λ j values at. elim (string_discrete k j) [
      | yes e ↦
          let new_values : new ≡ values =
            ground (arith, Maps.get-put string_discrete k j new s.buckets) in
          subst (λ xs. All (λ c. hash c ≡ j) xs) new_values
            (subst (λ key. All (λ c. hash c ≡ key) new) e h)
      | no e ↦
          valid.hashed j values (ground (arith, Maps.get-put string_discrete k j new s.buckets))
    ];
  }

  remove-IsValid :
      (s : HashSet V) (k : JsString)
      → IsValid s
      → IsValid (record { buckets = Maps.remove string_discrete k s.buckets })
  remove-IsValid s k valid = record {
    distinct = λ j values at.
        ground (arith, Maps.get-remove string_discrete k j s.buckets, valid.distinct j values);
    filled = λ j values at.
        ground (arith, Maps.get-remove string_discrete k j s.buckets, valid.filled j values);
    hashed = λ j values at.
        valid.hashed j values (ground (arith, Maps.get-remove string_discrete k j s.buckets));
  }

  module _ (ok : IsHashing) (s : HashSet V) (v : V) where
    -- `add` answers whether the value is new.
    pub add_answer : (add hash eq no_clone s v).1 ≡ not (has hash eq no_clone s v)
    unfolding add has
    add_answer = ground arith

    -- Behind `add` the set has the value, and whatever it had before.
    pub has-add :
        (w : V)
        → has hash eq no_clone (add hash eq no_clone s v).0 w ≡ (eq v w || has hash eq no_clone s w)
    unfolding add has find
    has-add w = elim (Option-cases (bucket hash eq no_clone s v)) [
      | inl fresh ↦ ground (
        arith,
        Maps.get-put string_discrete (hash v) (hash w) (v ∷ []) s.buckets,
        find-append eq ok.laws v w [],
        ok.hash_eq v w,
      )
      | inr (values, at) ↦ ground (
        arith,
        Maps.get-put string_discrete (hash v) (hash w) (values ++ v ∷ []) s.buckets,
        find-append eq ok.laws v w values,
        find_congr eq ok.laws v w values,
        ok.hash_eq v w,
      )
    ]

    pub add-IsValid : IsValid s → IsValid (add hash eq no_clone s v).0
    unfolding add
    add-IsValid valid = elim (Option-cases (bucket hash eq no_clone s v)) [
      | inl fresh ↦
          rw (fresh, add) (put-IsValid s (hash v) (v ∷ []) (tt, tt) (λ e. cc) (refl, tt) valid)
      | inr (old, at) ↦ elim (Bool-cases (is_some (find eq v old))) [
        | inl known ↦ rw (at, add, known) valid
        | inr new ↦
            rw (at, add, new)
              (put-IsValid s (hash v) (old ++ v ∷ [])
                (IsDistinct-append eq ok.laws v old (valid.distinct (hash v) old at) new)
                (append-ne-nil old v)
                (All-append (λ c. hash c ≡ hash v) old (v ∷ []) (valid.hashed (hash v) old at)
                  (refl, tt))
                valid)
      ]
    ]

    -- `delete` answers whether the value was there.
    pub delete_answer : IsValid s → (delete hash eq no_clone s v).1 ≡ has hash eq no_clone s v
    unfolding delete has
    delete_answer valid = elim (Option-cases (bucket hash eq no_clone s v)) [
      | inl absent ↦ ground arith
      | inr (values, at) ↦
          ground (arith, splice_cases eq ok.laws v values (valid.distinct (hash v) values at))
    ]

    -- Behind `delete` the set has what it had before, but no value equal to the deleted one.
    pub has-delete :
        (w : V)
        → IsValid s
        → has hash eq no_clone (delete hash eq no_clone s v).0 w
          ≡ (not (eq v w) && has hash eq no_clone s w)
    unfolding delete has find
    has-delete w valid = elim (Option-cases (bucket hash eq no_clone s v)) [
      | inl absent ↦ ground (arith, ok.hash_eq v w)
      | inr (values, at) ↦
          elim (splice_cases eq ok.laws v values (valid.distinct (hash v) values at)) [
            | inl (miss, none_equal) ↦
                ground (arith, ok.hash_eq v w, find_congr eq ok.laws w v values, ok.laws.eq_sym v w)
            | inr (rest, e, found, len, d, keep, look) ↦ ground (
              arith,
              ok.hash_eq v w,
              look w,
              Maps.get-put string_discrete (hash v) (hash w) rest s.buckets,
              Maps.get-remove string_discrete (hash v) (hash w) s.buckets,
              length_zero rest,
            )
          ]
    ]
      where
        length_zero : (xs : List V) → length xs ≡ 0 → xs ≡ []
        length_zero [] h = refl
        length_zero (x ∷ xs) h = absurd (omega arith)

    pub delete-IsValid : IsValid s → IsValid (delete hash eq no_clone s v).0
    unfolding delete
    delete-IsValid valid = elim (Option-cases (bucket hash eq no_clone s v)) [
      | inl absent ↦ rw (absent, delete) valid
      | inr (values, at) ↦
          elim (splice_cases eq ok.laws v values (valid.distinct (hash v) values at)) [
            | inl (miss, none_equal) ↦ rw (at, delete, miss) valid
            | inr (rest, e, found, len, d, keep, look) ↦ elim (Bool-cases (length values == 1)) [
              | inl one ↦ rw (at, delete, e, one) (remove-IsValid s (hash v) valid)
              | inr more ↦
                  rw (at, delete, e, more)
                    (put-IsValid s (hash v) rest d (λ nil. ground arith)
                      (All-splice eq (λ c. hash c ≡ hash v) v values rest e
                        (valid.hashed (hash v) values at))
                      valid)
            ]
          ]
    ]
