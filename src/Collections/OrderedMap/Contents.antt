-- ===== src/Collections/OrderedMap/Contents.antt =====
-- base/collections/orderedmap.ts: the keys of an `OrderedMap`, in their order.
use ovvio.Base.{
  ℕ, suc, true, false, ◌||◌, none, some, List, [], ◌∷◌, ◌++◌, ◌≡◌, refl, sym, ap, ◌∙◌, subst, same,
  same_iff, length, All, arith,
}
use mathlib.Core.Logic.{if_pos, if_neg}
use ovvio.Base.Maps
use ovvio.Base.Maps.{Map, HasUniqueKeys}
use ovvio.Base.Sets
use ovvio.Collections.OrderedMap.{Field}
use ovvio.Collections.SetUtils.Equal.{NoRepeats, remove_absent}

module _ {K : Type 0} (dec : Discrete K) where
  -- The links carry the keys, and the map leads from each key to its link.
  abbrev pub Paired : Field K → Map K ℕ → List ℕ → List K → Type 0
  Paired key m [] [] = Unit
  Paired key m [] (k ∷ ks) = ⊥
  Paired key m (x ∷ xs) [] = ⊥
  Paired key m (x ∷ xs) (k ∷ ks) =
      (key x ≡ some k) × (Maps.get dec k m ≡ some x) × Paired key m xs ks

  pub add-HasUniqueKeys :
      (k : K) (v : ℕ) (m : Map K ℕ)
      → Maps.get dec k m ≡ none
      → HasUniqueKeys dec m
      → HasUniqueKeys dec (Maps.put dec k v m) × (length (Maps.put dec k v m) ≡ suc (length m))
  unfolding Maps.put Maps.get
  add-HasUniqueKeys k v [] e u = ((refl, tt), refl)
  add-HasUniqueKeys k v ((j, w) ∷ m) e u = elim (dec j k) [
    | yes same_key ↦ absurd (ground arith)
    | no other ↦
        let (rest, len) = add-HasUniqueKeys k v m (ground arith) u.1 in
        rw (if_neg _ other)
          ((ground (arith, Maps.get-put dec k j v m, u.0), rest), omega (arith, len))
  ]

  remove_unknown : (k : K) (m : Map K ℕ) → Maps.get dec k m ≡ none → Maps.remove dec k m ≡ m
  unfolding Maps.remove Maps.get
  remove_unknown k [] e = refl
  remove_unknown k ((j, w) ∷ m) e = ground (arith, remove_unknown k m)

  pub remove-HasUniqueKeys :
      (k : K) (x : ℕ) (m : Map K ℕ)
      → Maps.get dec k m ≡ some x
      → HasUniqueKeys dec m
      → HasUniqueKeys dec (Maps.remove dec k m) × (suc (length (Maps.remove dec k m)) ≡ length m)
  unfolding Maps.remove Maps.get
  remove-HasUniqueKeys k x [] e u = absurd (cc)
  remove-HasUniqueKeys k x ((j, w) ∷ m) e u = elim (dec j k) [
    | yes same_key ↦
        let gone : Maps.remove dec k m ≡ m =
          remove_unknown k m (subst (λ i. Maps.get dec i m ≡ none) same_key u.0) in
        rw (if_pos _ same_key, gone) (u.1, refl)
    | no other ↦
        let (rest, len) = remove-HasUniqueKeys k x m (ground arith) u.1 in
        rw (if_neg _ other)
          ((ground (arith, Maps.get-remove dec k j m, u.0), rest), omega (arith, len))
  ]

  pub Paired-append :
      (key : Field K) (m : Map K ℕ) (xs ys : List ℕ) (ks js : List K)
      → Paired key m xs ks
      → Paired key m ys js
      → Paired key m (xs ++ ys) (ks ++ js)
  Paired-append key m [] ys [] js p q = q
  Paired-append key m [] ys (k ∷ ks) js p q = absurd p
  Paired-append key m (x ∷ xs) ys [] js p q = absurd p
  Paired-append key m (x ∷ xs) ys (k ∷ ks) js p q =
      (p.0, p.1, Paired-append key m xs ys ks js p.2 q)

  -- Pairs stay where their keys and links keep their fields.
  pub Paired-frame :
      (key key' : Field K) (m m' : Map K ℕ) (xs : List ℕ) (ks : List K)
      → All (λ x. key' x ≡ key x) xs
      → All (λ k. Maps.get dec k m' ≡ Maps.get dec k m) ks
      → Paired key m xs ks
      → Paired key' m' xs ks
  Paired-frame key key' m m' [] [] f g p = tt
  Paired-frame key key' m m' [] (k ∷ ks) f g p = p
  Paired-frame key key' m m' (x ∷ xs) [] f g p = p
  Paired-frame key key' m m' (x ∷ xs) (k ∷ ks) f g p =
      (f.0 ∙ p.0, g.0 ∙ p.1, Paired-frame key key' m m' xs ks f.1 g.1 p.2)

  pub Paired-length :
      (key : Field K) (m : Map K ℕ) (xs : List ℕ) (ks : List K)
      → Paired key m xs ks
      → length xs ≡ length ks
  Paired-length key m [] [] p = refl
  Paired-length key m [] (k ∷ ks) p = absurd p
  Paired-length key m (x ∷ xs) [] p = absurd p
  Paired-length key m (x ∷ xs) (k ∷ ks) p = ap suc (Paired-length key m xs ks p.2)

  -- Where a key stands, with the keys before and behind it.
  pub record Place (key : Field K) (m : Map K ℕ) (xs : List ℕ) (ks : List K) (k : K) : Type 0 where
    pub link : ℕ
    pub before : List ℕ
    pub behind : List ℕ
    pub keys_before : List K
    pub keys_behind : List K
    pub links_split : xs ≡ before ++ link ∷ behind
    pub keys_split : ks ≡ keys_before ++ k ∷ keys_behind
    pub paired_before : Paired key m before keys_before
    pub paired_behind : Paired key m behind keys_behind
    pub named : key link ≡ some k
    pub found : Maps.get dec k m ≡ some link

  pub find-Place :
      (key : Field K) (m : Map K ℕ) (xs : List ℕ) (ks : List K) (k : K)
      → Paired key m xs ks
      → Sets.has dec k ks ≡ true
      → Place key m xs ks k
  unfolding Sets.has
  find-Place key m [] [] k p h = absurd (cc)
  find-Place key m [] (j ∷ ks) k p h = absurd p
  find-Place key m (x ∷ xs) [] k p h = absurd p
  find-Place key m (x ∷ xs) (j ∷ ks) k p h = elim (dec j k) [
    | yes e ↦ record {
      link = x;
      before = [];
      behind = xs;
      keys_before = [];
      keys_behind = ks;
      links_split = refl;
      keys_split = ap (λ i. i ∷ ks) e;
      paired_before = tt;
      paired_behind = p.2;
      named = subst (λ i. key x ≡ some i) e p.0;
      found = subst (λ i. Maps.get dec i m ≡ some x) e p.1;
    }
    | no n ↦
        let q = find-Place key m xs ks k p.2 (ground arith) in
        record {
          link = q.link;
          before = x ∷ q.before;
          behind = q.behind;
          keys_before = j ∷ q.keys_before;
          keys_behind = q.keys_behind;
          links_split = ap (λ l. x ∷ l) q.links_split;
          keys_split = ap (λ l. j ∷ l) q.keys_split;
          paired_before = (p.0, p.1, q.paired_before);
          paired_behind = q.paired_behind;
          named = q.named;
          found = q.found;
        }
  ]

  -- To remove a key of a set takes out its one place.
  pub remove_place :
      (k : K) (l r : List K)
      → NoRepeats dec (l ++ k ∷ r)
      → (Sets.remove dec k (l ++ k ∷ r) ≡ l ++ r)
        × NoRepeats dec (l ++ r)
        × (Sets.has dec k (l ++ r) ≡ false)
  unfolding Sets.remove NoRepeats Sets.has
  remove_place k [] r u = (ground (arith, remove_absent dec k r u.0), u.1, u.0)
  remove_place k (j ∷ l) r u =
      let (e, v, out) = remove_place k l r u.1 in
      let apart : same dec j k ≡ false =
        ground (arith, Sets.has-append dec j l (k ∷ r), Sets.has_head dec k r) in
      let still : Sets.has dec j (l ++ r) ≡ false =
        ground (arith, Sets.has-append dec j l (k ∷ r), Sets.has-append dec j l r) in
      (ground (arith, e), (still, v), ground (arith, out))

  pub NoRepeats-snoc :
      (k : K) (l : List K)
      → NoRepeats dec l
      → Sets.has dec k l ≡ false
      → NoRepeats dec (l ++ k ∷ [])
  unfolding NoRepeats Sets.has
  NoRepeats-snoc k [] u h = (refl, tt)
  NoRepeats-snoc k (j ∷ l) u h =
      let apart : same dec k j ≡ false = elim (dec k j) [
        | yes e ↦ absurd (ground (arith, same_iff dec j k, sym e))
        | no n ↦ ground arith
      ] in
      (ground (arith, Sets.has-append dec j l (k ∷ []), u.0), NoRepeats-snoc k l u.1 (ground arith))

  -- The members and the number of keys, with one key taken out of its place.
  pub has_place :
      (j k : K) (l r : List K)
      → Sets.has dec j (l ++ k ∷ r) ≡ (same dec k j || Sets.has dec j (l ++ r))
  unfolding Sets.has
  has_place j k l r = ground (arith, Sets.has-append dec j l (k ∷ r), Sets.has-append dec j l r)
