-- ===== src/Collections/HashSet/Size.antt =====
-- base/collections/hash-map.ts: what the size of a `HashSet` says.
use ovvio.Base.{◌≡◌, ◌<◌, refl, ◌↔◌, Bool, true, false, List, [], ◌∷◌, some, arith, length}
use ovvio.Base.Maps
use ovvio.Base.Maps.{Map}
use ovvio.Base.Text.{JsString, string_discrete}
use ovvio.Collections.HashSet.{HashSet, no_clone, empty, size, find, has, add}
use ovvio.Collections.HashSet.Laws.{IsHashing, IsValid}

module _ {V : Type 0} (hash : V → JsString) (eq : V → V → Bool) where
  -- Two different values with one hash make a set that holds both and reports the size 1.
  pub size_collision :
      (v w : V)
      → IsHashing hash eq
      → hash v ≡ hash w
      → eq v w ≡ false
      → let s : HashSet V = (add hash eq no_clone (add hash eq no_clone empty v).0 w).0 in
        (has hash eq no_clone s v ≡ true) × (has hash eq no_clone s w ≡ true) × (size s ≡ 1)
  unfolding add has size find Maps.get Maps.put
  size_collision v w ok h d = ground (arith, ok.laws.eq_refl v, ok.laws.eq_refl w, h, d)

  -- The first value of the first bucket.
  first_value :
      IsHashing hash eq
      → (m : Map JsString (List V)) → IsValid hash eq (record { buckets = m })
      → 0 < length m
      → (v : V) × (has hash eq no_clone (record { buckets = m }) v ≡ true)
  unfolding has find
  first_value ok [] valid h = absurd (omega arith)
  first_value ok ((k, []) ∷ m) valid h =
      absurd (valid.filled k [] (Maps.get_head string_discrete k [] m) refl)
  first_value ok ((k, c ∷ cs) ∷ m) valid h =
      let at = Maps.get_head string_discrete k (c ∷ cs) m in
      (c, found ((k, c ∷ cs) ∷ m) (valid.hashed k (c ∷ cs) at).0 at)
    where
      found :
          (all : Map JsString (List V))
          → hash c ≡ k
          → Maps.get string_discrete k all ≡ some (c ∷ cs)
          → has hash eq no_clone (record { buckets = all }) c ≡ true
      found all e at = rw (e, has, at) (ground (arith, ok.laws.eq_refl c))

  -- A set reports a size above 0 exactly where it holds a value.
  pub size_pos :
      IsHashing hash eq
      → (s : HashSet V) → IsValid hash eq s
      → (0 < size s) ↔ ((v : V) × (has hash eq no_clone s v ≡ true))
  unfolding size
  size_pos ok s valid = (first_value ok s.buckets valid, λ (v, h). not_empty s.buckets v h)
    where
      not_empty :
          (m : Map JsString (List V)) (v : V)
          → has hash eq no_clone (record { buckets = m }) v ≡ true
          → 0 < length m
      not_empty [] v h = absurd (unfold has Maps.get in cc)
      not_empty (e ∷ m) v h = omega arith
