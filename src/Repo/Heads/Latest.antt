-- ===== src/Repo/Heads/Latest.antt =====
-- repo/repo.ts: the map that `filterLatestCommitsByConnection` fills.
use ovvio.Base.{
  ℕ, ◌≤◌, Option, none, some, List, [], ◌∷◌, ◌≡◌, ◌≢◌, refl, sym, subst, arith, All, Any, map, ltb,
  ◌⊎◌, inl, inr, Bool-cases, Option-cases,
}
use mathlib.Core.Logic.{ite}
use ovvio.Base.Maps
use ovvio.Base.Maps.{Map}
use ovvio.Base.Text.{JsString, string_discrete}
use ovvio.Collections.Search.Bounds.{All-mono}
use ovvio.Commit.{Records, Commit}
use ovvio.Repo.Heads.{by_connection, keep_latest}

module _ (api : Records) where
  abbrev pub Latest : Type 0
  Latest = Map JsString (Commit api)

  abbrev Entry : Type 0
  Entry = JsString × Commit api

  All-put :
      (P : Entry → Type 0) (k : JsString) (v : Commit api) (m : Latest)
      → P (k, v)
      → All P m
      → All P (Maps.put string_discrete k v m)
  unfolding Maps.put
  All-put P k v [] p h = (p, tt)
  All-put P k v ((i, w) ∷ m) p h =
      elim (string_discrete i k)
        as (λ d. All P (ite d ((i, v) ∷ m) ((i, w) ∷ Maps.put string_discrete k v m))) [
          | yes e ↦ (subst (λ j. P (j, v)) (sym e) p, h.1)
          | no n ↦ (h.0, All-put P k v m p h.1)
        ]

  -- No key stands twice.
  unfoldable pub HasApartKeys : Latest → Type 0
  HasApartKeys [] = Unit
  HasApartKeys (e ∷ m) = All (λ x. x.0 ≢ e.0) m × HasApartKeys m

  put-HasApartKeys :
      (k : JsString) (v : Commit api) (m : Latest)
      → HasApartKeys m
      → HasApartKeys (Maps.put string_discrete k v m)
  unfolding Maps.put HasApartKeys
  put-HasApartKeys k v [] h = (tt, tt)
  put-HasApartKeys k v ((i, w) ∷ m) h =
      elim (string_discrete i k)
        as (λ d. HasApartKeys (ite d ((i, v) ∷ m) ((i, w) ∷ Maps.put string_discrete k v m))) [
          | yes e ↦ h
          | no n ↦ (All-put (λ x. x.0 ≢ i) k v m (λ e. n (sym e)) h.0, put-HasApartKeys k v m h.1)
        ]

  pub get-All :
      (P : Entry → Type 0) (k : JsString) (v : Commit api) (m : Latest)
      → Maps.get string_discrete k m ≡ some v
      → All P m
      → P (k, v)
  unfolding Maps.get
  get-All P k v [] e h = absurd (cc)
  get-All P k v ((i, w) ∷ m) e h = elim (string_discrete i k) [
    | yes same_key ↦
        let same_value : w ≡ v = ground arith in
        subst (λ x. P (k, x)) same_value (subst (λ j. P (j, w)) same_key h.0)
    | no other ↦ get-All P k v m (ground arith) h.1
  ]

  pub get-Any :
      (k : JsString) (v : Commit api) (m : Latest)
      → Maps.get string_discrete k m ≡ some v
      → Any (λ d. d ≡ v) (map (λ e. e.1) m)
  get-Any k v m e = get-All (λ x. Any (λ d. d ≡ x.1) (map (λ e. e.1) m)) k v m e (everywhere m)
    where
      everywhere : (xs : Latest) → All (λ x. Any (λ d. d ≡ x.1) (map (λ e. e.1) xs)) xs
      everywhere [] = tt
      everywhere (x ∷ xs) = (
        inl refl,
        All-mono _ (λ y. Any (λ d. d ≡ y.1) (map (λ e. e.1) (x ∷ xs))) xs (λ y m. inr m)
            (everywhere xs),
      )

  keep_latest_cases :
      (m : Latest) (c : Commit api)
      → (keep_latest api m c ≡ Maps.put string_discrete c.connection_id c m)
        ⊎ (keep_latest api m c ≡ m)
  unfolding keep_latest
  keep_latest_cases m c = elim (Option-cases (Maps.get string_discrete c.connection_id m)) [
    | inl fresh ↦ inl (ground arith)
    | inr (prev, at) ↦ elim (Bool-cases (ltb prev.timestamp c.timestamp)) [
      | inl newer ↦ inl (ground arith)
      | inr older ↦ inr (ground arith)
    ]
  ]

  -- What holds of the entries holds behind the step, if it holds of the new one.
  All-keep_latest :
      (P : Entry → Type 0) (m : Latest) (c : Commit api)
      → P (c.connection_id, c)
      → All P m
      → All P (keep_latest api m c)
  All-keep_latest P m c p h = elim (keep_latest_cases m c) [
    | inl stored ↦ subst (All P) (sym stored) (All-put P c.connection_id c m p h)
    | inr left ↦ subst (All P) (sym left) h
  ]

  keep_latest-HasApartKeys :
      (m : Latest) (c : Commit api) → HasApartKeys m → HasApartKeys (keep_latest api m c)
  keep_latest-HasApartKeys m c h = elim (keep_latest_cases m c) [
    | inl stored ↦ subst HasApartKeys (sym stored) (put-HasApartKeys c.connection_id c m h)
    | inr left ↦ subst HasApartKeys (sym left) h
  ]

  pub All-by_connection :
      (P : Entry → Type 0) (m : Latest) (cs : List (Commit api))
      → All (λ c. P (c.connection_id, c)) cs
      → All P m
      → All P (by_connection api m cs)
  unfolding by_connection
  All-by_connection P m [] p h = h
  All-by_connection P m (c ∷ cs) p h =
      All-by_connection P (keep_latest api m c) cs p.1 (All-keep_latest P m c p.0 h)

  pub by_connection-HasApartKeys :
      (m : Latest) (cs : List (Commit api)) → HasApartKeys m → HasApartKeys (by_connection api m cs)
  unfolding by_connection
  by_connection-HasApartKeys m [] h = h
  by_connection-HasApartKeys m (c ∷ cs) h =
      by_connection-HasApartKeys (keep_latest api m c) cs (keep_latest-HasApartKeys m c h)

  -- The map has a commit under the key that is not older than `t`.
  abbrev pub HasSince : JsString → ℕ → Latest → Type 0
  HasSince k t m = (d : Commit api) × (Maps.get string_discrete k m ≡ some d) × (t ≤ d.timestamp)

  keep_latest-HasSince :
      (k : JsString) (t : ℕ) (m : Latest) (c : Commit api)
      → HasSince k t m
      → HasSince k t (keep_latest api m c)
  unfolding keep_latest
  keep_latest-HasSince k t m c (d, at, le) =
      let put = Maps.get-put string_discrete c.connection_id k c m in
      elim (Option-cases (Maps.get string_discrete c.connection_id m)) [
        | inl fresh ↦ elim (string_discrete c.connection_id k) [
          | yes e ↦
              absurd (clash (subst (λ j. Maps.get string_discrete j m ≡ some d) (sym e) at) fresh)
          | no n ↦ (d, ground (arith, put), le)
        ]
        | inr (prev, there) ↦ elim (Bool-cases (ltb prev.timestamp c.timestamp)) [
          | inr older ↦ (d, ground arith, le)
          | inl newer ↦ elim (string_discrete c.connection_id k) [
            | no n ↦ (d, ground (arith, put), le)
            | yes e ↦
                let here = subst (λ j. Maps.get string_discrete j m ≡ some d) (sym e) at in
                let same_commit : prev ≡ d = ground arith in (c, ground (arith, put), ground arith)
          ]
        ]
      ]
    where
      clash : {o : Option (Commit api)} → o ≡ some d → o ≡ none → ⊥
      clash h h' = cc

  by_connection-HasSince :
      (k : JsString) (t : ℕ) (m : Latest) (cs : List (Commit api))
      → HasSince k t m
      → HasSince k t (by_connection api m cs)
  unfolding by_connection
  by_connection-HasSince k t m [] h = h
  by_connection-HasSince k t m (c ∷ cs) h =
      by_connection-HasSince k t (keep_latest api m c) cs (keep_latest-HasSince k t m c h)

  keep_latest_self :
      (m : Latest) (c : Commit api) → HasSince c.connection_id c.timestamp (keep_latest api m c)
  unfolding keep_latest
  keep_latest_self m c =
      let put = Maps.get-put_self string_discrete c.connection_id c m in
      elim (Option-cases (Maps.get string_discrete c.connection_id m)) [
        | inl fresh ↦ (c, ground (arith, put), omega arith)
        | inr (prev, at) ↦ elim (Bool-cases (ltb prev.timestamp c.timestamp)) [
          | inl newer ↦ (c, ground (arith, put), omega arith)
          | inr older ↦ (prev, ground arith, ground arith)
        ]
      ]

  pub All-HasSince :
      (m : Latest) (cs : List (Commit api))
      → All (λ c. HasSince c.connection_id c.timestamp (by_connection api m cs)) cs
  unfolding by_connection
  All-HasSince m [] = tt
  All-HasSince m (c ∷ cs) = (
    by_connection-HasSince c.connection_id c.timestamp (keep_latest api m c) cs
        (keep_latest_self m c),
    All-HasSince (keep_latest api m c) cs,
  )
