-- ===== src/Repo/Unique.antt =====
-- repo/repo.ts: which commits enter a merge (`commitsWithUniqueRecords`).
use ovvio.Base.{
  Bool, true, false, ◌||◌, ◌&&◌, List, [], ◌∷◌, ◌≡◌, refl, sym, ap, ◌∙◌, subst, arith, same, ltb,
  Any, All, All-Any, All-self, if◌then◌else◌, ◌⊎◌, inl, inr, Bool-cases,
}
use ovvio.Base.Text.{JsString, string_discrete}
use ovvio.Commit.{Records, Commit, contents_checksum}

module _ (api : Records) (connection : JsString) where
  -- `c` supersedes `r` of the same contents.
  unfoldable pub supersedes : Commit api → Commit api → Bool
  supersedes c r =
      same string_discrete (contents_checksum api r) (contents_checksum api c)
      && (ltb r.timestamp c.timestamp || same string_discrete c.connection_id connection)

  -- The inner loop, and the `push` behind it.
  unfoldable pub place : List (Commit api) → Commit api → List (Commit api)
  unfolding supersedes
  place [] c = c ∷ []
  place (r ∷ rs) c = if supersedes c r then c ∷ rs else r ∷ place rs c

  unfoldable pub place_all : List (Commit api) → List (Commit api) → List (Commit api)
  unfolding place
  place_all result [] = result
  place_all result (c ∷ cs) = place_all (place result c) cs

  unfoldable pub commits_with_unique_records : List (Commit api) → List (Commit api)
  unfolding place_all
  commits_with_unique_records commits = place_all [] commits

  -- Some commit of this connection has contents with the checksum.
  abbrev pub HasOwn : List (Commit api) → JsString → Type 0
  HasOwn commits k =
      Any
        (λ c.
          (contents_checksum api c ≡ k) × (same string_discrete c.connection_id connection ≡ true))
        commits

  module _ (given : List (Commit api)) where
    -- `r` has the contents of `c`, and is not older, unless a commit of this connection has them too.
    abbrev pub Covers : Commit api → Commit api → Type 0
    Covers c r =
        (contents_checksum api r ≡ contents_checksum api c)
        × (ltb r.timestamp c.timestamp ≡ false ⊎ HasOwn given (contents_checksum api c))

    -- If `s` has the contents of `r`, it is not of this connection, and it is not newer, unless a commit
    -- of this connection has them too.
    abbrev pub Follows : Commit api → Commit api → Type 0
    Follows r s =
        contents_checksum api s ≡ contents_checksum api r
        → (same string_discrete s.connection_id connection ≡ false)
          × (ltb r.timestamp s.timestamp ≡ false ⊎ HasOwn given (contents_checksum api r))

    abbrev pub AllFollow : List (Commit api) → Type 0
    AllFollow [] = Unit
    AllFollow (r ∷ rs) = All (Follows r) rs × AllFollow rs

    -- What was given about the commits of this connection.
    abbrev IsKnown : Commit api → Type 0
    IsKnown c =
        same string_discrete c.connection_id connection ≡ true
        → HasOwn given (contents_checksum api c)

    superseded :
        (c r : Commit api)
        → supersedes c r ≡ true
        → (contents_checksum api r ≡ contents_checksum api c)
          × ((ltb r.timestamp c.timestamp ≡ true)
              ⊎ (same string_discrete c.connection_id connection ≡ true))
    unfolding supersedes
    superseded c r h = ground arith

    kept_before : (c r : Commit api) → supersedes c r ≡ false → Follows r c
    unfolding supersedes
    kept_before c r h e = ground arith

    replaced_before :
        (c r s : Commit api) → IsKnown c → supersedes c r ≡ true → Follows r s → Follows c s
    replaced_before c r s own h f e =
        let (equal, why) = superseded c r h in
        let (foreign, order) = f (e ∙ sym equal) in
        (
          foreign,
          elim why [
            | inr is_own ↦ inr (own is_own)
            | inl newer ↦ elim order [
              | inl old ↦ inl (ground arith)
              | inr some_own ↦ inr (subst (HasOwn given) equal some_own)
            ]
          ],
        )

    cover_after_replacement :
        (c r d : Commit api) → IsKnown c → supersedes c r ≡ true → Covers d r → Covers d c
    cover_after_replacement c r d own h (e, order) =
        let (equal, why) = superseded c r h in
        (
          sym equal ∙ e,
          elim why [
            | inr is_own ↦ inr (subst (HasOwn given) (sym equal ∙ e) (own is_own))
            | inl newer ↦ elim order [ inl old ↦ inl (ground arith) | inr some_own ↦ inr some_own ]
          ],
        )

    all_after_replacement :
        (c r : Commit api) (rs : List (Commit api))
        → IsKnown c
        → supersedes c r ≡ true
        → All (Follows r) rs
        → All (Follows c) rs
    all_after_replacement c r [] own h f = tt
    all_after_replacement c r (s ∷ rs) own h f =
        (replaced_before c r s own h f.0, all_after_replacement c r rs own h f.1)

    All-place :
        (P : Commit api → Type 0) (rs : List (Commit api)) (c : Commit api)
        → P c
        → All P rs
        → All P (place rs c)
    unfolding place
    All-place P [] c p h = (p, tt)
    All-place P (r ∷ rs) c p h = elim (Bool-cases (supersedes c r)) [
      | inl e ↦ rw e (p, h.1)
      | inr e ↦ rw e (h.0, All-place P rs c p h.1)
    ]

    place-AllFollow :
        (rs : List (Commit api)) (c : Commit api)
        → IsKnown c
        → AllFollow rs
        → AllFollow (place rs c)
    unfolding place
    place-AllFollow [] c own h = (tt, tt)
    place-AllFollow (r ∷ rs) c own h = elim (Bool-cases (supersedes c r)) [
      | inl e ↦ rw e (all_after_replacement c r rs own e h.0, h.1)
      | inr e ↦
          rw e (All-place (Follows r) rs c (kept_before c r e) h.0, place-AllFollow rs c own h.1)
    ]

    place-Covers :
        (rs : List (Commit api)) (c d : Commit api)
        → IsKnown c
        → Covers d c ⊎ Any (Covers d) rs
        → Any (Covers d) (place rs c)
    unfolding place
    place-Covers [] c d own h = h
    place-Covers (r ∷ rs) c d own h = elim (Bool-cases (supersedes c r)) [
      | inl e ↦ rw e (elim h [
        | inl own_cover ↦ inl own_cover
        | inr (inl here) ↦ inl (cover_after_replacement c r d own e here)
        | inr (inr later) ↦ inr later
      ])
      | inr e ↦ rw e (elim h [
        | inl own_cover ↦ inr (place-Covers rs c d own (inl own_cover))
        | inr (inl here) ↦ inl here
        | inr (inr later) ↦ inr (place-Covers rs c d own (inr later))
      ])
    ]

    own_cover_of : (c : Commit api) → Covers c c
    own_cover_of c = (refl, inl (ground arith))

    place_all-Covers :
        (rs cs : List (Commit api)) (d : Commit api)
        → All IsKnown cs
        → Any (λ x. x ≡ d) cs ⊎ Any (Covers d) rs
        → Any (Covers d) (place_all rs cs)
    unfolding place_all
    place_all-Covers rs [] d own h = elim h [ inl m ↦ absurd m | inr m ↦ m ]
    place_all-Covers rs (c ∷ cs) d own h = place_all-Covers (place rs c) cs d own.1 (elim h [
      | inl (inl e) ↦
          inr (place-Covers rs c d own.0 (inl (subst (λ x. Covers x c) e (own_cover_of c))))
      | inl (inr later) ↦ inl later
      | inr m ↦ inr (place-Covers rs c d own.0 (inr m))
    ])

    place_all-Keeps :
        (P : Commit api → Type 0) (rs cs : List (Commit api))
        → All IsKnown cs
        → All P cs
        → All P rs
        → AllFollow rs
        → All P (place_all rs cs) × AllFollow (place_all rs cs)
    unfolding place_all
    place_all-Keeps P rs [] own p h f = (h, f)
    place_all-Keeps P rs (c ∷ cs) own p h f =
        place_all-Keeps P (place rs c) cs own.1 p.1 (All-place P rs c p.0 h)
          (place-AllFollow rs c own.0 f)

  own_in :
      (c : Commit api)
      → same string_discrete c.connection_id connection ≡ true
      → (commits : List (Commit api)) → Any (λ x. x ≡ c) commits
      → HasOwn commits (contents_checksum api c)
  own_in c is_own [] m = absurd m
  own_in c is_own (x ∷ commits) m = elim m [
    | inl e ↦ inl (
      ap (contents_checksum api) e,
      subst (λ y. same string_discrete y.connection_id connection ≡ true) (sym e) is_own,
    )
    | inr later ↦ inr (own_in c is_own commits later)
  ]

  -- The commits that are left were given, and for each given commit one is left that has its contents,
  -- by the checksums. It is not older than the given one, unless a given commit of this connection has
  -- these contents. Of two that are left with the same contents the second is not of this connection,
  -- and is not newer, unless again a given commit of this connection has them.
  pub unique-AllFollow :
      (commits : List (Commit api))
      → All (λ r. Any (λ c. c ≡ r) commits) (commits_with_unique_records commits)
        × All (λ c. Any (Covers commits c) (commits_with_unique_records commits)) commits
        × AllFollow commits (commits_with_unique_records commits)
  unfolding commits_with_unique_records
  unique-AllFollow commits =
      let own : All (IsKnown commits) commits =
        All-Any (IsKnown commits) commits (λ c m is_own. own_in c is_own commits m) in
      let (given, order) =
        place_all-Keeps commits (λ r. Any (λ c. c ≡ r) commits) [] commits own (All-self commits) tt
          tt in
      (given, All-Any _ commits (λ c m. place_all-Covers commits [] commits c own (inl m)), order)

  -- Of two commits with the same contents both are left, where the second is not newer and is not
  -- of this connection.
  pub unique-repeats :
      (a b : Commit api)
      → contents_checksum api a ≡ contents_checksum api b
      → ltb a.timestamp b.timestamp ≡ false
      → same string_discrete b.connection_id connection ≡ false
      → commits_with_unique_records (a ∷ b ∷ []) ≡ a ∷ b ∷ []
  unfolding commits_with_unique_records place_all place supersedes
  unique-repeats a b e old foreign = ground arith
