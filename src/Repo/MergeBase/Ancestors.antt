-- ===== src/Repo/MergeBase/Ancestors.antt =====
-- repo/repo.ts: the ids that the two sides of `_findLCAMergeBase` reach are ancestors.
use ovvio.Base.{
  ℕ, zero, suc, Bool, true, false, Option, none, some, List, [], ◌∷◌, ◌≡◌, refl, sym, subst, arith,
  All, Any, All-self, filter, filter-All, ◌⊎◌, inl, inr, Bool-cases, Option-cases,
}
use ovvio.Base.Sets
use ovvio.Base.Text.{JsString, string_discrete}
use ovvio.Collections.Search.Bounds.{All-mono}
use ovvio.Collections.Search.Sorting.{find_first_cases}
use ovvio.Commit.{Records, Commit}
use ovvio.Repo.Order.{compare_commits_desc}
use ovvio.Repo.Storage.{RepoStorage}
use ovvio.Repo.MergeBase.{
  has_id, set_of, intersection, Side, add_parents, expand_commit, expand_id, expand, known_commits,
  common_base, search,
}

module _ (api : Records) (storage : RepoStorage api) where
  -- The id stands among the parents of the commit, or of one of its stored ancestors.
  pub data Ancestor (c : Commit api) : JsString → Type 0 where
    parent : (p : JsString) → Any (λ x. x ≡ p) c.parents → Ancestor c p
    further :
        (q p : JsString) (d : Commit api)
        → Ancestor c q
        → storage.get_commit q ≡ some d
        → Any (λ x. x ≡ p) d.parents
        → Ancestor c p

  pub set_of-All :
      (P : JsString → Type 0) (s ids : List JsString) → All P s → All P ids → All P (set_of s ids)
  unfolding set_of
  set_of-All P s [] h k = h
  set_of-All P s (id ∷ ids) h k =
      set_of-All P (Sets.add string_discrete id s) ids (Sets.All-add string_discrete P id s k.0 h)
        k.1

  add_parents-All :
      (P : JsString → Type 0) (s : Side api storage) (ps : List JsString)
      → All P s.ids
      → All P ps
      → All P (add_parents api storage s ps).ids
  unfolding add_parents
  add_parents-All P s [] h k = h
  add_parents-All P s (p ∷ ps) h k = elim (Bool-cases (has_id p s.ids)) [
    | inl known ↦ rw (known, add_parents) (add_parents-All P s ps h k.1)
    | inr new ↦
        rw (new, add_parents)
          (add_parents-All P (record s { ids = Sets.add string_discrete p s.ids; updated = true })
            ps (Sets.All-add string_discrete P p s.ids k.0 h) k.1)
  ]

  pub expand_id_cases :
      (s : Side api storage) (id : JsString)
      → (expand_id api storage s id ≡ s)
        ⊎ ((d : Commit api) × (storage.get_commit id ≡ some d)
            × (expand_id api storage s id ≡ expand_commit api storage s d.parents))
  unfolding expand_id
  expand_id_cases s id = elim (Option-cases (storage.get_commit id)) [
    | inl absent ↦ inl (ground arith)
    | inr (d, at) ↦ inr (d, at, ground arith)
  ]

  module _ (c : Commit api) where
    expand_commit-Ancestor :
        (s : Side api storage) (ps : List JsString)
        → All (Ancestor c) ps
        → All (Ancestor c) s.ids
        → All (Ancestor c) (expand_commit api storage s ps).ids
    unfolding expand_commit
    expand_commit-Ancestor s [] k h = h
    expand_commit-Ancestor s (p ∷ ps) k h = add_parents-All (Ancestor c) s (p ∷ ps) h k

    expand_id-Ancestor :
        (s : Side api storage) (id : JsString)
        → Ancestor c id
        → All (Ancestor c) s.ids
        → All (Ancestor c) (expand_id api storage s id).ids
    expand_id-Ancestor s id a h = elim (expand_id_cases s id) [
      | inl e ↦ subst (λ x. All (Ancestor c) x.ids) (sym e) h
      | inr (d, at, e) ↦
          subst (λ x. All (Ancestor c) x.ids) (sym e)
            (expand_commit-Ancestor s d.parents
              (All-mono (λ p. Any (λ x. x ≡ p) d.parents) (Ancestor c) d.parents
                (λ p m. Ancestor.further id p d a at m) (All-self d.parents))
              h)
    ]

    expand-Ancestor :
        (s : Side api storage) (ids : List JsString)
        → All (Ancestor c) ids
        → All (Ancestor c) s.ids
        → All (Ancestor c) (expand api storage s ids).ids
    unfolding expand
    expand-Ancestor s [] a h = h
    expand-Ancestor s (id ∷ ids) a h =
        expand-Ancestor (expand_id api storage s id) ids a.1 (expand_id-Ancestor s id a.0 h)

  -- The commits that the search reads are stored, under the ids.
  known_commits-All :
      (P : JsString → Type 0) (ids : List JsString)
      → All P ids
      → All
          (λ d. (id : JsString) × P id × (storage.get_commit id ≡ some d))
          (known_commits api storage ids)
  unfolding known_commits
  known_commits-All P [] h = tt
  known_commits-All P (id ∷ ids) h =
      by_commit (storage.get_commit id) refl (known_commits-All P ids h.1)
    where
      by_commit :
          (o : Option (Commit api))
          → storage.get_commit id ≡ o
          → All
              (λ d. (i : JsString) × P i × (storage.get_commit i ≡ some d))
              (known_commits api storage ids)
          → All
              (λ d. (i : JsString) × P i × (storage.get_commit i ≡ some d))
              (elim o [
                | none ↦ known_commits api storage ids
                | some c ↦ c ∷ known_commits api storage ids
              ])
      by_commit none e rest = rest
      by_commit (some d) e rest = ((id, h.0, e), rest)

  module _ (has_record : Commit api → Bool) (c1 c2 : Commit api) where
    -- A stored commit with a record that is an ancestor of both.
    abbrev pub IsCommon : Commit api → Type 0
    IsCommon base =
        (has_record base ≡ true)
        × ((id : JsString) × (storage.get_commit id ≡ some base) × Ancestor c1 id × Ancestor c2 id)

    common_base-IsCommon :
        (p1 p2 : List JsString) (base : Commit api)
        → All (Ancestor c1) p1
        → All (Ancestor c2) p2
        → common_base api storage has_record p1 p2 ≡ some base
        → IsCommon base
    unfolding common_base intersection
    common_base-IsCommon p1 p2 base a1 a2 e =
        let both : List JsString = filter (λ v. has_id v p2) p1 in
        elim (find_first_cases (compare_commits_desc api) has_record
          (known_commits api storage both)) [
            | inl (nothing, all) ↦ absurd (ground arith)
            | inr (b, found, pass, mem) ↦
                let here : b ≡ base = ground arith in
                let (id, (x1, x2), at) = mem _ (
                  known_commits-All (λ i. Ancestor c1 i × Ancestor c2 i) both
                    (All-mono _ _ both
                      (λ i (x, h). (x, Sets.All-has string_discrete (Ancestor c2) i p2 a2 h))
                      (filter-All (λ v. has_id v p2) (Ancestor c1) p1 a1))) in
                subst IsCommon here (pass, (id, at, x1, x2))
          ]

    pub search-IsCommon :
        (fuel : ℕ) (p1 p2 : List JsString) (root root' : Bool) (base : Commit api)
        → All (Ancestor c1) p1
        → All (Ancestor c2) p2
        → search api storage has_record fuel p1 p2 root ≡ some (some base, root')
        → IsCommon base
    unfolding search
    search-IsCommon zero p1 p2 root root' base a1 a2 e = absurd (cc)
    search-IsCommon (suc fuel) p1 p2 root root' base a1 a2 e =
        let s1 : Side api storage =
          expand api storage (record { ids = p1; updated = false; root = root }) p1 in
        let s2 : Side api storage =
          expand api storage (record { ids = p2; updated = s1.updated; root = s1.root }) p2 in
        elim (Option-cases (common_base api storage has_record p1 p2)) [
          | inr (b, found) ↦ common_base-IsCommon p1 p2 base a1 a2 (ground arith)
          | inl nothing ↦ elim (Bool-cases s2.updated) [
            | inl more ↦
                search-IsCommon fuel s1.ids s2.ids s2.root root' base
                  (expand-Ancestor c1 _ p1 a1 a1) (expand-Ancestor c2 _ p2 a2 a2) (ground arith)
            | inr done ↦ absurd (ground arith)
          ]
        ]
