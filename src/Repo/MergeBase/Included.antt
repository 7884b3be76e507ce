-- ===== src/Repo/MergeBase/Included.antt =====
-- repo/repo.ts: the commits and the base that `findMergeBase` settles on.
use ovvio.Base.{
  ℕ, Bool, true, ◌||◌, none, some, List, [], ◌∷◌, ◌++◌, ◌≡◌, arith, same, All, All-append, Any,
  All-self, subst, inl, inr, Bool-cases, Option-cases,
}
use ovvio.Base.Text.{JsString}
use ovvio.Authorizer.{namespace_discrete}
use ovvio.Commit.{Records, Commit, Scheme, is_null_scheme}
use ovvio.Repo.Storage.{RepoStorage}
use ovvio.Repo.MergeBase.{
  MergeBase, join, consider, consider_all, find_merge_base, find_lca_merge_base,
}
use ovvio.Repo.MergeBase.Lca.{find_lca-IsBaseOf}

module _ (api : Records) (storage : RepoStorage api) (has_record : Commit api → Bool)
    (scheme_of : Commit api → Scheme) (fuel : ℕ)
    (named : (id : JsString) (d : Commit api) → storage.get_commit id ≡ some d → d.id ≡ id) where
  abbrev Plan : Type 0
  Plan = MergeBase api storage has_record

  -- The commits have the property and a record, and so has the base a record.
  record IsGood (P : Commit api → Type 0) (m : Plan) : Type 0 where
    included : All (λ c. P c × (has_record c ≡ true)) m.commits
    base_readable : (b : Commit api) → m.base ≡ some b → has_record b ≡ true

  module _ (P : Commit api → Type 0) where
    join-IsGood :
        (m m' : Plan) (c base : Commit api) (root : Bool)
        → IsGood P m
        → P c
        → has_record c ≡ true
        → has_record base ≡ true
        → join api storage has_record scheme_of fuel m c base root ≡ some m'
        → IsGood P m'
    unfolding join
    join-IsGood m m' c base root good p has has_base e =
        elim (Bool-cases (
          is_null_scheme m.scheme
          || same namespace_discrete m.scheme.namespace (scheme_of c).namespace)) [
            | inr clash ↦ absurd (ground arith)
            | inl fine ↦
                let commits_are : m.commits ++ c ∷ [] ≡ m'.commits = ground arith in
                let base_is : some base ≡ m'.base = ground arith in
                record {
                  included =
                      subst (All (λ x. P x × (has_record x ≡ true))) commits_are
                        (All-append _ m.commits (c ∷ []) good.included ((p, has), tt));
                  base_readable = λ b h. ground arith;
                }
          ]

    consider-IsGood :
        (m m' : Plan) (c : Commit api)
        → IsGood P m
        → P c
        → consider api storage has_record scheme_of fuel m c ≡ some m'
        → IsGood P m'
    unfolding consider
    consider-IsGood m m' c good p e = elim (Bool-cases (has_record c)) [
      | inr unreadable ↦ let same_plan : m ≡ m' = ground arith in subst (IsGood P) same_plan good
      | inl has ↦ elim (Option-cases m.base) [
        | inl first ↦
            let made : record m {
              commits = m.commits ++ c ∷ [];
              base = some c;
              scheme = scheme_of c;
            }
                ≡ m' =
              ground arith in
            subst (IsGood P) made (record {
              included = All-append _ m.commits (c ∷ []) good.included ((p, has), tt);
              base_readable = λ b h. ground arith;
            })
        | inr (base, at) ↦
            elim (Option-cases (find_lca_merge_base api storage has_record fuel base c)) [
              | inl out ↦ absurd (ground arith)
              | inr ((none, root), found) ↦
                  let made : record m { root = m.root || root } ≡ m' = ground arith in
                  subst (IsGood P) made
                    (record { included = good.included; base_readable = good.base_readable })
              | inr ((some new_base, root), found) ↦
                  join-IsGood m m' c new_base root good p has
                    (find_lca-IsBaseOf api storage has_record base c fuel root new_base named
                      (good.base_readable base at) has found).0
                    (ground arith)
            ]
      ]
    ]

    consider_all-IsGood :
        (m m' : Plan) (cs : List (Commit api))
        → IsGood P m
        → All P cs
        → consider_all api storage has_record scheme_of fuel m cs ≡ some m'
        → IsGood P m'
    unfolding consider_all
    consider_all-IsGood m m' [] good h e =
        let same_plan : m ≡ m' = ground arith in subst (IsGood P) same_plan good
    consider_all-IsGood m m' (c ∷ cs) good h e =
        elim (Option-cases (consider api storage has_record scheme_of fuel m c)) [
          | inl failed ↦ absurd (ground arith)
          | inr (n, step) ↦
              consider_all-IsGood n m' cs (consider-IsGood m n c good h.0 step) h.1 (ground arith)
        ]

  -- What `findMergeBase` settles on are given commits that have records, and a base that has one.
  pub find_merge_base-included :
      (commits : List (Commit api)) (m : Plan)
      → find_merge_base api storage has_record scheme_of fuel commits ≡ some m
      → All (λ c. Any (λ d. d ≡ c) commits × (has_record c ≡ true)) m.commits
        × ((b : Commit api) → m.base ≡ some b → has_record b ≡ true)
  unfolding find_merge_base
  find_merge_base-included commits m e =
      let good =
        consider_all-IsGood (λ c. Any (λ d. d ≡ c) commits) _ m commits
          (record { included = tt; base_readable = λ b h. cc }) (All-self commits) e in
      (good.included, good.base_readable)
