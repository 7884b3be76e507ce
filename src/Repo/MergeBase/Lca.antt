-- ===== src/Repo/MergeBase/Lca.antt =====
-- repo/repo.ts: the base that `_findLCAMergeBase` finds is a common ancestor.
use ovvio.Base.{
  ℕ, Bool, true, false, some, List, [], ◌∷◌, ◌≡◌, refl, sym, subst, arith, Any, All-self, ◌⊎◌, inl,
  inr, Bool-cases,
}
use ovvio.Base.Sets
use ovvio.Base.Text.{JsString, string_discrete, key_discrete}
use ovvio.Collections.Search.Bounds.{All-mono}
use ovvio.Commit.{Records, Commit, contents_checksum}
use ovvio.Repo.Storage.{RepoStorage}
use ovvio.Repo.MergeBase.{has_id, set_of, search, find_lca_merge_base}
use ovvio.Repo.MergeBase.Ancestors.{Ancestor, set_of-All, search-IsCommon}

module _ (api : Records) (storage : RepoStorage api) (has_record : Commit api → Bool)
    (c1 c2 : Commit api) where
  abbrev pub IsBaseOf : Commit api → Commit api → Type 0
  IsBaseOf c base = (c ≡ base) ⊎ Ancestor api storage c base.id

  has_id-Any : (a : JsString) (ids : List JsString) → has_id a ids ≡ true → Any (λ x. x ≡ a) ids
  has_id-Any a ids h =
      Sets.All-has string_discrete (λ x. Any (λ y. y ≡ x) ids) a ids (All-self ids) h

  List-cases :
      (xs : List JsString) → (xs ≡ []) ⊎ ((y : JsString) × (ys : List JsString) × (xs ≡ y ∷ ys))
  List-cases [] = inl refl
  List-cases (y ∷ ys) = inr (y, ys, refl)

  loop-IsBaseOf :
      (fuel : ℕ) (root : Bool) (base : Commit api)
      → ((id : JsString) (d : Commit api) → storage.get_commit id ≡ some d → d.id ≡ id)
      → search api storage has_record fuel (set_of [] c1.parents) (set_of [] c2.parents) false
        ≡ some (some base, root)
      → (has_record base ≡ true)
        × (storage.get_commit base.id ≡ some base)
        × IsBaseOf c1 base
        × IsBaseOf c2 base
  loop-IsBaseOf fuel root base named e =
      let start = λ (c : Commit api).
        set_of-All api storage (Ancestor api storage c) [] c.parents tt (
          All-mono (λ p. Any (λ x. x ≡ p) c.parents) (Ancestor api storage c) c.parents
            (λ p m. Ancestor.parent p m) (All-self c.parents)) in
      let (has, (id, at, a1, a2)) =
        search-IsCommon api storage has_record c1 c2 fuel _ _ false root base (start c1) (start c2)
          e in
      let here = sym (named id base at) in
      (
        has,
        subst (λ i. storage.get_commit i ≡ some base) here at,
        inr (subst (Ancestor api storage c1) here a1),
        inr (subst (Ancestor api storage c2) here a2),
      )

  -- The base that `_findLCAMergeBase` finds for two commits with a record has a record, and is stored
  -- where it is none of the two. Each of the two is the base or has it for an ancestor, except where
  -- both have the same contents by their checksums: then the base is the first. The storage has each
  -- commit under its own id.
  pub find_lca-IsBaseOf :
      (fuel : ℕ) (root : Bool) (base : Commit api)
      → ((id : JsString) (d : Commit api) → storage.get_commit id ≡ some d → d.id ≡ id)
      → has_record c1 ≡ true
      → has_record c2 ≡ true
      → find_lca_merge_base api storage has_record fuel c1 c2 ≡ some (some base, root)
      → (has_record base ≡ true)
        × ((base ≡ c1) ⊎ (base ≡ c2) ⊎ (storage.get_commit base.id ≡ some base))
        × ((contents_checksum api c1 ≡ contents_checksum api c2) × (base ≡ c1)
            ⊎ IsBaseOf c1 base × IsBaseOf c2 base)
  unfolding find_lca_merge_base
  find_lca-IsBaseOf fuel root base named has1 has2 e = elim (List-cases c1.parents) [
    | inl none1 ↦ absurd (ground arith)
    | inr (y, ys, some1) ↦ elim (List-cases c2.parents) [
      | inl none2 ↦ absurd (ground arith)
      | inr (z, zs, some2) ↦ elim (key_discrete c1.key c2.key) [
        | no other ↦ absurd (ground arith)
        | yes same_key ↦
            elim (string_discrete (contents_checksum api c1) (contents_checksum api c2)) [
              | yes equal ↦
                  let here : c1 ≡ base = ground arith in
                  (
                    subst (λ b. has_record b ≡ true) here has1,
                    inl (sym here),
                    inl (equal, sym here),
                  )
              | no apart ↦ elim (Bool-cases (has_id c2.id c1.parents)) [
                | inl child ↦
                    let here : c2 ≡ base = ground arith in
                    (
                      subst (λ b. has_record b ≡ true) here has2,
                      inr (inl (sym here)),
                      inr (
                        inr (
                            subst (λ b. Ancestor api storage c1 b.id) here
                              (Ancestor.parent c2.id (has_id-Any c2.id c1.parents child))),
                        inl here,
                      ),
                    )
                | inr no_child ↦ elim (Bool-cases (has_id c1.id c2.parents)) [
                  | inl child ↦
                      let here : c1 ≡ base = ground arith in
                      (
                        subst (λ b. has_record b ≡ true) here has1,
                        inl (sym here),
                        inr (
                          inl here,
                          inr (
                              subst (λ b. Ancestor api storage c2 b.id) here
                                (Ancestor.parent c1.id (has_id-Any c1.id c2.parents child))),
                        ),
                      )
                  | inr apart_too ↦
                      let (has, at, b1, b2) = loop-IsBaseOf fuel root base named (ground arith) in
                      (has, inr (inr at), inr (b1, b2))
                ]
              ]
            ]
      ]
    ]
  ]
