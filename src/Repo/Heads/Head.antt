-- ===== src/Repo/Heads/Head.antt =====
-- repo/repo.ts: a key has a head exactly where one of its commits has a record.
use ovvio.Base.{
  Bool, true, false, not, ◌&&◌, Option, none, some, List, [], ◌∷◌, ◌≡◌, arith, All, Any, Any-All,
  All-self, filter, filter-All, if◌then◌else◌, ◌⊎◌, inl, inr,
}
use ovvio.Base.Text.{JsString}
use ovvio.Collections.Search.Bounds.{All-mono}
use ovvio.AdjList.{AdjList, has_in_edges}
use ovvio.Commit.{Records, Commit}
use ovvio.Repo.Heads.{leaves_for_key, pick_best_commit_for_current_client, cache_head, head_for_key}
use ovvio.Repo.Heads.Best.{pick_best-IsBest}
use ovvio.Repo.Heads.Leaves.{filter_latest-kept}

module _ (api : Records) (has_record : Commit api → Bool) where
  module _ (adj_list : AdjList) (commits : List (Commit api)) where
    abbrev leaves : List (Commit api)
    leaves = leaves_for_key api has_record adj_list none commits

    -- A leaf is a commit of the key with a record that no other commit has for a parent.
    pub leaves-All :
        All
          (λ c.
            Any (λ d. d ≡ c) commits × (has_record c ≡ true) × (has_in_edges adj_list c.id ≡ false))
          leaves
    unfolding leaves_for_key
    leaves-All =
        let test : Commit api → Bool = λ c. not (has_in_edges adj_list c.id) && has_record c in
        All-mono _ _ leaves
          (λ c m.
            Any-All
              (λ d.
                Any (λ x. x ≡ d) commits
                × (has_record d ≡ true)
                × (has_in_edges adj_list d.id ≡ false))
              c (filter test commits) m
              (All-mono _ _ (filter test commits)
                (λ d (among, pass). (among, ground arith, ground arith))
                (filter-All test (λ d. Any (λ x. x ≡ d) commits) commits (All-self commits))))
          (filter_latest-kept api (filter test commits)).0

  module _ (connection session : JsString) (adj_list : AdjList) (commits : List (Commit api)) where
    -- A head that is found is a commit with a record; where none is found, no commit has one.
    abbrev pub IsHead : Option (Commit api) → Type 0
    IsHead o =
        (o ≡ none) × All (λ d. has_record d ≡ false) commits
        ⊎ ((c : Commit api) × (o ≡ some c) × Any (λ d. d ≡ c) commits × (has_record c ≡ true))

    fallback : Option (Commit api)
    fallback =
        cache_head api has_record connection session
          (pick_best_commit_for_current_client api has_record connection session commits)

    fallback-IsHead : IsHead fallback
    unfolding fallback cache_head
    fallback-IsHead = elim (pick_best-IsBest api has_record connection session commits) [
      | inl (e, all) ↦ inl (ground arith, all)
      | inr (c, e, among, has, best) ↦ inr (c, ground arith, among, has)
    ]

    abbrev IsLeaf : Commit api → Type 0
    IsLeaf c =
        Any (λ d. d ≡ c) commits × (has_record c ≡ true) × (has_in_edges adj_list c.id ≡ false)

    -- `headForKey` finds a head exactly where some commit of the key has a record. The head is one
    -- of the commits and has a record.
    pub head_for_key-IsHead :
        IsHead (head_for_key api has_record connection session adj_list commits)
    unfolding head_for_key fallback cache_head
    head_for_key-IsHead =
        by_leaves (leaves_for_key api has_record adj_list none commits)
          (leaves-All adj_list commits)
      where
        by_leaves :
            (ls : List (Commit api))
            → All IsLeaf ls
            → IsHead (elim ls [
              | [] ↦ fallback
              | c ∷ [] ↦
                  if has_record c
                  then cache_head api has_record connection session (some c)
                  else fallback
              | c ∷ d ∷ leaves ↦
                  elim (pick_best_commit_for_current_client api has_record connection session
                    (c ∷ d ∷ leaves)) [
                      | none ↦ fallback
                      | some head ↦ cache_head api has_record connection session (some head)
                    ]
            ])
        by_leaves [] h = fallback-IsHead
        by_leaves (c ∷ []) h = inr (c, (let has = h.0.1 in ground arith), h.0.0, h.0.1)
        by_leaves (c ∷ d ∷ ls) h =
            elim (pick_best-IsBest api has_record connection session (c ∷ d ∷ ls)) [
              | inl (e, unreadable) ↦
                  let has = h.0.1 in let has_none = unreadable.0 in absurd (ground arith)
              | inr (x, e, m, has, best) ↦ inr (
                x,
                ground arith,
                Any-All (λ y. Any (λ z. z ≡ y) commits) x (c ∷ d ∷ ls) m
                    (All-mono _ _ (c ∷ d ∷ ls) (λ y leaf. leaf.0) h),
                has,
              )
            ]
