-- ===== src/Repo/Probable/Answers.antt =====
-- repo/repo.ts: when `commitIsHighProbabilityLeaf` takes a commit for a leaf.
use ovvio.Base.{
  ℕ, suc, ◌≤◌, ◌<◌, Bool, true, false, not, Option, none, some, List, [], ◌∷◌, ◌≡◌, refl, leb, All,
  Any, Any-All, All-self, Bool-cases, inl, inr, ◌⊎◌, arith,
}
use Prim.Native.Nat.{◌^◌}
use ovvio.Base.Sort.{sort, All-sort}
use ovvio.Base.Text.{JsString}
use ovvio.AdjList.{AdjList, has_in_edges}
use ovvio.Collections.Search.Sorting.{All-sort_inv}
use ovvio.Commit.{Records, Commit}
use ovvio.Repo.Order.{compare_commits_desc}
use ovvio.Repo.Storage.{RepoStorage}
use ovvio.Repo.Probable.{
  FirstSeen, commit_in_grace_period, is_own, agree, graph_size, is_sparse, by_agreement,
  commit_is_high_probability_leaf,
}

module _ (api : Records) (session : JsString) (in_filter : Commit api → JsString → Bool)
    (now later : ℕ) where
  -- A commit that decides for the candidate: an own one that is not newer than it, or one whose
  -- filter does not have it.
  abbrev pub Decides : Commit api → Commit api → Type 0
  Decides candidate c =
      ((c.timestamp ≤ candidate.timestamp) × (is_own api session in_filter now later c ≡ true))
      ⊎ (in_filter c candidate.id ≡ false)

  -- A result; a positive one has a commit that decides for the candidate.
  abbrev pub Answers : Commit api → List (Commit api) → Option (FirstSeen api × Bool) → Type 0
  Answers candidate commits none = ⊥
  Answers candidate commits (some (seen, false)) = Unit
  Answers candidate commits (some (seen, true)) =
      ((c : Commit api) × Any (λ d. d ≡ c) commits × Decides candidate c)

  -- An answer that holds with more commits before the others.
  further :
      (candidate c : Commit api) (commits : List (Commit api)) (o : Option (FirstSeen api × Bool))
      → Answers candidate commits o
      → Answers candidate (c ∷ commits) o
  further candidate c commits (some (seen, true)) (d, m, h) = (d, inr m, h)
  further candidate c commits (some (seen, false)) h = tt
  further candidate c commits none h = absurd h

  -- The order of the commits is of no matter to an answer.
  unsorted :
      (candidate : Commit api) (commits : List (Commit api)) (o : Option (FirstSeen api × Bool))
      → Answers candidate (sort (compare_commits_desc api) commits) o
      → Answers candidate commits o
  unsorted candidate commits none h = absurd h
  unsorted candidate commits (some (seen, false)) h = tt
  unsorted candidate commits (some (seen, true)) (c, m, h) = (
    c,
    Any-All (λ x. Any (λ y. y ≡ x) commits) c (sort (compare_commits_desc api) commits) m
        (All-sort (compare_commits_desc api) (λ x. Any (λ y. y ≡ x) commits) commits
          (All-self commits)),
    h,
  )

  first-Decides :
      (candidate c : Commit api) (commits : List (Commit api)) (seen : FirstSeen api) (b : Bool)
      → (b ≡ true → Decides candidate c)
      → Answers candidate (c ∷ commits) (some (seen, b))
  first-Decides candidate c commits seen true h = (c, inl refl, h refl)
  first-Decides candidate c commits seen false h = tt

  agree_cases :
      (candidate : Commit api) (size : ℕ) (seen : FirstSeen api) (i : ℕ)
      (commits : List (Commit api))
      → Answers candidate commits (
          agree api session in_filter now later candidate.id candidate.timestamp size seen i
            commits)
        ⊎ All (λ d. candidate.timestamp < d.timestamp) commits
  unfolding agree
  agree_cases candidate size seen i [] = inr tt
  agree_cases candidate size seen i (c ∷ commits) = elim (Bool-cases (leb (2 ^ i) size)) [
    | inr few ↦ inl (rw few tt)
    | inl more ↦ elim (Bool-cases (leb c.timestamp candidate.timestamp)) [
      | inl old ↦ inl (
          rw (more, old)
            (first-Decides candidate c commits seen (is_own api session in_filter now later c)
              (λ own. inl (ground arith, own))))
      | inr newer ↦ elim (Bool-cases (in_filter c candidate.id)) [
        | inl held ↦ elim (agree_cases candidate size seen (suc i) commits) [
          | inl answer ↦ inl (rw (more, newer, held) (further candidate c commits _ answer))
          | inr all ↦ inr (ground arith, all)
        ]
        | inr lacks ↦
            let decided = λ (s : FirstSeen api) (b : Bool).
              first-Decides candidate c commits s b (λ e. inr lacks) in
            let grace = commit_in_grace_period api seen now later c in
            elim (Bool-cases (is_own api session in_filter now later c)) [
              | inl own ↦ inl (rw (more, newer, lacks, own) (decided seen true))
              | inr other ↦ inl (rw (more, newer, lacks, other) (decided grace.0 (not grace.1)))
            ]
      ]
    ]
  ]

  by_agreement_cases :
      (candidate : Commit api) (seen : FirstSeen api) (commits : List (Commit api))
      → ((is_sparse api session in_filter now later commits ≡ true)
            × (by_agreement api session in_filter now later seen candidate commits
                ≡ some (seen, true))
          ⊎ Answers candidate commits
              (by_agreement api session in_filter now later seen candidate commits))
        ⊎ All (λ d. candidate.timestamp < d.timestamp) commits
  by_agreement_cases candidate seen [] = inr tt
  by_agreement_cases candidate seen (c ∷ commits) =
      elim (Bool-cases (is_sparse api session in_filter now later (c ∷ commits))) [
        | inl sparse ↦ inl (inl (sparse, rw sparse refl))
        | inr dense ↦
            elim (agree_cases candidate (graph_size api session in_filter now later c commits) seen
              0 (c ∷ commits)) [ inl answer ↦ inl (inr (rw dense answer)) | inr all ↦ inr all ]
      ]

  -- For a commit of the storage the search always answers. A commit with edges into it is no leaf.
  -- Any other is taken for one only if the known commits of the key are fewer than the logarithm of
  -- the graph, or if one of them decides for it: an own commit that is not newer, or one whose filter
  -- does not have it.
  pub commit_is_high_probability_leaf-Answers :
      (adj_list : AdjList) (storage : RepoStorage api) (seen : FirstSeen api)
      (candidate : Commit api)
      → Any (λ d. d ≡ candidate) (storage.commits_for_key candidate.key)
      → (has_in_edges adj_list candidate.id ≡ true
          → commit_is_high_probability_leaf api session in_filter now later adj_list storage seen
              candidate
            ≡ some (seen, false))
        × (has_in_edges adj_list candidate.id ≡ false
            → (is_sparse api session in_filter now later
                    (sort (compare_commits_desc api) (storage.commits_for_key candidate.key))
                  ≡ true)
                × (commit_is_high_probability_leaf api session in_filter now later adj_list storage
                      seen candidate
                    ≡ some (seen, true))
              ⊎ Answers candidate (storage.commits_for_key candidate.key) (
                  commit_is_high_probability_leaf api session in_filter now later adj_list storage
                    seen candidate))
  unfolding commit_is_high_probability_leaf
  commit_is_high_probability_leaf-Answers adj_list storage seen candidate stored =
      let commits = storage.commits_for_key candidate.key in
      (
        λ inside. rw inside refl,
        λ outside.
            elim (by_agreement_cases candidate seen (sort (compare_commits_desc api) commits)) [
              | inl (inl (sparse, e)) ↦ inl (sparse, rw outside e)
              | inl (inr answer) ↦ inr (rw outside (unsorted candidate commits _ answer))
              | inr all ↦ absurd (
                  let newer =
                    Any-All (λ d. candidate.timestamp < d.timestamp) candidate commits stored
                      (All-sort_inv (compare_commits_desc api)
                        (λ d. candidate.timestamp < d.timestamp) commits all) in
                  omega arith)
            ],
      )
