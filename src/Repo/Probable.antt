-- ===== src/Repo/Probable.antt =====
-- repo/repo.ts: whether a commit is a leaf where the graph may have gaps
-- (`commitIsHighProbabilityLeaf`, `commitInGracePeriod`). `in_filter c id` is the answer of
-- `c.ancestorsFilter.has(id)`. The logarithms are compared by powers of two, and the clock is read
-- twice in a call. `none` is a commit that is undefined.
pub mod Answers
use ovvio.Base.{
  ℕ, suc, ◌-◌, ◌≤◌, ◌<◌, Bool, true, false, not, Option, none, some, List, [], ◌∷◌, ◌≡◌, refl, same,
  ltb, leb, ◌==◌, length, if◌then◌else◌, All, Any, Any-All, All-self, Bool-cases, inl, inr, ◌⊎◌,
  arith,
}
use Prim.Native.Nat.{◌^◌}
use ovvio.Base.Maps
use ovvio.Base.Maps.{Map}
use ovvio.Base.Sort.{sort, All-sort}
use ovvio.Base.Text.{JsString, string_discrete}
use ovvio.AdjList.{AdjList, has_in_edges}
use ovvio.Collections.Search.Sorting.{All-sort_inv}
use ovvio.Commit.{Records, Commit}
use ovvio.Repo.Order.{compare_commits_desc}
use ovvio.Repo.Storage.{RepoStorage}

module _ (api : Records) where
  -- `gFirstSeenCommit`
  abbrev pub FirstSeen : Type 0
  FirstSeen = Map JsString ℕ

  unfoldable pub commit_in_grace_period : FirstSeen → ℕ → ℕ → Commit api → FirstSeen × Bool
  commit_in_grace_period seen now later c =
      let known : ℕ = elim (Maps.get string_discrete c.id seen) [ none ↦ 0 | some t ↦ t ] in
      if known == 0
      then (Maps.put string_discrete c.id now seen, ltb 3000 (later - now))
      else (seen, ltb 3000 (later - known))

  abbrev pub last_commit : Commit api → List (Commit api) → Commit api
  last_commit c [] = c
  last_commit c (d ∷ cs) = last_commit d cs

  module _ (session : JsString) (in_filter : Commit api → JsString → Bool) (now later : ℕ) where
    abbrev pub is_own : Commit api → Bool
    is_own c = same string_discrete c.session session

    -- The loop, from the index `i`.
    unfoldable pub agree :
        JsString → ℕ → ℕ → FirstSeen → ℕ → List (Commit api) → Option (FirstSeen × Bool)
    unfolding commit_in_grace_period
    agree id date_cutoff graph_size seen i [] =
        if leb (2 ^ i) graph_size then none else some (seen, false)
    agree id date_cutoff graph_size seen i (c ∷ commits) =
        let rest = agree id date_cutoff graph_size seen (suc i) commits in
        let (seen', grace) = commit_in_grace_period seen now later c in
        if leb (2 ^ i) graph_size
        then (if leb c.timestamp date_cutoff
            then some (seen, is_own c)
            else if in_filter c id
            then rest
            else if is_own c
            then some (seen, true)
            else some (seen', not grace))
        else some (seen, false)

    abbrev pub graph_size : Commit api → List (Commit api) → ℕ
    graph_size c commits =
        let ancestors = (last_commit c commits).ancestors_count in
        let size = length (c ∷ commits) in if ltb size ancestors then ancestors else size

    -- `commitsForKey.length < agreementSize`
    abbrev pub is_sparse : List (Commit api) → Bool
    is_sparse [] = false
    is_sparse (c ∷ commits) = ltb (2 ^ length (c ∷ commits)) (graph_size c commits)

    -- Over the sorted commits of the key.
    abbrev pub by_agreement : FirstSeen → Commit api → List (Commit api) → Option (FirstSeen × Bool)
    by_agreement seen candidate [] = none
    by_agreement seen candidate (c ∷ commits) =
        if is_sparse (c ∷ commits)
        then some (seen, true)
        else agree candidate.id candidate.timestamp (graph_size c commits) seen 0 (c ∷ commits)

    unfoldable pub commit_is_high_probability_leaf :
        AdjList → RepoStorage api → FirstSeen → Commit api → Option (FirstSeen × Bool)
    unfolding agree has_in_edges
    commit_is_high_probability_leaf adj_list storage seen candidate =
        if has_in_edges adj_list candidate.id
        then some (seen, false)
        else by_agreement seen candidate
            (sort (compare_commits_desc api) (storage.commits_for_key candidate.key))

    -- With the id of a commit in its place.
    unfoldable pub id_is_high_probability_leaf :
        AdjList → RepoStorage api → FirstSeen → JsString → Option (FirstSeen × Bool)
    unfolding commit_is_high_probability_leaf
    id_is_high_probability_leaf adj_list storage seen id =
        if has_in_edges adj_list id then some (seen, false) else elim (storage.get_commit id) [
          | none ↦ some (seen, false)
          | some c ↦ commit_is_high_probability_leaf adj_list storage seen c
        ]
