-- ===== src/Repo/Heads.antt =====
-- repo/repo.ts: the leaves and the head of a key (`commitsForKey`, `leavesForKey`,
-- `filterLatestCommitsByConnection`, `pickBestCommitForCurrentClient`, `headForKey`). The answers
-- of `hasRecordForCommit`, which Records/Answers describes, are the parameter `has_record`.
pub mod Best
pub mod Latest
pub mod Leaves
pub mod Head
use ovvio.Base.{
  ℕ, Bool, true, false, not, ◌&&◌, ◌||◌, Option, none, some, List, [], ◌∷◌, same, ltb, filter, map,
  find_first, if◌then◌else◌,
}
use ovvio.Base.Maps
use ovvio.Base.Maps.{Map}
use ovvio.Base.Sort.{sort}
use ovvio.Base.Text.{JsString, string_discrete}
use ovvio.AdjList.{AdjList, has_in_edges}
use ovvio.Commit.{Records, Commit}
use ovvio.Repo.Order.{compare_commits_desc}

module _ (api : Records) where
  -- `commitsForKey` over the commits of the storage. `rights` are the authorizer's answers for the
  -- calling session, where the repository has an authorizer and the session is not its own.
  unfoldable pub visible_commits :
      Option (Commit api → Bool) → List (Commit api) → List (Commit api)
  visible_commits none commits = commits
  visible_commits (some rights) commits = filter rights commits

  -- The commit stands under its connection, where it is the first or the newest.
  unfoldable pub keep_latest : Map JsString (Commit api) → Commit api → Map JsString (Commit api)
  keep_latest m c = elim (Maps.get string_discrete c.connection_id m) [
    | none ↦ Maps.put string_discrete c.connection_id c m
    | some prev ↦
        if ltb prev.timestamp c.timestamp then Maps.put string_discrete c.connection_id c m else m
  ]

  -- The loop of `filterLatestCommitsByConnection`.
  unfoldable pub by_connection :
      Map JsString (Commit api) → List (Commit api) → Map JsString (Commit api)
  unfolding keep_latest
  by_connection m [] = m
  by_connection m (c ∷ cs) = by_connection (keep_latest m c) cs

  unfoldable pub filter_latest_commits_by_connection : List (Commit api) → List (Commit api)
  unfolding by_connection
  filter_latest_commits_by_connection commits = map (λ e. e.1) (by_connection [] commits)

  module _ (has_record : Commit api → Bool) where
    unfoldable pub leaves_for_key :
        AdjList → Option (Commit api → Bool) → List (Commit api) → List (Commit api)
    unfolding visible_commits has_in_edges filter_latest_commits_by_connection
    leaves_for_key adj_list rights commits = filter_latest_commits_by_connection (
        filter (λ c. not (has_in_edges adj_list c.id) && has_record c)
          (visible_commits rights commits))

    module _ (connection session : JsString) where
      -- The three loops, over commits that are sorted.
      unfoldable pub pick_from : List (Commit api) → Option (Commit api)
      pick_from commits =
          elim (find_first (λ c. same string_discrete c.connection_id connection && has_record c)
            commits) [
              | some c ↦ some c
              | none ↦
                  elim (find_first (λ c. same string_discrete c.session session && has_record c)
                    commits) [ some c ↦ some c | none ↦ find_first has_record commits ]
            ]

      unfoldable pub pick_best_commit_for_current_client : List (Commit api) → Option (Commit api)
      unfolding pick_from
      pick_best_commit_for_current_client commits =
          pick_from (sort (compare_commits_desc api) commits)

      -- `cacheHeadForKey` drops a head without a record.
      unfoldable pub cache_head : Option (Commit api) → Option (Commit api)
      cache_head none = none
      cache_head (some c) = if has_record c then some c else none

      -- `headForKey` behind the branch of a cached head. That branch is left out: it asks for a head
      -- whose session is the id of the connection.
      unfoldable pub head_for_key : AdjList → List (Commit api) → Option (Commit api)
      unfolding leaves_for_key pick_best_commit_for_current_client cache_head
      head_for_key adj_list commits =
          let fallback = cache_head (pick_best_commit_for_current_client commits) in
          elim (leaves_for_key adj_list none commits) [
            | [] ↦ fallback
            | c ∷ [] ↦ if has_record c then cache_head (some c) else fallback
            | c ∷ d ∷ leaves ↦ elim (pick_best_commit_for_current_client (c ∷ d ∷ leaves)) [
              | none ↦ fallback
              | some head ↦ cache_head (some head)
            ]
          ]
