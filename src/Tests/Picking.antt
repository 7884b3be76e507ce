-- ===== src/Tests/Picking.antt =====
-- repo/repo.ts at three commits: the leaves and the head of a key.
use ovvio.Base.{
  Bool, true, false, some, none, List, [], ◌∷◌, refl, ◌≡◌, ◌⊎◌, ℕ_discrete, dec_lt, All, Any,
}
use ovvio.Base.Maps
use ovvio.Base.Sets
use ovvio.Base.Sort.{sort, insert}
use ovvio.Base.Text.{str, string_discrete, key_discrete}
use ovvio.Commit.{Commit, contents_is_record, contents_checksum, scheme}
use ovvio.AdjList.{AdjList, has_in_edges}
use ovvio.AdjList
use ovvio.Authorizer.{namespace_discrete}
use ovvio.Repo.Order.{compare_commits_desc, compare_commits_asc, compare_strings, gt_string, negate}
use ovvio.Repo.Storage.{ids_at, store, get_commit, collect, commits_for_key}
use ovvio.Repo.Records.{
  bind, mark, remember, fits, has_commit, record_for_id, commit_is_corrupted, has_record_for_commit,
  fallback_record, first_good, find_latest_non_corrupted_commit_for_key, record_for_commit,
}
use ovvio.Repo.Records.Readable.{
  readable, is_corrupted, value, first_readable, latest_readable, substitute,
}
use ovvio.Repo.Heads.{
  visible_commits, keep_latest, by_connection, filter_latest_commits_by_connection, leaves_for_key,
  pick_from, pick_best_commit_for_current_client, cache_head, head_for_key,
}
use ovvio.Repo.Heads.Best.{best, IsBest, pick_best-IsBest}
use ovvio.Repo.Heads.Head.{IsHead, head_for_key-IsHead}
use ovvio.Repo.Delta.{
  last_record_commit, last_record_commit_for_key, edit_from, is_session_commit, delta_commit,
  delta_compress_if_needed,
}
use ovvio.Tests.Samples.{records}
use ovvio.Tests.Reading.{full, good, bad}

program : Unit {0}
unfolding compare_commits_desc compare_commits_asc compare_strings gt_string negate ids_at store
    get_commit collect commits_for_key bind mark remember fits has_commit record_for_id
    commit_is_corrupted has_record_for_commit fallback_record first_good
    find_latest_non_corrupted_commit_for_key record_for_commit readable is_corrupted value
    first_readable latest_readable substitute visible_commits keep_latest by_connection
    filter_latest_commits_by_connection leaves_for_key pick_from pick_best_commit_for_current_client
    cache_head head_for_key last_record_commit last_record_commit_for_key edit_from
    is_session_commit namespace_discrete delta_commit delta_compress_if_needed contents_is_record
    contents_checksum scheme has_in_edges string_discrete key_discrete ℕ_discrete dec_lt Maps.get
    Maps.put Sets.add Sets.has sort insert
program = tt

abbrev any_record : Commit records → Bool
any_record c = true

abbrev three : List (Commit records)
three = full ∷ good ∷ bad ∷ []

picked :
    (pick_best_commit_for_current_client records any_record (str "c1") (str "sa") three ≡ some full)
    × (pick_best_commit_for_current_client records any_record (str "c9") (str "sa") three
        ≡ some bad)
    × (filter_latest_commits_by_connection records three ≡ full ∷ bad ∷ [])
    × (head_for_key records any_record (str "c9") (str "s") AdjList.empty three ≡ some bad)
unfolding program
picked = (refl, refl, refl, refl)

pick_best-IsBest_example :
    (best records any_record (str "c9") (str "sa") three ≡ none)
      × All (λ d. any_record d ≡ false) three
    ⊎ ((c : Commit records) × (best records any_record (str "c9") (str "sa") three ≡ some c)
        × Any (λ d. d ≡ c) three
        × (any_record c ≡ true)
        × IsBest records any_record (str "c9") (str "sa") c three)
pick_best-IsBest_example = pick_best-IsBest records any_record (str "c9") (str "sa") three

head_for_key-IsHead_example :
    IsHead records any_record
      (str "c9")
      (str "sa")
      AdjList.empty
      three
      (head_for_key records any_record (str "c9") (str "sa") AdjList.empty three)
head_for_key-IsHead_example =
    head_for_key-IsHead records any_record (str "c9") (str "sa") AdjList.empty three
