-- ===== src/Repo/Merge/Single.antt =====
-- repo/repo.ts: the record of a merge where there is nothing to merge.
use ovvio.Base.{
  ℕ, Bool, true, false, Option, none, some, List, [], ◌∷◌, ◌≡◌, refl, arith, same, All, Any-All,
  filter,
}
use ovvio.Base.Maps
use ovvio.Base.Sort.{sort, insert}
use ovvio.Base.Text.{JsString, string_discrete}
use ovvio.Collections.Search.Bounds.{All-mono}
use ovvio.Commit.{Records, Commit}
use ovvio.Repo.Storage.{RepoStorage}
use ovvio.Repo.Heads.{by_connection, keep_latest, filter_latest_commits_by_connection}
use ovvio.Repo.Heads.Leaves.{filter_latest-kept}
use ovvio.Repo.Merge.{
  upgraded, merge_plan, merge_parts, root_changes, merge_changes, merged, create_merge_record,
}

module _ (api : Records) (storage : RepoStorage api) (has_record : Commit api → Bool)
    (record_of : Commit api → api.Record) (session : JsString) (fuel : ℕ) where
  open api use {Record, Changes, scheme_of, null_record, patch, diff, concat_changes, no_changes}

  abbrev merge : List (Commit api) → Option (Record × Option (Commit api))
  merge = create_merge_record api storage has_record record_of session fuel

  filter-none :
      (xs : List (Commit api)) → All (λ c. has_record c ≡ false) xs → filter has_record xs ≡ []
  filter-none [] h = refl
  filter-none (x ∷ xs) h = let e = h.0 in ground (arith, filter-none xs h.1)

  -- Where no commit has a record, the merge makes the null record, without a base.
  pub merge_unreadable :
      (commits : List (Commit api))
      → All (λ c. has_record c ≡ false) commits
      → merge commits ≡ some (null_record, none)
  unfolding create_merge_record
  merge_unreadable commits h =
      let latest = filter_latest_commits_by_connection api commits in
      let nothing : filter has_record latest ≡ [] = filter-none latest (
        All-mono _ _ latest (λ c m. Any-All (λ d. has_record d ≡ false) c commits m h)
          (filter_latest-kept api commits).0) in
      ground arith

  -- The merge of one commit that has a record and parents makes that record, upgraded to its own
  -- scheme, without a base, if the changes that `diff` computes lead from one record to the other.
  pub merge_single :
      (c : Commit api) (p : JsString) (ps : List JsString)
      → ((b r : Record) (o : Bool) → patch b (diff b r o) ≡ r)
      → ((d : Changes) → concat_changes no_changes d ≡ d)
      → has_record c ≡ true
      → c.parents ≡ p ∷ ps
      → merge (c ∷ []) ≡ some (upgraded api storage (record_of c) (scheme_of (record_of c)), none)
  unfolding create_merge_record filter_latest_commits_by_connection by_connection keep_latest
      Maps.get Maps.put merge_parts sort insert merge_plan merged root_changes merge_changes
  merge_single c p ps law unit has e =
      let r = record_of c in
      let s = scheme_of r in
      let base = upgraded api storage null_record s in
      ground (
        arith,
        law base (upgraded api storage r s) (same string_discrete c.session session),
        unit (diff base (upgraded api storage r s) (same string_discrete c.session session)),
      )
