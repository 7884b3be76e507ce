-- ===== src/Repo/Merge.antt =====
-- repo/repo.ts: the record of a merge (`createMergeRecord`). The answers of `hasRecordForCommit`
-- and `recordForCommit` are the parameters `has_record` and `record_of`.
pub mod Single
use ovvio.Base.{
  ℕ, Bool, true, false, not, ◌||◌, ◌&&◌, Option, none, some, List, [], ◌∷◌, ◌≡◌, refl, arith, same,
  length, ◌==◌, filter, if◌then◌else◌,
}
use ovvio.Base.Sort.{sort}
use ovvio.Base.Text.{JsString, string_discrete}
use ovvio.Commit.{Records, Commit, Scheme, is_null_scheme, null_scheme, scheme}
use ovvio.Repo.Order.{compare_commits_asc}
use ovvio.Repo.Storage.{RepoStorage}
use ovvio.Repo.Heads.{filter_latest_commits_by_connection}
use ovvio.Repo.MergeBase.{MergeBase, find_merge_base}

module _ (api : Records) (storage : RepoStorage api) where
  open api use {
    Record, Changes, scheme_of, null_record, patch, diff, concat_changes, no_changes,
    upgrade_scheme,
  }

  is_root : Commit api → Bool
  is_root c = elim c.parents [ [] ↦ true | _ ∷ _ ↦ false ]

  -- `if (!scheme.isNull) record.upgradeScheme(scheme)`
  unfoldable pub upgraded : Record → Scheme → Record
  upgraded r s = if is_null_scheme s then r else upgrade_scheme r s

  module _ (has_record : Commit api → Bool) (record_of : Commit api → Record) (session : JsString)
      (fuel : ℕ) where
    -- What the merge goes by, once the roots are set apart. `none` is a root without a scheme, or a
    -- failed assertion of `findMergeBase`.
    unfoldable pub merge_plan :
        List (Commit api) → List (Commit api) → Option (MergeBase api storage has_record)
    merge_plan [] [] = find_merge_base api storage has_record (λ c. scheme_of (record_of c)) fuel []
    merge_plan [] (c ∷ []) =
        some
          (record { commits = c ∷ []; base = none; scheme = scheme_of (record_of c); root = false })
    merge_plan [] (c ∷ d ∷ rest) =
        find_merge_base api storage has_record (λ x. scheme_of (record_of x)) fuel (c ∷ d ∷ rest)
    merge_plan (r ∷ roots) rest = elim (scheme api r) [
      | none ↦ none
      | some s ↦ some (record { commits = rest; base = none; scheme = s; root = true })
    ]

    -- The loop over the roots.
    unfoldable pub root_changes : Changes → List (Commit api) → Changes
    root_changes changes [] = changes
    root_changes changes (c ∷ cs) =
        let r = record_of c in
        root_changes
          (if is_null_scheme (scheme_of r)
            then changes
            else concat_changes changes
                (diff null_record r (same string_discrete c.session session)))
          cs

    -- The loop over the commits to merge.
    unfoldable pub merge_changes : Record → Scheme → Changes → List (Commit api) → Changes
    unfolding upgraded
    merge_changes base s changes [] = changes
    merge_changes base s changes (c ∷ cs) =
        merge_changes base s
          (concat_changes changes
            (diff base (upgraded (record_of c) s) (same string_discrete c.session session)))
          cs

    -- The record that the plan makes.
    unfoldable pub merged :
        List (Commit api) → MergeBase api storage has_record → Record × Option (Commit api)
    unfolding root_changes merge_changes
    merged roots plan =
        let start : Record = elim plan.base [ none ↦ null_record | some lca ↦ record_of lca ] in
        let base = upgraded start plan.scheme in
        let changes = merge_changes base plan.scheme (root_changes no_changes roots) plan.commits in
        (patch base changes, plan.base)

    -- The roots and the other commits, each from the oldest to the newest.
    unfoldable pub merge_parts : List (Commit api) → List (Commit api) × List (Commit api)
    unfolding is_root
    merge_parts commits = (
      sort (compare_commits_asc api) (filter is_root commits),
      sort (compare_commits_asc api) (filter (λ c. not (is_root c)) commits),
    )

    unfoldable pub create_merge_record : List (Commit api) → Option (Record × Option (Commit api))
    unfolding merge_plan merged merge_parts
    create_merge_record given =
        elim (filter has_record (filter_latest_commits_by_connection api given)) [
          | [] ↦ some (null_record, none)
          | c ∷ cs ↦
              let (roots, rest) = merge_parts (c ∷ cs) in
              elim (merge_plan roots rest) [
                | none ↦ none
                | some plan ↦
                    if (length plan.commits == 0) && not plan.root && (length roots == 0)
                    then some (null_record, none)
                    else some (merged roots plan)
              ]
        ]
