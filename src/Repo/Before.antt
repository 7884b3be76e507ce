-- ===== src/Repo/Before.antt =====
-- repo/repo.ts: the searches back in time of a key (`findCommitBefore`,
-- `findLatestAncestorFromCommit`). The answers of `hasRecordForCommit` are a parameter.
use ovvio.Base.{
  ℕ, ◌≤◌, ◌<◌, ◌↔◌, Bool, true, false, ◌&&◌, Option, none, some, List, ◌≡◌, inl, inr, ltb,
  find_first, arith, All, Any, All-self, ◌≢◌, sym, subst,
}
use Prim.Native.Nat.{Ordering}
use ovvio.Base.Sets
use ovvio.Base.Sort.{sort}
use ovvio.Base.Text.{JsString, string_discrete}
use ovvio.Collections.Search.Bounds.{All-mono}
use ovvio.Collections.Search.Sorting.{find_first_cases, find_first-sort}
use ovvio.Commit.{Records, Commit}
use ovvio.Repo.Order.{compare_commits_desc, compare_commits_asc, negate}
use ovvio.Repo.Order.Total.{compare_commits_desc-IsOrder}
use ovvio.Repo.Storage.{RepoStorage}

module _ (api : Records) (storage : RepoStorage api) (has_record : Commit api → Bool) where
  -- The test of the loop of `findCommitBefore`.
  unfoldable pub is_before : ℕ → List JsString → Commit api → Bool
  is_before ts sessions candidate =
      ltb candidate.timestamp ts
      && (Sets.has string_discrete candidate.session sessions && has_record candidate)

  unfoldable pub find_commit_before : Option JsString → ℕ → List JsString → Option (Commit api)
  unfolding is_before
  find_commit_before key ts sessions =
      find_first (is_before ts sessions)
        (sort (compare_commits_desc api) (storage.commits_for_key key))

  -- The test of the loop of `findLatestAncestorFromCommit`.
  unfoldable pub is_ancestor : (Commit api → Bool) → Commit api → Commit api → Bool
  is_ancestor filter commit c = has_record c && (ltb c.timestamp commit.timestamp && filter c)

  unfoldable pub find_latest_ancestor_from_commit :
      Commit api → (Commit api → Bool) → Option (Commit api)
  unfolding is_ancestor
  find_latest_ancestor_from_commit commit filter =
      find_first (is_ancestor filter commit)
        (sort (compare_commits_desc api) (storage.commits_for_key commit.key))

  -- With the id of a commit in its place.
  unfoldable pub find_latest_ancestor_from_id : JsString → (Commit api → Bool) → Option (Commit api)
  unfolding find_latest_ancestor_from_commit
  find_latest_ancestor_from_id id filter = elim (storage.get_commit id) [
    | none ↦ none
    | some commit ↦ find_latest_ancestor_from_commit commit filter
  ]

  -- Of the commits that pass a test, a newest one, where there is one.
  abbrev pub IsNewest : (Commit api → Bool) → List (Commit api) → Option (Commit api) → Type 0
  IsNewest p xs none = All (λ d. p d ≡ false) xs
  IsNewest p xs (some c) =
      (p c ≡ true) × Any (λ d. d ≡ c) xs × All (λ d. p d ≡ true → d.timestamp ≤ c.timestamp) xs

  le_of_order :
      (c d : Commit api) → compare_commits_desc api c d ≢ Ordering.gt → d.timestamp ≤ c.timestamp
  unfolding compare_commits_desc compare_commits_asc negate
  le_of_order c d h = ground arith

  find_first-IsNewest :
      (p : Commit api → Bool) (xs : List (Commit api))
      → IsNewest p xs (find_first p (sort (compare_commits_desc api) xs))
  find_first-IsNewest p xs = elim (find_first_cases (compare_commits_desc api) p xs) [
    | inl (nothing, out) ↦ subst (IsNewest p xs) (sym nothing) out
    | inr (c, found, pass, mem) ↦
        let first =
          find_first-sort (compare_commits_desc api) (compare_commits_desc-IsOrder api) p xs c
            found in
        subst (IsNewest p xs) (sym found)
          (pass, mem _ (All-self xs), All-mono _ _ xs (λ d h q. le_of_order c d (h q)) first)
  ]

  -- Of the commits with a property, a newest one, where there is one.
  abbrev pub IsNewestWith : (Commit api → Type 0) → List (Commit api) → Option (Commit api) → Type 0
  IsNewestWith P xs none = All (λ d. ¬ P d) xs
  IsNewestWith P xs (some c) =
      P c × Any (λ d. d ≡ c) xs × All (λ d. P d → d.timestamp ≤ c.timestamp) xs

  newest_with :
      (p : Commit api → Bool) (P : Commit api → Type 0)
      → ((c : Commit api) → (p c ≡ true) ↔ P c)
      → (xs : List (Commit api)) (o : Option (Commit api)) → IsNewest p xs o
      → IsNewestWith P xs o
  newest_with p P e xs none h = All-mono _ _ xs (λ d out q. absurd (let is = (e d).1 q in cc)) h
  newest_with p P e xs (some c) (pass, m, h) =
      ((e c).0 pass, m, All-mono _ _ xs (λ d k q. k ((e d).1 q)) h)

  -- The commit is a newest one of the key among those that are older than the time, are of one of the
  -- sessions and have a record; no commit is found only where there is none such.
  pub find_commit_before-IsNewest :
      (key : Option JsString) (ts : ℕ) (sessions : List JsString)
      → IsNewestWith
          (λ c.
            (c.timestamp < ts)
            × (Sets.has string_discrete c.session sessions ≡ true)
            × (has_record c ≡ true))
          (storage.commits_for_key key)
          (find_commit_before key ts sessions)
  unfolding find_commit_before is_before
  find_commit_before-IsNewest key ts sessions =
      newest_with (is_before ts sessions) _
        (λ c. (λ h. (ground arith, ground arith, ground arith), λ (old, mine, has). ground arith))
        (storage.commits_for_key key) (find_commit_before key ts sessions)
        (find_first-IsNewest (is_before ts sessions) (storage.commits_for_key key))

  -- The commit is a newest one of the key among those older than the given commit, with a record
  -- and accepted by the filter; no commit is found only where there is none such.
  pub find_latest_ancestor_from_commit-IsNewest :
      (commit : Commit api) (filter : Commit api → Bool)
      → IsNewest
          (is_ancestor filter commit)
          (storage.commits_for_key commit.key)
          (find_latest_ancestor_from_commit commit filter)
  unfolding find_latest_ancestor_from_commit
  find_latest_ancestor_from_commit-IsNewest commit filter =
      find_first-IsNewest (is_ancestor filter commit) (storage.commits_for_key commit.key)
