-- ===== src/Tests/Before.antt =====
-- repo/repo.ts: the searches back in time and for leaves, at the commits of Merging.
use ovvio.Base.{
  ◌<◌, some, none, [], ◌∷◌, true, false, not, ltb, inl, inr, ◌⊎◌, refl, ◌≡◌, ℕ_discrete, dec_lt,
}
use ovvio.Base.Maps
use ovvio.Base.Sets
use ovvio.Base.Sort.{sort, insert}
use ovvio.Base.Text.{str, string_discrete, key_discrete}
use ovvio.Repo.Order.{compare_commits_desc, compare_commits_asc, compare_strings, gt_string, negate}
use ovvio.Repo.Storage.{ids_at, store, get_commit, commits_for_key, collect}
use ovvio.Repo.Before.{
  is_before, find_commit_before, is_ancestor, find_latest_ancestor_from_commit, IsNewestWith,
  find_commit_before-IsNewest,
}
use ovvio.AdjList
use ovvio.AdjList.{has_in_edges}
use ovvio.Repo.Probable.{commit_in_grace_period, agree, is_sparse, commit_is_high_probability_leaf}
use ovvio.Repo.Probable.Answers.{Answers, commit_is_high_probability_leaf-Answers}
use ovvio.Tests.Samples.{records}
use ovvio.Tests.Merging.{storage, any_record, root, child, left, right}

program : Unit {0}
unfolding is_before find_commit_before is_ancestor find_latest_ancestor_from_commit
    compare_commits_desc compare_commits_asc compare_strings gt_string negate ids_at store
    get_commit commits_for_key collect sort insert Sets.has Sets.add Maps.get Maps.put
    string_discrete key_discrete ℕ_discrete dec_lt has_in_edges commit_in_grace_period agree
    commit_is_high_probability_leaf
program = tt

runs :
    (find_commit_before records storage any_record (some (str "k")) 3 (root.session ∷ [])
      ≡ some child)
    × (find_commit_before records storage any_record (some (str "k")) 1 (root.session ∷ []) ≡ none)
    × (find_latest_ancestor_from_commit records storage any_record right any_record ≡ some left)
unfolding program
runs = (refl, refl, refl)

find_commit_before-IsNewest_example :
    IsNewestWith records storage any_record
      (λ c.
        (c.timestamp < 3)
        × (Sets.has string_discrete c.session (root.session ∷ []) ≡ true)
        × (any_record c ≡ true))
      (storage.commits_for_key (some (str "k")))
      (find_commit_before records storage any_record (some (str "k")) 3 (root.session ∷ []))
find_commit_before-IsNewest_example =
    find_commit_before-IsNewest records storage any_record (some (str "k")) 3 (root.session ∷ [])

-- To another client: the newer commit has the older one in its filter, or has not and was seen
-- more than three seconds before.
leaves :
    (commit_is_high_probability_leaf records
        (str "x")
        (λ c id. true)
        9
        9
        AdjList.empty
        storage
        []
        left
      ≡ some ([], false))
    × (commit_is_high_probability_leaf records
          (str "x")
          (λ c id. false)
          9
          9000
          AdjList.empty
          storage
          ((str "m", 5) ∷ [])
          left
        ≡ some ((str "m", 5) ∷ [], not (ltb 3000 8995)))
unfolding program
leaves = (refl, refl)

commit_is_high_probability_leaf-Answers_example :
    (has_in_edges AdjList.empty left.id ≡ true
      → commit_is_high_probability_leaf records
          (str "sa")
          (λ c id. true)
          9
          9
          AdjList.empty
          storage
          []
          left
        ≡ some ([], false))
    × (has_in_edges AdjList.empty left.id ≡ false
        → (is_sparse records
                (str "sa")
                (λ c id. true)
                9
                9
                (sort (compare_commits_desc records) (storage.commits_for_key left.key))
              ≡ true)
            × (commit_is_high_probability_leaf records
                  (str "sa")
                  (λ c id. true)
                  9
                  9
                  AdjList.empty
                  storage
                  []
                  left
                ≡ some ([], true))
          ⊎ Answers records
              (str "sa")
              (λ c id. true)
              9
              9
              left
              (storage.commits_for_key left.key)
              (commit_is_high_probability_leaf records
                (str "sa")
                (λ c id. true)
                9
                9
                AdjList.empty
                storage
                []
                left))
unfolding program
commit_is_high_probability_leaf-Answers_example =
    commit_is_high_probability_leaf-Answers records (str "sa") (λ c id. true) 9 9 AdjList.empty
      storage [] left (inr (inr (inl refl)))
