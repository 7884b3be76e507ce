-- ===== src/Tests/Linking.antt =====
-- repo/repo.ts at a small history: four commits enter a repository.
use ovvio.Base.{
  Bool, true, false, some, List, [], ◌∷◌, refl, ◌≡◌, ◌⊎◌, ◌↔◌, inl, inr, ℕ_discrete, dec_lt, same,
  Any, arith, All, filter,
}
use ovvio.Base.Maps
use ovvio.Base.Sets
use ovvio.Base.Text.{JsString, str, string_discrete, key_discrete}
use ovvio.AdjList
use ovvio.AdjList.{hash_edge, eq_edges, set_at, add_side, add_edge, has_in_edges}
use ovvio.AdjList.Sync.{is_edge, empty-IsSynced}
use ovvio.AdjList.Edges.{side_has}
use ovvio.Collections.HashSet
use ovvio.Commit.{Commit}
use ovvio.Repo.Storage.{empty, ids_at, store, get_commit, persist_commits}
use ovvio.Repo.Storage.Append.{empty-IsValid}
use ovvio.Repo.Link.{
  is_ours, Repo, Outcome, slices_from, slices, link_parents, link_batch, persist_batches,
  persist_verified_commits,
}
use ovvio.Repo.Link.Linked.{IsLinked, IsTaken, has_in_edges-Links, persist_verified-IsLinked}
use ovvio.Tests.Samples.{records}
use ovvio.Tests.Merging.{root, child, left, right}

unfoldable parents_discrete : Discrete (List JsString)
unfolding string_discrete
parents_discrete = hlevel string_discrete

program : Unit {0}
unfolding hash_edge eq_edges set_at add_side add_edge has_in_edges HashSet.add HashSet.has
    HashSet.find HashSet.size ids_at store get_commit persist_commits slices_from slices
    link_parents link_batch persist_batches persist_verified_commits parents_discrete
    string_discrete key_discrete ℕ_discrete dec_lt Maps.get Maps.put Sets.add
program = tt

abbrev new_repo : Repo records
new_repo = record { storage = empty records; adj_list = AdjList.empty }

new_repo-IsLinked : IsLinked records new_repo
new_repo-IsLinked = record {
  stored = empty-IsValid records;
  synced = empty-IsSynced;
  linked = λ child p f.
      (λ h. absurd (no_edge child p f h), λ (c, at, named, m). absurd (no_commit child c at));
}
  where
    no_edge : (child p f : JsString) → is_edge AdjList.empty child p f ≡ true → ⊥
    no_edge child p f h = unfold is_edge side_has set_at Maps.get HashSet.has in cc

    no_commit :
        (child : JsString) (c : Commit records)
        → get_commit records (empty records) child ≡ some c
        → ⊥
    no_commit child c at = unfold get_commit Maps.get in cc

abbrev same_parents : Commit records → Commit records → Bool
same_parents c d = same parents_discrete d.parents c.parents

same_parents_lem : (c d : Commit records) → same_parents c d ≡ true → d.parents ≡ c.parents
same_parents_lem c d h = ground arith

abbrev outcome : Outcome records
outcome =
    persist_verified_commits records same_parents (str "org") new_repo
      (root ∷ child ∷ left ∷ right ∷ child ∷ [])

four :
    (outcome.result ≡ root ∷ child ∷ left ∷ right ∷ [])
    × (outcome.completed ≡ true)
    × (has_in_edges outcome.repo.adj_list (str "a") ≡ true)
    × (has_in_edges outcome.repo.adj_list (str "l") ≡ false)
unfolding program
four = (refl, refl, refl, refl)

abbrev given : List (Commit records)
given = root ∷ child ∷ left ∷ right ∷ child ∷ []

persist_verified-IsLinked_example :
    (outcome.completed ≡ true)
      × IsLinked records outcome.repo
      × ((id : JsString) (c : Commit records)
          → get_commit records new_repo.storage id ≡ some c
          → get_commit records outcome.repo.storage id ≡ some c)
      × All
          (IsTaken records same_parents same_parents_lem outcome.repo.storage)
          (filter (is_ours records (str "org")) given)
    ⊎ (outcome.completed ≡ false)
      × ((c : Commit records) × (d : Commit records) × Any
            (λ x. x ≡ c)
            (filter (is_ours records (str "org")) given)
          × (get_commit records outcome.repo.storage c.id ≡ some d)
          × (same_parents c d ≡ false))
persist_verified-IsLinked_example =
    persist_verified-IsLinked records same_parents same_parents_lem (str "org") new_repo
      (root ∷ child ∷ left ∷ right ∷ child ∷ []) new_repo-IsLinked

outcome-IsLinked : IsLinked records outcome.repo
outcome-IsLinked =
    elim (persist_verified-IsLinked records same_parents same_parents_lem (str "org") new_repo
      (root ∷ child ∷ left ∷ right ∷ child ∷ []) new_repo-IsLinked) [
        | inl (done, l, kept, taken) ↦ l
        | inr (failed, clash) ↦ absurd (let done = four.1 in cc)
      ]

has_in_edges-Links_example : (has_in_edges outcome.repo.adj_list (str "a") ≡ true) ↔ (
    (c : Commit records) × (get_commit records outcome.repo.storage c.id ≡ some c)
    × Any (λ x. x ≡ str "a") c.parents)
has_in_edges-Links_example = has_in_edges-Links records outcome.repo (str "a") outcome-IsLinked
