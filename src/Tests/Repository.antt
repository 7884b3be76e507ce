-- ===== src/Tests/Repository.antt =====
-- repo/repo.ts at a few commits.
use Prim.Native.Nat.{Ordering}
use ovvio.Base.{
  Bool, true, false, some, none, List, [], ◌∷◌, refl, ◌≡◌, ◌↔◌, ℕ_discrete, dec_lt, same, Any,
  arith,
}
use ovvio.Base.Maps
use ovvio.Base.Sets
use ovvio.Base.Text.{str, string_discrete, key_discrete}
use ovvio.Commit.{Commit, Namespace}
use ovvio.Repo.Order.{compare_commits_asc, compare_commits_desc, compare_strings, gt_string, negate}
use ovvio.Repo.Storage.{
  empty, ids_at, store, new_storage, get_commit, collect, commits_for_key, all_keys,
  persist_commits, number_of_commits,
}
use ovvio.Repo.Storage.Append.{empty-IsValid, store-IsValid, commits_for_key_iff}
use ovvio.Repo.Storage.Persist.{Grows, persist_commits-Grows}
use ovvio.Tests.Samples.{records, sample, commit}

program : Unit {0}
unfolding compare_commits_asc compare_commits_desc compare_strings gt_string negate ids_at store
    new_storage get_commit collect commits_for_key all_keys persist_commits number_of_commits
    string_discrete key_discrete ℕ_discrete dec_lt Maps.get Maps.put Sets.add
program = tt

abbrev first : Commit records
first = commit (str "c1") (str "k") none (sample Namespace.notes (str "1"))

abbrev second : Commit records
second = record (commit (str "c2") (str "k") none (sample Namespace.notes (str "2"))) {
  timestamp = 6;
}

abbrev other : Commit records
other = commit (str "c3") (str "l") none (sample Namespace.notes (str "3"))

abbrev same_id : Commit records → Commit records → Bool
same_id c d = same string_discrete c.id d.id

same_id_refl : (c : Commit records) → same_id c c ≡ true
same_id_refl c = ground arith

abbrev given : List (Commit records)
given = first ∷ second ∷ first ∷ other ∷ []

persisted :
    ((persist_commits records same_id (empty records) given).yielded ≡ first ∷ second ∷ other ∷ [])
    × ((persist_commits records same_id (empty records) given).completed ≡ true)
    × (commits_for_key records (new_storage records given) (some (str "k")) ≡ first ∷ second ∷ [])
    × (all_keys records (new_storage records given) ≡ str "k" ∷ str "l" ∷ [])
unfolding program
persisted = (refl, refl, refl, refl)

-- A second commit under a known id fails the assertion.
clash : (persist_commits records (λ c d. false) (empty records) given).completed ≡ false
unfolding program
clash = refl

compared :
    (compare_commits_desc records first second ≡ Ordering.gt)
    × (compare_commits_asc records first other ≡ Ordering.lt)
unfolding program
compared = (refl, refl)

persist_commits-Grows_example :
    Grows records same_id (empty records) (persist_commits records same_id (empty records) given)
persist_commits-Grows_example =
    persist_commits-Grows records same_id (empty records) given (empty-IsValid records)

absent : get_commit records (empty records) (str "c1") ≡ none
unfolding program
absent = refl

commits_for_key_iff_example :
    Any
      (λ d. d ≡ first)
      (commits_for_key records (store records (empty records) first) (some (str "k")))
    ↔ ((get_commit records (store records (empty records) first) (str "c1") ≡ some first)
        × (some (str "k") ≡ some (str "k")))
commits_for_key_iff_example =
    commits_for_key_iff records (store records (empty records) first) (some (str "k")) first
      (store-IsValid records (empty records) first absent (empty-IsValid records))
