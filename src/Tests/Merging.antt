-- ===== src/Tests/Merging.antt =====
-- repo/repo.ts at a small history: merge bases and merges.
use ovvio.Base.{
  ℕ, Bool, true, false, some, none, Option, List, [], ◌∷◌, refl, ◌≡◌, ◌⊎◌, inl, inr, subst,
  ℕ_discrete, dec_lt, same, Any, All, arith,
}
use ovvio.Base.Maps
use ovvio.Base.Sets
use ovvio.Base.Sort.{sort, insert}
use ovvio.Base.Text.{JsString, str, string_discrete, key_discrete}
use ovvio.Authorizer.{namespace_discrete}
use ovvio.Commit.{Commit, Contents, Namespace, Scheme, is_null_scheme, contents_checksum, scheme}
use ovvio.Repo.Order.{compare_commits_desc, compare_commits_asc, compare_strings, gt_string, negate}
use ovvio.Repo.Storage.{MemRepoStorage, RepoStorage, empty, ids_at, store, get_commit, storage_of}
use ovvio.Repo.Storage.Append
use ovvio.Repo.Storage.Append.{empty-IsValid, get_commit-store, store-IsValid}
use ovvio.Repo.Heads.{keep_latest, by_connection, filter_latest_commits_by_connection}
use ovvio.Repo.MergeBase.{
  has_id, set_of, intersection, add_parents, expand_commit, expand_id, expand, known_commits,
  common_base, search, find_lca_merge_base, MergeBase, join, consider, consider_all,
  find_merge_base,
}
use ovvio.Repo.MergeBase.Lca.{IsBaseOf, find_lca-IsBaseOf}
use ovvio.Repo.MergeBase.Rounds.{find_lca-total}
use ovvio.Repo.Unique.{
  supersedes, place, place_all, commits_with_unique_records, Covers, AllFollow, unique-AllFollow,
}
use ovvio.Repo.Merge.{
  upgraded, merge_plan, root_changes, merge_changes, merged, merge_parts, create_merge_record,
}
use ovvio.Tests.Samples.{Sample, null_sample, records, sample, commit}

program : Unit {0}
unfolding compare_commits_desc compare_commits_asc compare_strings gt_string negate ids_at store
    get_commit keep_latest by_connection filter_latest_commits_by_connection set_of intersection
    add_parents expand_commit expand_id expand known_commits common_base search find_lca_merge_base
    join consider consider_all find_merge_base supersedes place place_all
    commits_with_unique_records upgraded merge_plan root_changes merge_changes merged merge_parts
    create_merge_record is_null_scheme contents_checksum scheme namespace_discrete string_discrete
    key_discrete ℕ_discrete dec_lt Maps.get Maps.put Sets.add Sets.has sort insert
program = tt

abbrev pub version : JsString → List JsString → ℕ → JsString → Commit records
version id parents time sum = record (commit id (str "k") none (sample Namespace.notes sum)) {
  parents = parents;
  timestamp = time;
  connection_id = id;
}

-- A root, one child of it, and two commits on that.
abbrev pub root : Commit records
root = version (str "r") [] 1 (str "1")

abbrev pub child : Commit records
child = version (str "a") (str "r" ∷ []) 2 (str "2")

abbrev pub left : Commit records
left = version (str "l") (str "a" ∷ []) 3 (str "3")

abbrev pub right : Commit records
right = version (str "m") (str "a" ∷ []) 4 (str "4")

abbrev pub older : MemRepoStorage records
older = store records (store records (empty records) root) child

abbrev pub stored : MemRepoStorage records
stored = store records (store records older left) right

abbrev pub storage : RepoStorage records
storage = storage_of records stored

abbrev pub any_record : Commit records → Bool
any_record c = true

abbrev ids : List JsString
ids = str "r" ∷ str "a" ∷ []

lca_of_all :
    (find_lca_merge_base records storage any_record 5 left right ≡ some (some child, false))
    × (find_lca_merge_base records storage any_record 5 root right ≡ some (none, true))
    × (find_lca_merge_base records storage any_record 5 child right ≡ some (some child, false))
unfolding program
lca_of_all = (refl, refl, refl)

facts :
    (get_commit records (empty records) (str "r") ≡ none)
    × (get_commit records (store records (empty records) root) (str "a") ≡ none)
    × (get_commit records older (str "l") ≡ none)
    × (get_commit records (store records older left) (str "m") ≡ none)
unfolding program
facts = (refl, refl, refl, refl)

stored-IsValid : Append.IsValid records stored
stored-IsValid = store-IsValid records _ right facts.3 (
    store-IsValid records _ left facts.2 (
      store-IsValid records _ child facts.1
        (store-IsValid records (empty records) root facts.0 (empty-IsValid records))))

nothing : (id : JsString) → get_commit records (empty records) id ≡ none
unfolding get_commit Maps.get
nothing id = refl

one_of :
    (id : JsString) (c : Commit records)
    → get_commit records stored id ≡ some c
    → (root ≡ c) ⊎ (child ≡ c) ⊎ (left ≡ c) ⊎ (right ≡ c)
one_of id c h = ground (
  arith,
  get_commit-store records (store records older left) right id,
  get_commit-store records older left id,
  get_commit-store records (store records (empty records) root) child id,
  get_commit-store records (empty records) root id,
  nothing id,
)

abbrev Listed : Commit records → Type 0
Listed c = All (λ p. has_id p ids ≡ true) c.parents

listed : Listed root × Listed child × Listed left × Listed right
unfolding program
listed = (tt, (refl, tt), (refl, tt), (refl, tt))

closed : (id : JsString) (c : Commit records) → get_commit records stored id ≡ some c → Listed c
closed id c h = elim (one_of id c h) [
  | inl e ↦ subst Listed e listed.0
  | inr (inl e) ↦ subst Listed e listed.1
  | inr (inr (inl e)) ↦ subst Listed e listed.2
  | inr (inr (inr e)) ↦ subst Listed e listed.3
]

find_lca-total_example :
    (r : Option (Commit records) × Bool) × (find_lca_merge_base records storage any_record 5 left
        right
      ≡ some r)
find_lca-total_example =
    find_lca-total records storage ids closed any_record 5 left right (omega arith)

find_lca-IsBaseOf_example :
    (any_record child ≡ true)
    × ((child ≡ left) ⊎ (child ≡ right) ⊎ (storage.get_commit child.id ≡ some child))
    × ((contents_checksum records left ≡ contents_checksum records right) × (child ≡ left)
        ⊎ IsBaseOf records storage any_record left right left child
          × IsBaseOf records storage any_record left right right child)
find_lca-IsBaseOf_example =
    find_lca-IsBaseOf records storage any_record left right 5 false child stored-IsValid.named refl
      refl lca_of_all.0

abbrev scheme_of : Commit records → Scheme
scheme_of c = elim c.contents [
  | Contents.full r ↦ r.scheme
  | Contents.delta b e ↦ null_sample.scheme
]

abbrev plan : MergeBase records storage any_record
plan = record {
  commits = left ∷ right ∷ [];
  base = some child;
  scheme = scheme_of left;
  root = false;
}

planned : find_merge_base records storage any_record scheme_of 5 (left ∷ right ∷ []) ≡ some plan
unfolding program
planned = refl

-- The same contents as `right`, but older and of another connection.
abbrev again : Commit records
again = version (str "n") (str "a" ∷ []) 2 (str "4")

unique_three :
    commits_with_unique_records records (str "x") (left ∷ again ∷ right ∷ []) ≡ left ∷ right ∷ []
unfolding program
unique_three = refl

unique-AllFollow_example :
    let commits = left ∷ again ∷ right ∷ [] in
    let kept = commits_with_unique_records records (str "x") commits in
    All (λ r. Any (λ c. c ≡ r) commits) kept
    × All (λ c. Any (Covers records (str "x") commits c) kept) commits
    × AllFollow records (str "x") commits kept
unique-AllFollow_example = unique-AllFollow records (str "x") (left ∷ again ∷ right ∷ [])

equal_contents :
    (contents_checksum records right ≡ contents_checksum records again)
    × (same string_discrete (str "n") (str "x") ≡ false)
unfolding program
equal_contents = (refl, refl)

abbrev record_of : Commit records → Sample
record_of c = elim c.contents [ Contents.full r ↦ r | Contents.delta b e ↦ null_sample ]

merged_both :
    create_merge_record records storage any_record record_of (str "sa") 5 (left ∷ right ∷ [])
    ≡ some (sample Namespace.notes (str "4"), some child)
unfolding program
merged_both = refl

concat_nothing : (d : Option Sample) → records.concat_changes none d ≡ d
concat_nothing none = refl
concat_nothing (some r) = refl
