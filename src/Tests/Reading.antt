-- ===== src/Tests/Reading.antt =====
-- repo/repo.ts at a small storage: reading records, heads and the deltas.
use ovvio.Base.{
  Bool, true, false, some, none, Option, [], refl, ◌≡◌, ◌⊎◌, inl, inr, subst, ℕ_discrete, dec_lt,
  arith, is_some,
}
use ovvio.Base.Maps
use ovvio.Base.Sets
use ovvio.Base.Sort.{sort, insert}
use ovvio.Base.Text.{JsString, str, string_discrete, key_discrete}
use ovvio.Commit.{Commit, Contents, Edit, Namespace, contents_is_record, contents_checksum, scheme}
use ovvio.AdjList.{has_in_edges}
use ovvio.Authorizer.{namespace_discrete}
use ovvio.Repo.Order.{compare_commits_desc, compare_commits_asc, compare_strings, gt_string, negate}
use ovvio.Repo.Storage.{
  MemRepoStorage, RepoStorage, empty, ids_at, store, get_commit, collect, commits_for_key,
  storage_of,
}
use ovvio.Repo.Storage.Append
use ovvio.Repo.Storage.Append.{empty-IsValid, get_commit-store, store-IsValid}
use ovvio.Repo.Records.{
  ok, unavailable, Caches, bind, mark, remember, fits, has_commit, record_for_id,
  commit_is_corrupted, has_record_for_commit, fallback_record, first_good,
  find_latest_non_corrupted_commit_for_key, record_for_commit,
}
use ovvio.Repo.Records.Readable.{
  readable, is_corrupted, value, first_readable, latest_readable, substitute, IsOnRecord, IsSound,
  IsValid,
}
use ovvio.Repo.Records.Steps.{Returns}
use ovvio.Repo.Records.Sound.{storage_of-IsSound}
use ovvio.Repo.Records.Answers.{
  record_for_commit-Returns, has_record_for_commit-Returns, record_for_commit-unavailable,
}
use ovvio.Repo.Heads.{
  visible_commits, keep_latest, by_connection, filter_latest_commits_by_connection, leaves_for_key,
  pick_from, pick_best_commit_for_current_client, cache_head, head_for_key,
}
use ovvio.Repo.Delta.{
  last_record_commit, last_record_commit_for_key, edit_from, is_session_commit, delta_commit,
  delta_compress_if_needed,
}
use ovvio.Repo.Delta.Roundtrip.{compressed}
use ovvio.Tests.Samples.{Sample, records, sample, commit}

program : Unit {0}
unfolding compare_commits_desc compare_commits_asc compare_strings gt_string negate ids_at store
    get_commit collect commits_for_key bind mark remember fits has_commit record_for_id
    commit_is_corrupted has_record_for_commit fallback_record first_good
    find_latest_non_corrupted_commit_for_key record_for_commit readable is_corrupted value
    first_readable latest_readable substitute visible_commits keep_latest by_connection
    filter_latest_commits_by_connection leaves_for_key pick_from pick_best_commit_for_current_client
    cache_head head_for_key last_record_commit last_record_commit_for_key edit_from
    is_session_commit namespace_discrete delta_commit delta_compress_if_needed contents_is_record
    contents_checksum scheme has_in_edges string_discrete key_discrete ℕ_discrete dec_lt Maps.get
    Maps.put Sets.add Sets.has sort insert
program = tt

abbrev pub full : Commit records
full = commit (str "c1") (str "k") none (sample Namespace.notes (str "1"))

abbrev pub delta : JsString → JsString → Commit records
delta id src = record full {
  id = id;
  contents = Contents.delta (str "c1") (record {
    changes = some (sample Namespace.notes (str "2"));
    src_checksum = src;
    dst_checksum = str "2";
    scheme = none;
  });
  timestamp = 6;
  connection_id = str "c2";
}

-- The first edit fits the full commit, the second does not, and the third has no base.
abbrev pub good : Commit records
good = delta (str "c2") (str "1")

abbrev pub bad : Commit records
bad = record (delta (str "c3") (str "9")) { timestamp = 7 }

abbrev stored : MemRepoStorage records
stored = store records (store records (store records (empty records) full) good) bad

abbrev storage : RepoStorage records
storage = storage_of records stored

abbrev fresh : Caches records
fresh = record { corrupted = []; records = [] }

abbrev second : Sample
second = sample Namespace.notes (str "2")

-- The bad commit shows the record of the good one.
read_all :
    ((record_for_commit records storage 3 good fresh).1 ≡ ok second)
    × ((record_for_commit records storage 3 bad fresh).1 ≡ ok second)
    × ((record_for_commit records (storage_of records (empty records)) 3 good fresh).1
        ≡ unavailable)
    × (value records storage bad ≡ some second)
unfolding program
read_all = (refl, refl, refl, refl)

stored_facts :
    (get_commit records (empty records) (str "c1") ≡ none)
    × (get_commit records (store records (empty records) full) (str "c2") ≡ none)
    × (get_commit records (store records (store records (empty records) full) good) (str "c3")
        ≡ none)
    × (get_commit records stored (str "c1") ≡ some full)
    × (get_commit records stored (str "c2") ≡ some good)
    × (get_commit records stored (str "c3") ≡ some bad)
unfolding program
stored_facts = (refl, refl, refl, refl, refl, refl)

stored-IsValid : Append.IsValid records stored
stored-IsValid = store-IsValid records _ bad stored_facts.2 (
    store-IsValid records _ good stored_facts.1
      (store-IsValid records (empty records) full stored_facts.0 (empty-IsValid records)))

nothing : (id : JsString) → get_commit records (empty records) id ≡ none
unfolding get_commit Maps.get
nothing id = refl

one_of :
    (id : JsString) (c : Commit records)
    → get_commit records stored id ≡ some c
    → (full ≡ c) ⊎ (good ≡ c) ⊎ (bad ≡ c)
one_of id c h = ground (
  arith,
  get_commit-store records (store records (store records (empty records) full) good) bad id,
  get_commit-store records (store records (empty records) full) good id,
  get_commit-store records (empty records) full id,
  nothing id,
)

on_full :
    (b : Commit records)
    → get_commit records stored (str "c1") ≡ some b
    → contents_is_record records b.contents ≡ true
unfolding contents_is_record
on_full b at =
    let here : full ≡ b = (let known = stored_facts.3 in ground arith) in
    subst (λ x. contents_is_record records x.contents ≡ true) here refl

storage-IsSound : IsSound records storage
storage-IsSound = storage_of-IsSound records stored stored-IsValid (λ id c h. elim (one_of id c h) [
  | inl e ↦ subst (λ x. IsOnRecord records storage x.contents) e tt
  | inr (inl e) ↦ subst (λ x. IsOnRecord records storage x.contents) e on_full
  | inr (inr e) ↦ subst (λ x. IsOnRecord records storage x.contents) e on_full
])

fresh-IsValid : IsValid records storage fresh
unfolding Maps.get
fresh-IsValid = record {
  corrupted_true = λ c b at h. absurd (cc);
  records_true = λ c r at h. absurd (cc);
}

record_for_commit-Returns_example :
    Returns records storage (record_for_commit records storage 3 bad) second
record_for_commit-Returns_example =
    record_for_commit-Returns records storage storage-IsSound 0 bad second stored_facts.5 read_all.3

has_record_for_commit-Returns_example :
    Returns records storage
      (has_record_for_commit records storage (record_for_commit records storage 1) 2 bad)
      (is_some (readable records storage bad.contents))
has_record_for_commit-Returns_example =
    has_record_for_commit-Returns records storage storage-IsSound 0 0 bad stored_facts.5

abbrev alone : RepoStorage records
alone = storage_of records (store records (empty records) good)

alone_facts :
    (get_commit records (store records (empty records) good) (str "c2") ≡ some good)
    × (get_commit records (store records (empty records) good) (str "c1") ≡ none)
unfolding program
alone_facts = (refl, refl)

alone-IsValid : IsValid records alone fresh
unfolding Maps.get
alone-IsValid = record {
  corrupted_true = λ c b at h. absurd (cc);
  records_true = λ c r at h. absurd (cc);
}

abbrev edit : JsString → Edit (Option Sample)
edit src = record {
  changes = some second;
  src_checksum = src;
  dst_checksum = str "2";
  scheme = none;
}

nothing_cached :
    (Maps.get {V = Sample} string_discrete (str "c1") [] ≡ none)
    × (Maps.get {V = Bool} string_discrete (str "c3") [] ≡ none)
    × (get_commit records (empty records) (str "c1") ≡ none)
unfolding program
nothing_cached = (refl, refl, refl)

record_for_commit-unavailable_example :
    record_for_commit records alone 1 good fresh ≡ (fresh, unavailable)
record_for_commit-unavailable_example =
    record_for_commit-unavailable records alone 0 good (str "c1") (edit (str "1")) fresh
      alone_facts.0 alone-IsValid refl alone_facts.1 nothing_cached.0

abbrev looked_at : Caches records
looked_at =
    (commit_is_corrupted records (storage_of records (empty records))
      (record_for_commit records storage 1) bad fresh).0

abbrev next : Commit records
next = record full { id = str "c4"; contents = Contents.full second }

abbrev small : Edit (Option Sample) → Sample → Bool
small e r = true

compressed-next :
    elim (compressed records storage storage-IsSound (str "org") 8 (str "c1") false small next) [
      | none ↦ none
      | some c ↦ readable records storage c.contents
    ]
    ≡ some second
unfolding program
compressed-next = refl
