-- ===== src/Repo/Storage.antt =====
-- repo/repo.ts: the class `MemRepoStorage`, and the part of the interface `RepoStorage` through
-- which the repository reads.
pub mod Append
pub mod Persist
use mathlib.Core.Bool.{Bool, true, false}
use ovvio.Base.{ℕ, List, [], ◌∷◌, Option, none, some, if◌then◌else◌, length, map, is_some}
use ovvio.Base.Maps
use ovvio.Base.Maps.{Map}
use ovvio.Base.Sets
use ovvio.Base.Text.{JsString, string_discrete, key_discrete}
use ovvio.Commit.{Records, Commit}

-- `getCommit` and `commitsForKey`
pub record RepoStorage (api : Records) : Type 0 where
  pub get_commit : JsString → Option (Commit api)
  pub commits_for_key : Option JsString → List (Commit api)

pub record MemRepoStorage (api : Records) : Type 0 where
  pub by_record_key : Map (Option JsString) (List JsString)
  pub by_id : Map JsString (Commit api)

module _ (api : Records) where
  abbrev pub empty : MemRepoStorage api
  empty = record { by_record_key = []; by_id = [] }

  -- The ids under a key; no set is as good as an empty one.
  unfoldable pub ids_at : MemRepoStorage api → Option JsString → List JsString
  ids_at s key = elim (Maps.get key_discrete key s.by_record_key) [ none ↦ [] | some ids ↦ ids ]

  -- What the constructor and `persistCommits` do with a commit that they take in.
  unfoldable pub store : MemRepoStorage api → Commit api → MemRepoStorage api
  unfolding ids_at
  store s c = record {
    by_record_key =
        Maps.put key_discrete c.key (Sets.add string_discrete c.id (ids_at s c.key))
          s.by_record_key;
    by_id = Maps.put string_discrete c.id c s.by_id;
  }

  store_all : MemRepoStorage api → List (Commit api) → MemRepoStorage api
  store_all s [] = s
  store_all s (c ∷ cs) = store_all (store s c) cs

  -- The constructor.
  unfoldable pub new_storage : List (Commit api) → MemRepoStorage api
  unfolding store_all
  new_storage commits = store_all empty commits

  unfoldable pub number_of_commits : MemRepoStorage api → ℕ
  number_of_commits s = length s.by_id

  unfoldable pub get_commit : MemRepoStorage api → JsString → Option (Commit api)
  get_commit s id = Maps.get string_discrete id s.by_id

  unfoldable pub all_commits_ids : MemRepoStorage api → List JsString
  all_commits_ids s = map (λ e. e.0) s.by_id

  -- The commits of the ids. An id without a commit is passed over; a valid storage has none.
  unfoldable pub collect : MemRepoStorage api → List JsString → List (Commit api)
  collect s [] = []
  collect s (id ∷ ids) = elim (get_commit s id) [
    | none ↦ collect s ids
    | some c ↦ c ∷ collect s ids
  ]

  unfoldable pub commits_for_key : MemRepoStorage api → Option JsString → List (Commit api)
  commits_for_key s key = collect s (ids_at s key)

  strings : List (Option JsString) → List JsString
  strings [] = []
  strings (none ∷ ks) = strings ks
  strings (some k ∷ ks) = k ∷ strings ks

  unfoldable pub all_keys : MemRepoStorage api → List JsString
  unfolding strings
  all_keys s = strings (map (λ e. e.0) s.by_record_key)

  abbrev pub storage_of : MemRepoStorage api → RepoStorage api
  storage_of s = record { get_commit = get_commit s; commits_for_key = commits_for_key s }

  -- The outcome of a run of the generator `persistCommits`: the storage, the commits yielded, and
  -- whether it came to the end or failed its assertion.
  pub record Persisted : Type 0 where
    pub storage : MemRepoStorage api
    pub yielded : List (Commit api)
    pub completed : Bool

  -- `same_value` is `coreValueEquals`.
  unfoldable pub persist_commits :
      (Commit api → Commit api → Bool) → MemRepoStorage api → List (Commit api) → Persisted
  persist_commits same_value s [] = record { storage = s; yielded = []; completed = true }
  persist_commits same_value s (c ∷ cs) = elim (get_commit s c.id) [
    | none ↦
        let rest = persist_commits same_value (store s c) cs in
        record rest { yielded = c ∷ rest.yielded }
    | some local ↦
        let rest = persist_commits same_value s cs in
        if same_value c local then rest else record { storage = s; yielded = []; completed = false }
  ]
