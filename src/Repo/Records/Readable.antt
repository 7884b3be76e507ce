-- ===== src/Repo/Records/Readable.antt =====
-- repo/repo.ts: the record of a commit, described without the order of calls and without caches.
use ovvio.Base.{
  Bool, true, false, not, Option, none, some, is_some, List, [], ◌∷◌, ◌≡◌, All, if◌then◌else◌,
}
use ovvio.Base.Maps
use ovvio.Base.Sort.{sort}
use ovvio.Base.Text.{JsString, string_discrete}
use ovvio.Commit.{Records, Commit, Contents, contents_is_record}
use ovvio.Repo.Order.{compare_commits_desc}
use ovvio.Repo.Storage.{RepoStorage}
use ovvio.Repo.Records.{Caches, fits}

module _ (api : Records) (storage : RepoStorage api) where
  open api use {Record, Changes, patch, null_record}

  abbrev pub full_record : Contents Record Changes → Option Record
  full_record (Contents.full r) = some r
  full_record (Contents.delta base e) = none

  -- The record of a stored commit that carries one.
  abbrev pub base_record : JsString → Option Record
  base_record id = elim (storage.get_commit id) [ none ↦ none | some b ↦ full_record b.contents ]

  -- The record that a commit's contents make.
  unfoldable pub readable : Contents Record Changes → Option Record
  readable (Contents.full r) = some r
  readable (Contents.delta base e) = elim (base_record base) [
    | none ↦ none
    | some r ↦ if fits api r e then some (patch r e.changes) else none
  ]

  -- The base is there, but the edit does not fit it.
  unfoldable pub is_corrupted : Contents Record Changes → Bool
  is_corrupted (Contents.full r) = false
  is_corrupted (Contents.delta base e) = elim (base_record base) [
    | none ↦ false
    | some r ↦ not (fits api r e)
  ]

  -- The first readable commit.
  unfoldable pub first_readable : List (Commit api) → Option (Commit api)
  first_readable [] = none
  first_readable (c ∷ cs) =
      let rest = first_readable cs in if is_some (readable c.contents) then some c else rest

  -- The newest readable commit of the key.
  unfoldable pub latest_readable : Option JsString → Option (Commit api)
  unfolding first_readable
  latest_readable key =
      first_readable (sort (compare_commits_desc api) (storage.commits_for_key key))

  -- What stands in for a corrupted commit of the key.
  unfoldable pub substitute : Option JsString → Record
  substitute key = elim (latest_readable key) [
    | none ↦ null_record
    | some d ↦ elim (readable d.contents) [ none ↦ null_record | some r ↦ r ]
  ]

  -- The record that the repository shows for a commit.
  unfoldable pub value : Commit api → Option Record
  value c = elim (readable c.contents) [
    | some r ↦ some r
    | none ↦ if is_corrupted c.contents then some (substitute c.key) else none
  ]

  abbrev pub IsStored : Commit api → Type 0
  IsStored c = storage.get_commit c.id ≡ some c

  -- A delta commit stands on a commit that carries a record, as `deltaCompressIfNeeded` makes it.
  abbrev pub IsOnRecord : Contents Record Changes → Type 0
  IsOnRecord (Contents.full r) = Unit
  IsOnRecord (Contents.delta base e) =
      (b : Commit api) → storage.get_commit base ≡ some b → contents_is_record api b.contents ≡ true

  pub record IsSound : Type 0 where
    pub named : (id : JsString) (c : Commit api) → storage.get_commit id ≡ some c → c.id ≡ id
    pub on_record :
        (id : JsString) (c : Commit api) → storage.get_commit id ≡ some c → IsOnRecord c.contents
    pub listed : (key : Option JsString) → All IsStored (storage.commits_for_key key)

  -- What is cached is true of the stored commits.
  pub record IsValid (s : Caches api) : Type 0 where
    pub corrupted_true :
        (c : Commit api) (b : Bool)
        → IsStored c
        → Maps.get string_discrete c.id s.corrupted ≡ some b
        → b ≡ is_corrupted c.contents
    pub records_true :
        (c : Commit api) (r : Record)
        → IsStored c
        → Maps.get string_discrete c.id s.records ≡ some r
        → value c ≡ some r
