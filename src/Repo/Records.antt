-- ===== src/Repo/Records.antt =====
-- repo/repo.ts: how a repository reads the record of a commit (`hasRecordForCommit`,
-- `commitIsCorrupted`, `findLatestNonCorruptedCommitForKey`, `recordForCommit`). The methods call
-- each other, and keep what they find in two maps of the repository.
pub mod Readable
pub mod Steps
pub mod Calls
pub mod Depth
pub mod Answers
pub mod Sound
use ovvio.Base.{
  ℕ, zero, suc, Bool, true, false, not, ◌&&◌, Option, none, some, is_some, List, [], ◌∷◌, same,
  if◌then◌else◌,
}
use ovvio.Base.Maps
use ovvio.Base.Maps.{Map}
use ovvio.Base.Sort.{sort}
use ovvio.Base.Text.{JsString, string_discrete}
use ovvio.Commit.{Records, Commit, Contents, Edit}
use ovvio.Repo.Order.{compare_commits_desc}
use ovvio.Repo.Storage.{RepoStorage}

-- `unavailable` is the error that `getCommit` throws, `overflow` a stack without end.
pub data Result {ℓ} (A : Type ℓ) : Type ℓ where
  ok : A → Result A
  unavailable overflow : Result A

module _ (api : Records) where
  open api use {Record, Changes, checksum, patch, null_record}

  -- `_commitIsCorruptedResult` and `_cachedRecordForCommit`
  pub record Caches : Type 0 where
    pub corrupted : Map JsString Bool
    pub records : Map JsString Record

  -- A method that reads and writes the maps.
  abbrev pub Method {ℓ} : Type ℓ → Type ℓ
  Method A = Caches → Caches × Result A

  abbrev pub return {ℓ} : {A : Type ℓ} → A → Method A
  return a = λ s. (s, ok a)

  unfoldable pub bind {ℓ κ} : {A : Type ℓ} → {B : Type κ} → Method A → (A → Method B) → Method B
  bind m f s =
      let (s', r) = m s in
      elim r [ ok a ↦ f a s' | unavailable ↦ (s', unavailable) | overflow ↦ (s', overflow) ]

  -- The two sets of `commitIsCorrupted` and `recordForCommit`, which return what they store.
  unfoldable pub mark : JsString → Bool → Method Bool
  mark id b s = (record s { corrupted = Maps.put string_discrete id b s.corrupted }, ok b)

  unfoldable pub remember : JsString → Record → Method Record
  remember id r s = (record s { records = Maps.put string_discrete id r s.records }, ok r)

  -- The record has the checksum that the edit starts from, and after the edit the other one.
  unfoldable pub fits : Record → Edit Changes → Bool
  fits r e =
      same string_discrete (checksum r) e.src_checksum
      && same string_discrete (checksum (patch r e.changes)) e.dst_checksum

  module _ (storage : RepoStorage api) where
    unfoldable pub has_commit : JsString → Bool
    has_commit id = is_some (storage.get_commit id)

    -- `recur` is `recordForCommit` of a commit.
    module _ (recur : Commit api → Method Record) where
      -- `recordForCommit` of an id.
      unfoldable pub record_for_id : JsString → Method Record
      record_for_id id s = elim (Maps.get string_discrete id s.records) [
        | some r ↦ (s, ok r)
        | none ↦ elim (storage.get_commit id) [ none ↦ (s, unavailable) | some c ↦ recur c s ]
      ]

      unfoldable pub commit_is_corrupted : Commit api → Method Bool
      unfolding has_commit record_for_id bind mark fits
      commit_is_corrupted c s = elim c.contents [
        | Contents.full r ↦ (s, ok false)
        | Contents.delta base e ↦ elim (Maps.get string_discrete c.id s.corrupted) [
          | some b ↦ (s, ok b)
          | none ↦
              if not (has_commit base)
              then mark c.id false s
              else bind (record_for_id base) (λ r. mark c.id (not (fits r e))) s
        ]
      ]

      -- The number bounds the chain of bases.
      unfoldable pub has_record_for_commit : ℕ → Commit api → Method Bool
      has_record_for_commit zero c s = (s, overflow)
      has_record_for_commit (suc n) c s = elim c.contents [
        | Contents.full r ↦ (s, ok true)
        | Contents.delta base e ↦
            let has_base : Method Bool = elim (storage.get_commit base) [
              | none ↦ return false
              | some b ↦ has_record_for_commit n b
            ] in
            bind has_base
              (λ b.
                if b then bind (commit_is_corrupted c) (λ bad. return (not bad)) else return false)
              s
      ]

      -- The loop of `findLatestNonCorruptedCommitForKey`.
      unfoldable pub first_good : ℕ → List (Commit api) → Method (Option (Commit api))
      first_good n [] = return none
      first_good n (c ∷ cs) =
          let rest = first_good n cs in
          bind (commit_is_corrupted c) (λ bad.
            if bad
            then rest
            else bind (has_record_for_commit n c) (λ has. if has then return (some c) else rest))

      unfoldable pub find_latest_non_corrupted_commit_for_key :
          ℕ → Option JsString → Method (Option (Commit api))
      unfolding first_good
      find_latest_non_corrupted_commit_for_key n key =
          first_good n (sort (compare_commits_desc api) (storage.commits_for_key key))

      -- What stands in for a corrupted commit of the key.
      unfoldable pub fallback_record : ℕ → Option JsString → Method Record
      fallback_record n key =
          bind (find_latest_non_corrupted_commit_for_key n key)
            (λ found. elim found [ none ↦ return null_record | some d ↦ recur d ])

    -- The number bounds the depth of the calls.
    unfoldable pub record_for_commit : ℕ → Commit api → Method Record
    record_for_commit zero c s = (s, overflow)
    record_for_commit (suc n) c s = elim (Maps.get string_discrete c.id s.records) [
      | some r ↦ (s, ok r)
      | none ↦ elim c.contents [
        | Contents.full r ↦ remember c.id r s
        | Contents.delta base e ↦
            bind (record_for_id (record_for_commit n) base)
              (λ r.
                bind
                  (if fits r e
                    then return (patch r e.changes)
                    else fallback_record (record_for_commit n) n c.key)
                  (remember c.id))
              s
      ]
    ]
