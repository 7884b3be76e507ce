-- ===== src/Repo/Records/Answers.antt =====
-- repo/repo.ts: the methods that read records end, and answer what `Readable` describes.
use ovvio.Base.{ℕ, suc, false, none, some, is_some, ◌≡◌, sym, arith, Option-cases, inl, inr}
use ovvio.Base.Maps
use ovvio.Base.Text.{JsString, string_discrete}
use ovvio.Commit.{Records, Commit, Contents, Edit}
use ovvio.Repo.Storage.{RepoStorage}
use ovvio.Repo.Records.{
  ok, unavailable, Caches, Method, bind, mark, fits, has_commit, record_for_id, commit_is_corrupted,
  has_record_for_commit, record_for_commit,
}
use ovvio.Repo.Records.Readable.{
  base_record, readable, is_corrupted, substitute, value, IsStored, IsSound, IsValid,
}
use ovvio.Repo.Records.Steps.{Returns, Contents-cases}
use ovvio.Repo.Records.Calls.{corrupted-Returns, has_record-Returns}
use ovvio.Repo.Records.Depth.{
  record_for, full-Returns, delta-Returns, good-Returns, fallback-Returns,
}

module _ (api : Records) (storage : RepoStorage api) (sound : IsSound api storage) where
  open api use {Record, Changes, patch, null_record}

  -- `recordForCommit` ends on every stored commit that is readable or corrupted, from caches that
  -- are valid, and leaves them valid. It answers the record that the contents make, or in the
  -- place of a corrupted commit the record of the newest readable commit of the key, or the null
  -- record where there is none. The storage is sound; calls three deep are enough.
  pub record_for_commit-Returns :
      (n : ℕ) (c : Commit api) (r : Record)
      → IsStored api storage c
      → value api storage c ≡ some r
      → Returns api storage (record_for api storage sound (suc (suc (suc n))) c) r
  unfolding value
  record_for_commit-Returns n c r stored val =
      elim (Option-cases (readable api storage c.contents)) [
        | inr (x, good) ↦ good-Returns api storage sound (suc n) c r stored (ground arith)
        | inl bad ↦ elim (Contents-cases api storage c.contents) [
          | inl (x, e) ↦ absurd (unfold readable in ground arith)
          | inr (base, edit, e) ↦ elim (Option-cases (base_record api storage base)) [
            | inl absent ↦ absurd (unfold is_corrupted in ground arith)
            | inr (b, at) ↦
                let unfit : fits api b edit ≡ false = unfold readable in ground arith in
                let made : substitute api storage c.key ≡ r = unfold is_corrupted in ground arith in
                delta-Returns api storage sound (suc n) c base edit b r stored e at (ground arith)
                  (rw (unfit, sym made) (fallback-Returns api storage sound n c.key))
          ]
        ]
      ]

  -- `hasRecordForCommit` ends on every stored commit of a sound storage, from caches that are valid,
  -- and leaves them valid. It answers whether the commit is readable.
  pub has_record_for_commit-Returns :
      (n m : ℕ) (c : Commit api)
      → IsStored api storage c
      → Returns api storage
          (has_record_for_commit api storage (record_for api storage sound (suc n)) (suc (suc m)) c)
          (is_some (readable api storage c.contents))
  has_record_for_commit-Returns n m c stored =
      has_record-Returns api storage sound (record_for api storage sound (suc n))
        (full-Returns api storage sound n) m c stored

  -- `commitIsCorrupted` ends on every stored commit of a sound storage, from caches that are valid,
  -- and leaves them valid. It answers yes exactly where the base is there and the edit does not
  -- fit it.
  pub commit_is_corrupted-Returns :
      (n : ℕ) (c : Commit api)
      → IsStored api storage c
      → Returns api storage
          (commit_is_corrupted api storage (record_for api storage sound (suc n)) c)
          (is_corrupted api storage c.contents)
  commit_is_corrupted-Returns n c stored =
      corrupted-Returns api storage sound (record_for api storage sound (suc n))
        (full-Returns api storage sound n) c stored

module _ (api : Records) (storage : RepoStorage api) where
  open api use {Record, Changes}

  -- For a stored commit whose base is neither stored nor cached, `recordForCommit` throws the error
  -- of a missing commit, and valid caches stay as they are.
  pub record_for_commit-unavailable :
      (n : ℕ) (c : Commit api) (base : JsString) (edit : Edit Changes) (s : Caches api)
      → IsStored api storage c
      → IsValid api storage s
      → c.contents ≡ Contents.delta base edit
      → storage.get_commit base ≡ none
      → Maps.get string_discrete base s.records ≡ none
      → record_for_commit api storage (suc n) c s ≡ (s, unavailable)
  unfolding record_for_commit record_for_id bind value readable is_corrupted
  record_for_commit-unavailable n c base edit s stored valid e absent uncached =
      elim (Option-cases (Maps.get string_discrete c.id s.records)) [
        | inr (x, hit) ↦ absurd (missing x (valid.records_true c x stored hit))
        | inl miss ↦ ground arith
      ]
    where
      missing : (x : Record) → value api storage c ≡ some x → ⊥
      missing x h = ground arith

module _ (api : Records) (before later : RepoStorage api) where
  -- A commit that is first looked at while its base is missing counts as not corrupted for good:
  -- the answer is kept, and in any later storage it is the same, also where the base has arrived
  -- and the edit does not fit it.
  pub commit_is_corrupted-stale :
      (recur : Commit api → Method api api.Record) (c : Commit api) (base : JsString)
      (edit : Edit api.Changes) (s : Caches api)
      → c.contents ≡ Contents.delta base edit
      → before.get_commit base ≡ none
      → Maps.get string_discrete c.id s.corrupted ≡ none
      → let s' = (commit_is_corrupted api before recur c s).0 in
        commit_is_corrupted api later recur c s' ≡ (s', ok false)
  unfolding commit_is_corrupted has_commit mark
  commit_is_corrupted-stale recur c base edit s e absent fresh =
      ground (arith, Maps.get-put_self string_discrete c.id false s.corrupted)
