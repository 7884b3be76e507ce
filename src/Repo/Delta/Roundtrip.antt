-- ===== src/Repo/Delta/Roundtrip.antt =====
-- repo/repo.ts: a commit that `deltaCompressIfNeeded` made smaller reads back as the same record.
use ovvio.Base.{ℕ, Bool, false, Option}
use ovvio.Base.Text.{JsString}
use ovvio.Commit.{Records, Commit, Edit}
use ovvio.Repo.Storage.{RepoStorage}
use ovvio.Repo.Records.Readable.{IsSound}
use ovvio.Repo.Delta.{delta_compress_if_needed}

module _ (api : Records) where
  open api use {Record, Changes, checksum, diff, patch}

  module _ (storage : RepoStorage api) (sound : IsSound api storage) (org_id : JsString) (now : ℕ)
      (connection : JsString) where
    abbrev pub compressed : Bool → (Edit Changes → Record → Bool) → Commit api → Option (Commit api)
    compressed lucky is_small c =
        delta_compress_if_needed api org_id now connection lucky is_small
          (storage.commits_for_key c.key) c

    -- The base with the difference to the record.
    abbrev pub patched : Record → Record → Record
    patched b r = patch b (diff b r false)
