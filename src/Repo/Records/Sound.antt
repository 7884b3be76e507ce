-- ===== src/Repo/Records/Sound.antt =====
-- repo/repo.ts: the storage in memory is sound for reading records, where its delta commits stand
-- on commits with a record.
use ovvio.Base.{All-Any, ◌≡◌, some}
use ovvio.Base.Text.{JsString}
use ovvio.Commit.{Records, Commit}
use ovvio.Repo.Storage.{MemRepoStorage, storage_of, get_commit, commits_for_key}
use ovvio.Repo.Storage.Append
use ovvio.Repo.Storage.Append.{commits_for_key_iff}
use ovvio.Repo.Records.Readable.{IsOnRecord, IsSound, IsStored}

module _ (api : Records) (s : MemRepoStorage api) where
  pub storage_of-IsSound :
      Append.IsValid api s
      → ((id : JsString) (c : Commit api)
          → get_commit api s id ≡ some c
          → IsOnRecord api (storage_of api s) c.contents)
      → IsSound api (storage_of api s)
  storage_of-IsSound valid on_record = record {
    named = valid.named;
    on_record = on_record;
    listed = λ key.
        All-Any (IsStored api (storage_of api s)) (commits_for_key api s key)
          (λ c m. ((commits_for_key_iff api s key c valid).0 m).0);
  }
