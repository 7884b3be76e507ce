-- ===== src/Repo/Delta.antt =====
-- repo/repo.ts: how a commit is made smaller before it is stored (`lastRecordCommitForKey`,
-- `deltaCompressIfNeeded`).
pub mod Roundtrip
use ovvio.Base.{
  ℕ, Bool, true, false, not, ◌||◌, ◌&&◌, Option, none, some, List, [], ◌∷◌, same, ltb,
  if◌then◌else◌,
}
use ovvio.Base.Text.{JsString}
use ovvio.Commit.{
  Records, Commit, Contents, Edit, Namespace, contents_is_record, contents_checksum, scheme,
}
use ovvio.Authorizer.{namespace_discrete}

module _ (api : Records) where
  open api use {Record, Changes, checksum, diff}

  -- The loop of `lastRecordCommitForKey`, from the best commit so far.
  unfoldable pub last_record_commit : Option (Commit api) → List (Commit api) → Option (Commit api)
  last_record_commit best [] = best
  last_record_commit best (c ∷ cs) =
      let better : Bool = elim best [ none ↦ true | some b ↦ ltb b.timestamp c.timestamp ] in
      last_record_commit (if contents_is_record api c.contents && better then some c else best) cs

  unfoldable pub last_record_commit_for_key : List (Commit api) → Option (Commit api)
  unfolding last_record_commit
  last_record_commit_for_key commits = last_record_commit none commits

  -- The edit that leads from the base to the record of the commit.
  unfoldable pub edit_from : Record → Commit api → Record → Edit Changes
  edit_from base c r = record {
    changes = diff base r false;
    src_checksum = checksum base;
    dst_checksum = contents_checksum api c;
    scheme = none;
  }

  -- `fullCommit.scheme?.namespace === SchemeNamespace.SESSIONS`
  unfoldable pub is_session_commit : Commit api → Bool
  is_session_commit c = elim (scheme api c) [
    | none ↦ false
    | some s ↦ same namespace_discrete s.namespace Namespace.sessions
  ]

  -- `org_id`, `now` and `connection` are the repository's organization, the time and the id of this
  -- connection, which the constructor of the new commit fills in.
  module _ (org_id : JsString) (now : ℕ) (connection : JsString) where
    unfoldable pub delta_commit : Commit api → Commit api → Edit Changes → Commit api
    delta_commit c base edit = record c {
      org_id = some org_id;
      contents = Contents.delta base.id edit;
      timestamp = now;
      signature = none;
      connection_id = connection;
      frozen = false;
    }

    -- `lucky` is the random draw that keeps a commit full, `is_small` compares the two lengths in
    -- JSON. `none` is the failed assertion.
    unfoldable pub delta_compress_if_needed :
        Bool → (Edit Changes → Record → Bool) → List (Commit api) → Commit api → Option (Commit api)
    unfolding last_record_commit_for_key edit_from delta_commit is_session_commit
    delta_compress_if_needed lucky is_small commits c = elim c.contents [
      | Contents.delta base e ↦ none
      | Contents.full r ↦
          if lucky || is_session_commit c
          then some c
          else elim (last_record_commit_for_key commits) [
            | none ↦ some c
            | some last ↦ elim last.contents [
              | Contents.delta base e ↦ some c
              | Contents.full b ↦
                  if is_small (edit_from b c r) r
                  then some (delta_commit c last (edit_from b c r))
                  else some c
            ]
          ]
    ]
