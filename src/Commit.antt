-- ===== src/Commit.antt =====
-- repo/commit.ts: the class `Commit`, over the records that it carries (cfds/base/record.ts),
-- which stand behind the interface `Records`.
use mathlib.Core.Bool.{Bool, true, false}
use ovvio.Base.{ℕ, Option, none, some, List, [], ◌∷◌}
use ovvio.Base.Text.{JsString}

-- The namespaces of cfds/base/scheme-types.ts.
pub data Namespace : Type 0 where
  workspaces notes tags users user_settings views sessions events null : Namespace

-- cfds/base/scheme.ts: what the repository reads of a scheme.
pub record Scheme : Type 0 where
  pub namespace : Namespace
  pub version : ℕ
  pub fields : List JsString

unfoldable pub is_null_scheme : Scheme → Bool
is_null_scheme s = elim s.fields [ [] ↦ true | _ ∷ _ ↦ false ]

abbrev pub null_scheme : Scheme
null_scheme = record { namespace = Namespace.null; version = 0; fields = [] }

-- What the repository needs of records and their changes.
pub record Records : Type 1 where
  pub Record : Type 0
  pub Changes : Type 0
  pub scheme_of : Record → Scheme
  pub checksum : Record → JsString
  pub get_text : Record → JsString → Option JsString
  pub get_set : Record → JsString → Option (List JsString)
  pub null_record : Record
  pub patch : Record → Changes → Record
  pub diff : Record → Record → Bool → Changes
  pub concat_changes : Changes → Changes → Changes
  pub no_changes : Changes
  pub upgrade_scheme : Record → Scheme → Record
  pub same_record : Record → Record → Bool

-- cfds/base/edit.ts
pub record Edit (Changes : Type 0) : Type 0 where
  pub changes : Changes
  pub src_checksum : JsString
  pub dst_checksum : JsString
  pub scheme : Option Scheme

pub data Contents (Record Changes : Type 0) : Type 0 where
  full : Record → Contents Record Changes
  delta : JsString → Edit Changes → Contents Record Changes

pub record Commit (api : Records) : Type 0 where
  pub id : JsString
  pub session : JsString
  pub org_id : Option JsString
  pub key : Option JsString
  pub contents : Contents api.Record api.Changes
  pub parents : List JsString
  pub ancestors_count : ℕ
  pub timestamp : ℕ
  pub signature : Option JsString
  pub merge_base : Option JsString
  pub merge_leader : Option JsString
  pub revert : Option JsString
  pub connection_id : JsString
  pub frozen : Bool

-- A string that JavaScript takes for true.
abbrev pub truthy : Option JsString → Bool
truthy none = false
truthy (some []) = false
truthy (some (c ∷ s)) = true

-- `config.key || undefined` of the constructor, read back by `key`.
unfoldable pub normal_key : Option JsString → Option JsString
normal_key none = none
normal_key (some []) = none
normal_key (some (c ∷ s)) = some (c ∷ s)

module _ (api : Records) where
  open api use {Record, Changes, scheme_of, checksum}

  unfoldable pub contents_is_record : Contents Record Changes → Bool
  contents_is_record (Contents.full r) = true
  contents_is_record (Contents.delta b e) = false

  unfoldable pub contents_is_delta : Contents Record Changes → Bool
  contents_is_delta (Contents.full r) = false
  contents_is_delta (Contents.delta b e) = true

  checksum_of : Contents Record Changes → JsString
  checksum_of (Contents.full r) = checksum r
  checksum_of (Contents.delta b e) = e.dst_checksum

  -- `contentsChecksum`
  unfoldable pub contents_checksum : Commit api → JsString
  unfolding checksum_of
  contents_checksum c = checksum_of c.contents

  contents_scheme : Contents Record Changes → Option Scheme
  contents_scheme (Contents.full r) = some (scheme_of r)
  contents_scheme (Contents.delta b e) = e.scheme

  -- `scheme`
  unfoldable pub scheme : Commit api → Option Scheme
  unfolding contents_scheme
  scheme c = contents_scheme c.contents
