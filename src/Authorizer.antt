-- ===== src/Authorizer.antt =====
-- repo/auth.ts: the three authorizers. What they read of a repository are the parameters `value`
-- (`valueForKeyReadonlyUnsafe`) and `changed` (`changedFieldsInCommit`), beside its trust pool.
pub mod SysDir
pub mod Members
use mathlib.Core.Bool.{Bool, true, false, not}
use ovvio.Base.{
  ℕ, zero, suc, ◌-◌, Option, none, some, List, [], ◌∷◌, ◌++◌, is_some, leb, same, ◌&&◌, ◌||◌,
  if◌then◌else◌, length, take, drop,
}
use ovvio.Base.Sets
use ovvio.Base.Text.{JsString, string_discrete, str, key_discrete}
use ovvio.Commit.{Records, Commit, truthy, Namespace, Scheme, is_null_scheme, scheme}
use ovvio.Session.{Crypto, Session, session_id_from_signature}
use ovvio.Session.Pool.{TrustPool, get_session}

unfoldable pub namespace_discrete : Discrete Namespace
namespace_discrete = hlevel

abbrev pub has_text : JsString → List JsString → Bool
has_text = Sets.has string_discrete

-- `users?.has(userKey) === true`
abbrev pub has_member : Option (List JsString) → JsString → Bool
has_member none user = false
has_member (some users) user = has_text user users

module _ (crypto : Crypto) (api : Records) where
  open api use {Record, scheme_of, get_text, get_set}

  -- The owner of the session that signed the commit.
  unfoldable pub signer_owner : TrustPool crypto → Commit api → Option JsString
  unfolding get_session session_id_from_signature
  signer_owner pool c = elim c.signature [
    | none ↦ none
    | some sig ↦ elim (get_session crypto pool (session_id_from_signature crypto sig)) [
      | none ↦ none
      | some s ↦ s.owner
    ]
  ]

  unfoldable pub is_null : Record → Bool
  unfolding is_null_scheme
  is_null r = is_null_scheme (scheme_of r)

  unfoldable pub in_namespace : Record → Namespace → Bool
  in_namespace r ns = same namespace_discrete (scheme_of r).namespace ns

  -- The email of a record of a user.
  unfoldable pub email_of : Record → Option JsString
  unfolding in_namespace
  email_of r = if in_namespace r Namespace.users then get_text r (str "email") else none

  unfoldable pub is_operator : List JsString → Record → Bool
  is_operator operator_emails user_record = elim (email_of user_record) [
    | none ↦ false
    | some email ↦ has_text email operator_emails
  ]

  -- The case of a workspace.
  unfoldable pub workspace_access : Bool → Record → JsString → Bool → Bool
  workspace_access operator rec user write =
      if operator
      then true
      else if is_null rec
      then write
      else has_member (get_set rec (str "users")) user

  -- `userRecord.has('email') && operatorEmails.includes(userRecord.get('email'))`
  unfoldable pub has_operator_email : List JsString → Record → Bool
  has_operator_email operator_emails user_record = elim (get_text user_record (str "email")) [
    | none ↦ false
    | some email ↦ has_text email operator_emails
  ]

  -- The owner of a record may not touch the protected fields.
  unfoldable pub own_record_access : Option (List JsString) → Bool → Bool
  own_record_access changed write = if not write then true else elim changed [
    | none ↦ false
    | some fields ↦
        if has_text (str "email") fields
        then false
        else if has_text (str "permissions") fields
        then false
        else true
  ]

  -- The case of a user.
  unfoldable pub user_access :
      List JsString → Record → Record → Commit api → Option (List JsString) → JsString → Bool → Bool
  user_access operator_emails rec user_record c changed user write =
      if is_operator operator_emails user_record
      then true
      else if not (in_namespace user_record Namespace.users)
      then false
      else if has_operator_email operator_emails user_record
      then false
      else if has_member (get_set user_record (str "permissions")) (str "manage:users")
      then true
      else if is_null rec
      then false
      else if same key_discrete (some user) c.key
      then own_record_access changed write
      else not write

  module _ (pool : TrustPool crypto) (value : Option JsString → Record)
      (changed : Commit api → Option (List JsString)) (operator_emails : List JsString) where
    -- The namespace that decides: the stored record's, or that of the commit that creates it.
    unfoldable pub deciding_namespace : Record → Commit api → Option Namespace
    deciding_namespace rec c =
        if is_null rec
        then elim (scheme api c) [ none ↦ none | some s ↦ some s.namespace ]
        else some (scheme_of rec).namespace

    -- `!commit.scheme || commit.scheme?.isNull`
    unfoldable pub lacks_scheme : Commit api → Bool
    lacks_scheme c = elim (scheme api c) [ none ↦ true | some s ↦ is_null_scheme s ]

    -- The breakdown by namespace, for a user who is not root.
    unfoldable pub by_namespace : Commit api → JsString → Bool → Bool
    by_namespace c user write =
        let rec = value c.key in
        let user_record = value (some user) in
        if is_null rec && lacks_scheme c then false else elim (deciding_namespace rec c) [
          | none ↦ false
          | some Namespace.workspaces ↦
              workspace_access (is_operator operator_emails user_record) rec user write
          | some Namespace.users ↦
              user_access operator_emails rec user_record c (changed c) user write
          | some Namespace.sessions ↦ not write
          | some _ ↦ false
        ]

    -- The user whose rights count: the calling session's owner for reads, and for the commit of
    -- that session itself; else the signer's owner.
    unfoldable pub sys_dir_user : Commit api → Session crypto → Bool → Option JsString
    unfolding signer_owner
    sys_dir_user c session write =
        if same key_discrete c.key (some session.id) || not write
        then session.owner
        else signer_owner pool c

    -- `createSysDirAuthorizer`
    unfoldable pub sys_dir_authorizer : Commit api → Session crypto → Bool → Bool
    sys_dir_authorizer c session write =
        if not (truthy c.signature) then false else elim (sys_dir_user c session write) [
          | none ↦ not write && same key_discrete c.key (some session.id)
          | some [] ↦ not write && same key_discrete c.key (some session.id)
          | some (x ∷ user) ↦
              if same string_discrete (x ∷ user) (str "root")
              then true
              else by_namespace c (x ∷ user) write
        ]

  -- The user whose rights count in the other repositories.
  unfoldable pub acting_user :
      TrustPool crypto → Commit api → Session crypto → Bool → Option JsString
  unfolding signer_owner
  acting_user pool c session write = if not write then session.owner else signer_owner pool c

  -- `workspaceKey.endsWith('-ws')`, and what stands before the suffix.
  unfoldable pub personal_owner : JsString → Option JsString
  personal_owner key =
      let n = length key - length (str "-ws") in
      if leb (length (str "-ws")) (length key) && same string_discrete (drop n key) (str "-ws")
      then some (take n key)
      else none

  module _ (pool : TrustPool crypto) (value : Option JsString → Record)
      (operator_emails : List JsString) (workspace_key : JsString) where
    -- What an operator and a member may do with a shared workspace. The empty email is no email.
    unfoldable pub shared_access : JsString → Bool
    shared_access user =
        let email = email_of (value (some user)) in
        let rec = value (some workspace_key) in
        if truthy email && is_operator operator_emails (value (some user))
        then true
        else if in_namespace rec Namespace.workspaces
        then has_member (get_set rec (str "users")) user
        else false

    -- `createWorkspaceAuthorizer`
    unfoldable pub workspace_authorizer : Commit api → Session crypto → Bool → Bool
    workspace_authorizer c session write =
        if not (truthy c.signature) then false else elim (acting_user pool c session write) [
          | none ↦ false
          | some [] ↦ false
          | some (x ∷ user) ↦
              if same string_discrete (x ∷ user) (str "root")
              then true
              else elim (personal_owner workspace_key) [
                | some owner ↦ same string_discrete (x ∷ user) owner
                | none ↦ shared_access (x ∷ user)
              ]
        ]

  -- `createUserAuthorizer`
  unfoldable pub user_authorizer :
      TrustPool crypto → JsString → Commit api → Session crypto → Bool → Bool
  user_authorizer pool repo_user c session write =
      if not (truthy c.signature)
      then false
      else same key_discrete (acting_user pool c session write) (some (str "root"))
        || same key_discrete (acting_user pool c session write) (some repo_user)
