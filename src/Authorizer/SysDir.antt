-- ===== src/Authorizer/SysDir.antt =====
-- repo/auth.ts: who may read and write /sys/dir.
use mathlib.Core.Bool.{Bool, true, false}
use ovvio.Base.{
  Option, some, List, [], ◌∷◌, ◌≡◌, sym, ◌∙◌, arith, ◌⊎◌, inl, inr, Bool-cases, Option-cases,
}
use ovvio.Base.Text.{JsString, string_discrete, str}
use ovvio.Commit.{Records, Commit, truthy, Namespace}
use ovvio.Session.{Crypto, Session}
use ovvio.Session.Pool.{TrustPool}
use ovvio.Authorizer.{
  has_text, has_member, is_null, in_namespace, email_of, is_operator, has_operator_email,
  workspace_access, own_record_access, user_access, deciding_namespace, by_namespace, sys_dir_user,
  sys_dir_authorizer,
}

module _ (crypto : Crypto) (api : Records) (pool : TrustPool crypto)
    (value : Option JsString → api.Record) (changed : Commit api → Option (List JsString))
    (operator_emails : List JsString) (c : Commit api) (session : Session crypto) where
  open api use {Record, scheme_of, get_text, get_set}

  abbrev allows : Bool → Bool
  allows write = sys_dir_authorizer crypto api pool value changed operator_emails c session write

  abbrev acting : Bool → Option JsString
  acting write = sys_dir_user crypto api pool value changed operator_emails c session write

  abbrev rights : JsString → Bool → Bool
  rights user write = by_namespace crypto api pool value changed operator_emails c user write

  -- What the access rests on.
  pub data Grounds (write : Bool) : Type 0 where
    own_session :
        write ≡ false → truthy (acting write) ≡ false → c.key ≡ some session.id → Grounds write
    root : acting write ≡ some (str "root") → Grounds write
    by_rights :
        (user : JsString) → acting write ≡ some user → rights user write ≡ true → Grounds write

  allows-Grounds : (write : Bool) → allows write ≡ true → Grounds write
  unfolding sys_dir_authorizer
  allows-Grounds write h = elim (Option-cases (acting write)) [
    | inl e ↦ own_session (ground arith) (ground arith) (ground arith)
    | inr (user, e) ↦ with_user user e
  ]
    where
      with_user : (user : JsString) → acting write ≡ some user → Grounds write
      with_user [] e = own_session (ground arith) (ground arith) (ground arith)
      with_user (x ∷ user) e = elim (string_discrete (x ∷ user) (str "root")) [
        | yes is_root ↦ root (ground arith)
        | no other ↦ by_rights (x ∷ user) e (ground arith)
      ]

  -- The stored record of the commit's key.
  abbrev stored : Record
  stored = value c.key

  -- The user may act on another's record of a user.
  pub data ManagesUsers (user : JsString) : Type 0 where
    operator : is_operator crypto api operator_emails (value (some user)) ≡ true → ManagesUsers user
    manager :
        in_namespace crypto api (value (some user)) Namespace.users ≡ true
        → has_member (get_set (value (some user)) (str "permissions")) (str "manage:users") ≡ true
        → ManagesUsers user

  decides :
      (ns : Namespace)
      → is_null crypto api stored ≡ false
      → in_namespace crypto api stored ns ≡ true
      → deciding_namespace crypto api pool value changed operator_emails stored c ≡ some ns
  unfolding deciding_namespace in_namespace
  decides ns exists h = ground arith

  rights_users :
      (user : JsString) (write : Bool)
      → is_null crypto api stored ≡ false
      → in_namespace crypto api stored Namespace.users ≡ true
      → rights user write
        ≡ user_access crypto api operator_emails stored (value (some user)) c (changed c) user write
  unfolding by_namespace
  rights_users user write exists h = ground (arith, decides Namespace.users exists h)

  user_access-true :
      (user : JsString)
      → is_null crypto api stored ≡ false
      → user_access crypto api operator_emails stored (value (some user)) c (changed c) user true
        ≡ true
      → ManagesUsers user
        ⊎ (c.key ≡ some user) × (own_record_access crypto api (changed c) true ≡ true)
  unfolding user_access
  user_access-true user exists h =
      elim (Bool-cases (is_operator crypto api operator_emails (value (some user)))) [
        | inl yes_operator ↦ inl (ManagesUsers.operator yes_operator)
        | inr plain ↦
            elim (Bool-cases
              (has_member (get_set (value (some user)) (str "permissions")) (str "manage:users"))) [
                | inl manages ↦ inl (ManagesUsers.manager (ground arith) manages)
                | inr unable ↦ inr (ground arith, ground arith)
              ]
      ]

  own_record_access-true :
      own_record_access crypto api (changed c) true ≡ true
      → (fields : List JsString) × (changed c ≡ some fields)
        × (has_text (str "email") fields ≡ false)
        × (has_text (str "permissions") fields ≡ false)
  unfolding own_record_access
  own_record_access-true h = elim (Option-cases (changed c)) [
    | inl unknown ↦ absurd (ground arith)
    | inr (fields, e) ↦ (fields, e, ground arith, ground arith)
  ]

  -- A write to the record of a user that exists is allowed only to root, to an operator, to a user
  -- with the permission manage:users, and to the owner of that record, for whom the changed
  -- fields must be known and must hold neither the email nor the permissions.
  pub write_user_only :
      is_null crypto api stored ≡ false
      → in_namespace crypto api stored Namespace.users ≡ true
      → allows true ≡ true
      → (acting true ≡ some (str "root"))
        ⊎ ((user : JsString) × (acting true ≡ some user)
            × (ManagesUsers user
                ⊎ (c.key ≡ some user)
                  × ((fields : List JsString) × (changed c ≡ some fields)
                      × (has_text (str "email") fields ≡ false)
                      × (has_text (str "permissions") fields ≡ false))))
  write_user_only exists ns h = elim (allows-Grounds true h) [
    | own_session w u k ↦ cc
    | root e ↦ inl e
    | by_rights user e r ↦
        let access = user_access-true user exists (sym (rights_users user true exists ns) ∙ r) in
        inr (
          user,
          e,
          elim access [
            | inl manages ↦ inl manages
            | inr (own, fields) ↦ inr (own, own_record_access-true fields)
          ],
        )
  ]

  -- For a user who is no operator, the test on the operators' emails comes out negative: it reads
  -- the record of the user who asks.
  not_operator_email :
      (r : Record)
      → in_namespace crypto api r Namespace.users ≡ true
      → has_operator_email crypto api operator_emails r ≡ is_operator crypto api operator_emails r
  unfolding has_operator_email is_operator email_of
  not_operator_email r known = ground arith

  -- Any user with a record may read the record of any user that exists, an operator's included.
  pub read_any_user :
      (user : JsString)
      → truthy c.signature ≡ true
      → acting false ≡ some user
      → truthy (some user) ≡ true
      → is_null crypto api stored ≡ false
      → in_namespace crypto api stored Namespace.users ≡ true
      → in_namespace crypto api (value (some user)) Namespace.users ≡ true
      → allows false ≡ true
  unfolding sys_dir_authorizer user_access own_record_access
  read_any_user [] signed e named exists ns known = cc
  read_any_user (x ∷ user) signed e named exists ns known = ground (
    arith,
    rights_users (x ∷ user) false exists ns,
    not_operator_email (value (some (x ∷ user))) known,
  )

  rights_other :
      (user : JsString)
      → is_null crypto api stored ≡ false
      → in_namespace crypto api stored Namespace.users ≡ false
      → rights user true ≡ true
      → (in_namespace crypto api stored Namespace.workspaces ≡ true)
        × ((is_operator crypto api operator_emails (value (some user)) ≡ true)
            ⊎ (has_member (get_set stored (str "users")) user ≡ true))
  unfolding by_namespace deciding_namespace in_namespace workspace_access
  rights_other user exists ns h = (ground arith, ground arith)

  -- A write to an existing workspace is allowed only to root, to an operator and to its members,
  -- and a write to an existing session only to root. No one but root writes to a record that
  -- exists in another namespace.
  pub write_other_only :
      is_null crypto api stored ≡ false
      → in_namespace crypto api stored Namespace.users ≡ false
      → allows true ≡ true
      → (acting true ≡ some (str "root"))
        ⊎ ((user : JsString) × (acting true ≡ some user)
            × (in_namespace crypto api stored Namespace.workspaces ≡ true)
            × ((is_operator crypto api operator_emails (value (some user)) ≡ true)
                ⊎ (has_member (get_set stored (str "users")) user ≡ true)))
  write_other_only exists ns h = elim (allows-Grounds true h) [
    | own_session w u k ↦ cc
    | root e ↦ inl e
    | by_rights user e r ↦
        let (ws, access) = rights_other user exists ns r in inr (user, e, ws, access)
  ]
