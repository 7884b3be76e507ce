-- ===== src/Authorizer/Members.antt =====
-- repo/auth.ts: who may use a workspace's and a user's repository, for reads and for writes.
use mathlib.Core.Bool.{Bool, true, false}
use ovvio.Base.{
  Option, none, some, List, [], ◌∷◌, ◌≡◌, ◌&&◌, Any, Bool-cases, arith, ◌⊎◌, ◌↔◌, inl, inr,
  Option-cases,
}
use ovvio.Base.Sets
use ovvio.Base.Text.{JsString, string_discrete, str}
use ovvio.Commit.{Records, Commit, truthy, Namespace}
use ovvio.Session.{Crypto, Session}
use ovvio.Session.Pool.{TrustPool}
use ovvio.Authorizer.{
  has_member, in_namespace, email_of, is_operator, sys_dir_authorizer, acting_user, personal_owner,
  shared_access, workspace_authorizer, user_authorizer,
}

module _ (crypto : Crypto) (api : Records) (pool : TrustPool crypto)
    (value : Option JsString → api.Record) (operator_emails : List JsString) (c : Commit api)
    (session : Session crypto) where
  -- Without a signature each of the authorizers refuses the commit, for reads and for writes.
  pub unsigned_refused :
      (changed : Commit api → Option (List JsString)) (workspace_key repo_user : JsString)
      (write : Bool)
      → truthy c.signature ≡ false
      → (sys_dir_authorizer crypto api pool value changed operator_emails c session write ≡ false)
        × (workspace_authorizer crypto api pool value operator_emails workspace_key c session write
            ≡ false)
        × (user_authorizer crypto api pool repo_user c session write ≡ false)
  unfolding sys_dir_authorizer workspace_authorizer user_authorizer
  unsigned_refused changed workspace_key repo_user write h =
      (ground arith, ground arith, ground arith)

  -- A user's repository is open to exactly two users, for signed commits: root and its owner.
  pub user_authorizer_iff :
      (repo_user : JsString) (write : Bool)
      → (user_authorizer crypto api pool repo_user c session write ≡ true) ↔ (
          (truthy c.signature ≡ true)
          × ((acting_user crypto api pool c session write ≡ some (str "root"))
              ⊎ (acting_user crypto api pool c session write ≡ some repo_user)))
  unfolding user_authorizer
  user_authorizer_iff repo_user write =
      (λ h. (ground arith, ground arith), λ (signed, who). ground arith)

  module _ (workspace_key : JsString) (write : Bool) where
    abbrev allows : Bool
    allows =
        workspace_authorizer crypto api pool value operator_emails workspace_key c session write

    abbrev acting : Option JsString
    acting = acting_user crypto api pool c session write

    -- A personal workspace, one whose key ends in -ws, is open to root and to its owner only: no
    -- operator and no member has access.
    pub personal_workspace :
        (owner : JsString)
        → personal_owner crypto api workspace_key ≡ some owner
        → allows ≡ true
        → (acting ≡ some (str "root")) ⊎ (acting ≡ some owner)
    unfolding workspace_authorizer
    personal_workspace owner personal h = elim (Option-cases acting) [
      | inl nobody ↦ absurd (ground arith)
      | inr (user, e) ↦ by_user user e
    ]
      where
        by_user :
            (user : JsString)
            → acting ≡ some user
            → (acting ≡ some (str "root")) ⊎ (acting ≡ some owner)
        by_user [] e = absurd (ground arith)
        by_user (x ∷ user) e = ground arith

    -- The record of the user in /sys/dir is one of a user and has an email that is one of an operator.
    abbrev pub IsOperator : JsString → Type 0
    IsOperator user =
        (email : JsString) × ((api.scheme_of (value (some user))).namespace ≡ Namespace.users)
        × (api.get_text (value (some user)) (str "email") ≡ some email)
        × (truthy (some email) ≡ true)
        × Any (λ e. e ≡ email) operator_emails

    -- The record of the workspace in /sys/dir is one of a workspace, and lists the user.
    abbrev pub IsMember : JsString → Type 0
    IsMember user =
        (users : List JsString) × ((api.scheme_of (value (some workspace_key))).namespace
          ≡ Namespace.workspaces)
        × (api.get_set (value (some workspace_key)) (str "users") ≡ some users)
        × Any (λ u. u ≡ user) users

    is_operator-IsOperator :
        (user : JsString)
        → (truthy (email_of crypto api (value (some user)))
              && is_operator crypto api operator_emails (value (some user))
            ≡ true)
          ↔ IsOperator user
    unfolding email_of is_operator in_namespace
    is_operator-IsOperator user = (
      λ h. elim (Option-cases (api.get_text (value (some user)) (str "email"))) [
        | inl no_email ↦ absurd (ground arith)
        | inr (email, e) ↦ (
          email,
          ground arith,
          e,
          ground arith,
          (Sets.has_iff string_discrete email operator_emails).0 (ground arith),
        )
      ],
      λ (email, ns, e, some_email, m).
          let listed = (Sets.has_iff string_discrete email operator_emails).1 m in ground arith,
    )

    has_member-IsMember :
        (user : JsString)
        → (in_namespace crypto api (value (some workspace_key)) Namespace.workspaces
              && has_member (api.get_set (value (some workspace_key)) (str "users")) user
            ≡ true)
          ↔ IsMember user
    unfolding in_namespace
    has_member-IsMember user = (
      λ h. elim (Option-cases (api.get_set (value (some workspace_key)) (str "users"))) [
        | inl no_users ↦ absurd (ground arith)
        | inr (users, e) ↦
            (users, ground arith, e, (Sets.has_iff string_discrete user users).0 (ground arith))
      ],
      λ (users, ns, e, m).
          let listed = (Sets.has_iff string_discrete user users).1 m in ground arith,
    )

    shared_access_iff :
        (user : JsString)
        → (shared_access crypto api pool value operator_emails workspace_key user ≡ true)
          ↔ (IsOperator user ⊎ IsMember user)
    unfolding shared_access
    shared_access_iff user =
        let (operator, of_operator) = is_operator-IsOperator user in
        let (member, of_member) = has_member-IsMember user in
        (
          λ h.
              elim (Bool-cases (
                truthy (email_of crypto api (value (some user)))
                && is_operator crypto api operator_emails (value (some user)))) [
                  | inl yes_operator ↦ inl (operator yes_operator)
                  | inr no_operator ↦ inr (member (ground arith))
                ],
          λ who. elim who [
            | inl o ↦ (let is = of_operator o in ground arith)
            | inr m ↦ (let is = of_member m in ground arith)
          ],
        )

    -- A shared workspace is open, by a signed commit, to exactly these users, where the user is the
    -- owner of the session that asks, for a read, and of the session that signed, for a write: root,
    -- operators by the email of their record in /sys/dir, and the members that the record of the
    -- workspace there lists.
    pub shared_workspace :
        personal_owner crypto api workspace_key ≡ none
        → (allows ≡ true) ↔ (
            (truthy c.signature ≡ true)
            × (truthy acting ≡ true)
            × ((acting ≡ some (str "root"))
                ⊎ ((user : JsString) × (acting ≡ some user) × (IsOperator user ⊎ IsMember user))))
    unfolding workspace_authorizer
    shared_workspace shared = (
      λ h. elim (Option-cases acting) [
        | inl nobody ↦ absurd (ground arith)
        | inr (user, e) ↦ (ground arith, ground arith, allowed user e h)
      ],
      λ (signed, somebody, who). elim who [
        | inl root ↦ ground arith
        | inr (user, e, may) ↦ opened user e signed somebody ((shared_access_iff user).1 may)
      ],
    )
      where
        allowed :
            (user : JsString)
            → acting ≡ some user
            → allows ≡ true
            → (acting ≡ some (str "root"))
              ⊎ ((user : JsString) × (acting ≡ some user) × (IsOperator user ⊎ IsMember user))
        allowed [] e h = absurd (ground arith)
        allowed (x ∷ user) e h = elim (string_discrete (x ∷ user) (str "root")) [
          | yes is_root ↦ inl (ground arith)
          | no other ↦ inr (x ∷ user, e, (shared_access_iff (x ∷ user)).0 (ground arith))
        ]

        opened :
            (user : JsString)
            → acting ≡ some user
            → truthy c.signature ≡ true
            → truthy acting ≡ true
            → shared_access crypto api pool value operator_emails workspace_key user ≡ true
            → allows ≡ true
        opened [] e signed somebody may = absurd (ground arith)
        opened (x ∷ user) e signed somebody may = ground arith
