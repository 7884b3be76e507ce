-- ===== src/Tests/Access.antt =====
-- repo/auth.ts at a small directory.
use ovvio.Base.{
  Bool, true, false, some, none, Option, List, [], ◌∷◌, refl, ◌≡◌, ◌⊎◌, ◌↔◌, ℕ_discrete,
}
use ovvio.Base.Maps
use ovvio.Base.Sets
use ovvio.Base.Text.{JsString, str, string_discrete, key_discrete}
use ovvio.Commit.{Commit, truthy, Namespace, is_null_scheme, scheme}
use ovvio.Session.{session_id_from_signature}
use ovvio.Session.Pool.{get_session}
use ovvio.Authorizer.{
  namespace_discrete, signer_owner, is_null, in_namespace, email_of, is_operator, has_member,
  has_text, workspace_access, has_operator_email, own_record_access, user_access,
  deciding_namespace, lacks_scheme, by_namespace, sys_dir_user, sys_dir_authorizer, acting_user,
  personal_owner, shared_access, workspace_authorizer, user_authorizer,
}
use ovvio.Authorizer.SysDir.{ManagesUsers, write_user_only, write_other_only}
use ovvio.Authorizer.Members.{personal_workspace, IsOperator, IsMember, shared_workspace}
use ovvio.Tests.Samples.{Sample, null_sample, records, crypto, alice_session, pool, sample, commit}

program : Unit {0}
unfolding namespace_discrete signer_owner is_null in_namespace email_of is_operator workspace_access
    has_operator_email own_record_access user_access deciding_namespace lacks_scheme by_namespace
    sys_dir_user sys_dir_authorizer acting_user personal_owner shared_access workspace_authorizer
    user_authorizer is_null_scheme scheme session_id_from_signature get_session string_discrete
    key_discrete ℕ_discrete Maps.get Sets.has
program = tt

abbrev alice : Sample
alice = record (sample Namespace.users (str "1")) { texts = (str "email", str "a@x") ∷ [] }

abbrev operator : Sample
operator = record (sample Namespace.users (str "2")) { texts = (str "email", str "op@x") ∷ [] }

abbrev team : Sample
team = record (sample Namespace.workspaces (str "3")) {
  sets = (str "users", str "alice" ∷ []) ∷ [];
}

abbrev directory : Option JsString → Sample
directory none = null_sample
directory (some k) =
    elim (Maps.get string_discrete k
      ((str "alice", alice) ∷ (str "op", operator) ∷ (str "team", team) ∷ [])) [
        | none ↦ null_sample
        | some r ↦ r
      ]

abbrev operators : List JsString
operators = str "op@x" ∷ []

abbrev signed : JsString → Commit records
signed key = commit (str "c") key (some (str "sa")) (directory (some key))

abbrev renamed : Commit records → Option (List JsString)
renamed c = some (str "name" ∷ [])

abbrev sys_dir : (Commit records → Option (List JsString)) → Commit records → Bool → Bool
sys_dir changed c write =
    sys_dir_authorizer crypto records pool directory changed operators c alice_session write

abbrev workspace : JsString → Commit records → Bool → Bool
workspace key c write =
    workspace_authorizer crypto records pool directory operators key c alice_session write

-- Alice may write to her own record and to her team, and read an operator, whom she may not change.
sys_dir_alice :
    (sys_dir renamed (signed (str "alice")) true ≡ true)
    × (sys_dir (λ c. some (str "email" ∷ [])) (signed (str "alice")) true ≡ false)
    × (sys_dir renamed (signed (str "team")) true ≡ true)
    × (sys_dir renamed (signed (str "op")) false ≡ true)
    × (sys_dir renamed (signed (str "op")) true ≡ false)
unfolding program
sys_dir_alice = (refl, refl, refl, refl, refl)

workspace_alice :
    (workspace (str "alice-ws") (signed (str "n")) true ≡ true)
    × (workspace (str "bob-ws") (signed (str "n")) true ≡ false)
    × (workspace (str "team") (signed (str "n")) true ≡ true)
    × (workspace (str "other") (signed (str "n")) true ≡ false)
unfolding program
workspace_alice = (refl, refl, refl, refl)

alice_facts :
    (is_null crypto records (directory (some (str "alice"))) ≡ false)
    × (in_namespace crypto records (directory (some (str "alice"))) Namespace.users ≡ true)
    × (is_null crypto records (directory (some (str "team"))) ≡ false)
    × (in_namespace crypto records (directory (some (str "team"))) Namespace.users ≡ false)
    × (is_null crypto records (directory (some (str "op"))) ≡ false)
    × (in_namespace crypto records (directory (some (str "op"))) Namespace.users ≡ true)
unfolding program
alice_facts = (refl, refl, refl, refl, refl, refl)

owners :
    (personal_owner crypto records (str "alice-ws") ≡ some (str "alice"))
    × (personal_owner crypto records (str "team") ≡ none)
unfolding program
owners = (refl, refl)

abbrev acting : Commit records → Bool → Option JsString
acting c write = acting_user crypto records pool c alice_session write

abbrev asking : Commit records → Bool → Option JsString
asking c write = sys_dir_user crypto records pool directory renamed operators c alice_session write

asking_alice : asking (signed (str "op")) false ≡ some (str "alice")
unfolding program
asking_alice = refl

write_user_only_example :
    (asking (signed (str "alice")) true ≡ some (str "root"))
    ⊎ ((user : JsString) × (asking (signed (str "alice")) true ≡ some user)
        × (ManagesUsers crypto records pool directory renamed operators
              (signed (str "alice"))
              alice_session
              user
            ⊎ (some (str "alice") ≡ some user)
              × ((fields : List JsString) × (renamed (signed (str "alice")) ≡ some fields)
                  × (has_text (str "email") fields ≡ false)
                  × (has_text (str "permissions") fields ≡ false))))
write_user_only_example =
    write_user_only crypto records pool directory renamed operators (signed (str "alice"))
      alice_session alice_facts.0 alice_facts.1 sys_dir_alice.0

write_other_only_example :
    (asking (signed (str "team")) true ≡ some (str "root"))
    ⊎ ((user : JsString) × (asking (signed (str "team")) true ≡ some user)
        × (in_namespace crypto records (directory (some (str "team"))) Namespace.workspaces ≡ true)
        × ((is_operator crypto records operators (directory (some user)) ≡ true)
            ⊎ (has_member (records.get_set (directory (some (str "team"))) (str "users")) user
                ≡ true)))
write_other_only_example =
    write_other_only crypto records pool directory renamed operators (signed (str "team"))
      alice_session alice_facts.2 alice_facts.3 sys_dir_alice.2

personal_workspace_example :
    (acting (signed (str "n")) true ≡ some (str "root"))
    ⊎ (acting (signed (str "n")) true ≡ some (str "alice"))
personal_workspace_example =
    personal_workspace crypto records pool directory operators (signed (str "n")) alice_session
      (str "alice-ws") true (str "alice") owners.0 workspace_alice.0

shared_workspace_example :
    (workspace_authorizer crypto records pool directory operators
        (str "team")
        (signed (str "n"))
        alice_session
        true
      ≡ true)
    ↔ ((truthy (signed (str "n")).signature ≡ true)
        × (truthy (acting (signed (str "n")) true) ≡ true)
        × ((acting (signed (str "n")) true ≡ some (str "root"))
            ⊎ ((user : JsString) × (acting (signed (str "n")) true ≡ some user)
                × (IsOperator crypto records pool directory operators
                      (signed (str "n"))
                      alice_session
                      (str "team")
                      true
                      user
                    ⊎ IsMember crypto records pool directory operators
                        (signed (str "n"))
                        alice_session
                        (str "team")
                        true
                        user))))
shared_workspace_example =
    shared_workspace crypto records pool directory operators (signed (str "n")) alice_session
      (str "team") true owners.1
