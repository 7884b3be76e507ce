-- ===== src/Tests/Sessions.antt =====
-- auth/session.ts at a small pool.
use ovvio.Base.{true, false, some, none, [], ◌∷◌, refl, ◌≡◌, ◌⊎◌, ℕ_discrete}
use ovvio.Base.Maps
use ovvio.Base.Text.{JsString, str, string_discrete, key_discrete}
use ovvio.Commit.{Commit}
use ovvio.Session.{
  Session, is_after, verify_data, decode_signature, session_id_from_signature, signer_id,
  verify_commit,
}
use ovvio.Session.Pool.{
  TrustPool, get_session, is_root, is_news, add_root, refresh, add_session_unsafe, verify_by_root,
  is_foreign, verify_session, add_session, verify,
}
use ovvio.Session.Trust.{Signed, SignedByRoot, verify-Signed, add_session-SignedByRoot}
use ovvio.Tests.Samples.{
  records, crypto, session, server, alice_session, pool, sample, commit, serialize,
}
use ovvio.Commit.{Namespace}

program : Unit {0}
unfolding verify_data decode_signature session_id_from_signature signer_id verify_commit get_session
    is_root is_news add_root refresh add_session_unsafe verify_by_root is_foreign verify_session
    add_session verify string_discrete key_discrete ℕ_discrete Maps.get Maps.put
program = tt

-- The session of bob, first without an owner, and the commit of the server that brings it.
abbrev bob_session : Session crypto
bob_session = session (str "sb") none 9

abbrev bob_owned : Session crypto
bob_owned = session (str "sb") (some (str "bob")) 8

abbrev by_server : Commit records
by_server = commit (str "c") (str "sb") (some (str "srv")) (sample Namespace.sessions (str "1"))

abbrev by_alice : Commit records
by_alice = commit (str "c") (str "sb") (some (str "sa")) (sample Namespace.sessions (str "1"))

abbrev pool_with_bob : TrustPool crypto
pool_with_bob = record pool {
  sessions = (str "srv", server) ∷ (str "sa", alice_session) ∷ (str "sb", bob_session) ∷ [];
}

verify_both :
    (verify crypto records serialize pool by_server ≡ true)
    × (verify crypto records serialize pool by_alice ≡ true)
unfolding program
verify_both = (refl, refl)

-- A signature without a time passes the test of the expiration, one behind the expiration does not.
undated :
    (is_after crypto none 5 ≡ false)
    × (is_after crypto (some 6) 5 ≡ true)
    × (is_after crypto (some 5) 5 ≡ false)
unfolding program
undated = (refl, refl, refl)

-- The server's commit brings the session in, that of alice does not.
add_session_both :
    (add_session crypto records serialize pool bob_session by_server ≡ (pool_with_bob, true))
    × (add_session crypto records serialize pool bob_session by_alice ≡ (pool, false))
unfolding program
add_session_both = (refl, refl)

add_session_owned : add_session_unsafe crypto pool_with_bob bob_owned ≡ (
  record pool {
    sessions = (str "srv", server) ∷ (str "sa", alice_session) ∷ (str "sb", bob_owned) ∷ [];
  },
  true,
)
unfolding program
add_session_owned = refl

verify-Signed_example :
    (some (str "org") ≡ some (str "org"))
    × ((s : Session crypto) × (id : JsString) × (get_session crypto pool id ≡ some s)
        × (signer_id crypto by_alice.signature ≡ some id)
        × Signed crypto records serialize s by_alice)
verify-Signed_example = verify-Signed crypto records serialize pool by_alice (verify_both.1)

add_session-SignedByRoot_example :
    (add_session crypto records serialize pool bob_session by_server ≡ (pool, false))
    ⊎ (some (str "org") ≡ some (str "org")) × SignedByRoot crypto records serialize pool by_server
add_session-SignedByRoot_example =
    add_session-SignedByRoot crypto records serialize pool bob_session by_server

with_bob : get_session crypto pool_with_bob (str "sb") ≡ some bob_session
unfolding program
with_bob = refl
