-- ===== src/Session/Trust.antt =====
-- auth/session.ts: what `TrustPool` takes for a valid commit, and for a commit of a session.
use mathlib.Core.Bool.{true, false}
use ovvio.Base.{
  ℕ, Option, some, List, [], ◌∷◌, same, ◌&&◌, ◌≡◌, ◌≤◌, arith, ◌⊎◌, inl, inr, Bool-cases,
  Option-cases, Any,
}
use ovvio.Base.Text.{JsString, key_discrete}
use ovvio.Commit.{Records, Commit}
use ovvio.Session.{
  Crypto, Session, Signature, verify_data, verify_commit, signer_id, decode_signature,
}
use ovvio.Session.Pool.{
  TrustPool, get_session, is_root, verify_by_root, verify_session, add_session, verify,
}

module _ (crypto : Crypto) (api : Records) (serialize : Commit api → crypto.Data) where
  -- The session signed the commit, and had not expired at the time that its signature gives, where it
  -- gives one.
  pub record Signed (s : Session crypto) (c : Commit api) : Type 0 where
    pub sig : Signature crypto.Data
    pub decoded : decode_signature crypto c.signature ≡ some sig
    pub by : sig.session_id ≡ s.id
    pub in_time : (t : ℕ) → sig.timestamp ≡ some t → t ≤ s.expiration
    pub checks :
        crypto.check s.public_key sig.signature s.id (some (serialize c)) sig.embedded ≡ true

  verify_commit-Signed :
      (s : Session crypto) (c : Commit api)
      → verify_commit crypto api serialize s c ≡ true
      → Signed s c
  unfolding verify_commit verify_data
  verify_commit-Signed s c h = elim (Option-cases (decode_signature crypto c.signature)) [
    | inl absent ↦ absurd (ground arith)
    | inr (sig, e) ↦ record {
      sig = sig;
      decoded = e;
      by = ground arith;
      in_time = λ t at. ground arith;
      checks = ground arith;
    }
  ]

  -- A commit that `verify` accepts is of the pool's organization, and is signed by a session of
  -- the pool under the session's own id. A time that the signature gives is not after the expiration
  -- of that session; a signature that gives none passes without one.
  pub verify-Signed :
      (pool : TrustPool crypto) (c : Commit api)
      → verify crypto api serialize pool c ≡ true
      → (c.org_id ≡ some pool.org_id)
        × ((s : Session crypto) × (id : JsString) × (get_session crypto pool id ≡ some s)
            × (signer_id crypto c.signature ≡ some id)
            × Signed s c)
  unfolding verify
  verify-Signed pool c h = (
    ground arith,
    elim (Option-cases (signer_id crypto c.signature)) [
      | inl unsigned ↦ absurd (ground arith)
      | inr (id, e) ↦ by_session id e
    ],
  )
    where
      by_session :
          (id : JsString)
          → signer_id crypto c.signature ≡ some id
          → (s : Session crypto) × (id : JsString) × (get_session crypto pool id ≡ some s)
            × (signer_id crypto c.signature ≡ some id)
            × Signed s c
      by_session [] e = absurd (ground arith)
      by_session (x ∷ id) e = elim (Option-cases (get_session crypto pool (x ∷ id))) [
        | inl unknown ↦ absurd (ground arith)
        | inr (s, at) ↦ (s, x ∷ id, at, e, verify_commit-Signed s c (ground arith))
      ]

  -- A root session of the pool signed the commit.
  abbrev pub SignedByRoot : TrustPool crypto → Commit api → Type 0
  SignedByRoot pool c =
      (is_root crypto pool.current.session ≡ true) × Signed pool.current.session c
      ⊎ Any (λ r. Signed r c) pool.roots

  verify_by_root-Signed :
      (roots : List (Session crypto)) (signer : Option JsString) (c : Commit api)
      → verify_by_root crypto api serialize roots signer c ≡ true
      → Any (λ r. Signed r c) roots
  unfolding verify_by_root
  verify_by_root-Signed [] signer c h = absurd (cc)
  verify_by_root-Signed (r ∷ roots) signer c h =
      elim (Bool-cases (same key_discrete signer (some r.id))) [
        | inl mine ↦ inl (verify_commit-Signed r c (ground arith))
        | inr other ↦ inr (verify_by_root-Signed roots signer c (ground arith))
      ]

  -- A session enters the pool by a commit only if the commit is of the pool's organization and is
  -- signed by a root: the current session where it is one, or one of the pool's roots. Any other
  -- commit leaves the pool as it is.
  pub add_session-SignedByRoot :
      (pool : TrustPool crypto) (s : Session crypto) (c : Commit api)
      → (add_session crypto api serialize pool s c ≡ (pool, false))
        ⊎ (c.org_id ≡ some pool.org_id) × SignedByRoot pool c
  unfolding add_session verify_session
  add_session-SignedByRoot pool s c =
      elim (Bool-cases (verify_session crypto api serialize pool c)) [
        | inr rejected ↦ inl (ground arith)
        | inl accepted ↦ inr (
          ground arith,
          elim (Bool-cases (
              is_root crypto pool.current.session
              && same key_discrete (signer_id crypto c.signature) (some pool.current.session.id))) [
                | inl own ↦
                    inl (ground arith, verify_commit-Signed pool.current.session c (ground arith))
                | inr other ↦ inr (
                    verify_by_root-Signed pool.roots (signer_id crypto c.signature) c
                      (ground arith))
              ],
        )
      ]
