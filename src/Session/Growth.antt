-- ===== src/Session/Growth.antt =====
-- auth/session.ts: how `addSessionUnsafe` changes the pool.
use mathlib.Core.Bool.{true, false}
use ovvio.Base.{
  some, List, [], ◌∷◌, ◌≡◌, ◌≢◌, ◌≤◌, refl, sym, ap, arith, ◌⊎◌, inl, inr, Bool-cases, Option-cases,
  map,
}
use ovvio.Base.Maps
use ovvio.Base.Sets
use ovvio.Base.Text.{JsString, string_discrete}
use ovvio.Commit.{truthy}
use ovvio.Session.{Crypto, Session, OwnedSession}
use ovvio.Session.Pool.{TrustPool, get_session, is_news, add_root, refresh, add_session_unsafe}

module _ (crypto : Crypto) where
  -- The newer copy of a session lasts as long, or has an owner where the older had none.
  abbrev pub Supersedes : Session crypto → Session crypto → Type 0
  Supersedes new old =
      (old.expiration ≤ new.expiration) ⊎ (truthy old.owner ≡ false) × (truthy new.owner ≡ true)

  module _ (pool : TrustPool crypto) (s : Session crypto) where
    abbrev pub after : TrustPool crypto
    after = (add_session_unsafe crypto pool s).0

    -- No session leaves the pool. One with another id stays as it is, and one with the id of the
    -- added session stays, or gives way to it where that lasts longer or brings the first owner.
    pub get_session-add :
        (id : JsString) (old : Session crypto)
        → get_session crypto pool id ≡ some old
        → (new : Session crypto) × (get_session crypto after id ≡ some new)
          × Supersedes new old
          × (new ≢ old → (new ≡ s) × (id ≡ s.id))
    unfolding add_session_unsafe get_session is_news
    get_session-add id old at =
        let put = Maps.get-put string_discrete s.id id s pool.sessions in
        elim (Bool-cases (is_news crypto (get_session crypto pool s.id) s)) [
          | inr stale ↦ (old, ground arith, inl (omega arith), λ n. absurd (n refl))
          | inl news ↦ elim (string_discrete s.id id) [
            | no other ↦ (old, ground (arith, put), inl (omega arith), λ n. absurd (n refl))
            | yes here ↦ (
              s,
              ground (arith, put),
              news-Supersedes old (ground (arith, ap (λ k. get_session crypto pool k) here)),
              λ n. (refl, sym here),
            )
          ]
        ]
      where
        news-Supersedes : (o : Session crypto) → is_news crypto (some o) s ≡ true → Supersedes s o
        news-Supersedes o h = ground arith

    -- The added session is in the pool afterwards, under its id, or a copy that it does not improve.
    pub get_session-add_self :
        (new : Session crypto) × (get_session crypto after s.id ≡ some new)
        × (is_news crypto (some new) s ≡ false)
    unfolding add_session_unsafe get_session
    get_session-add_self = elim (Option-cases (get_session crypto pool s.id)) [
      | inl fresh ↦
          (s, ground (arith, Maps.get-put_self string_discrete s.id s pool.sessions), ground arith)
      | inr (old, at) ↦ elim (Bool-cases (is_news crypto (some old) s)) [
        | inl news ↦ (
          s,
          ground (arith, Maps.get-put_self string_discrete s.id s pool.sessions),
          ground arith,
        )
        | inr stale ↦ (old, ground arith, stale)
      ]
    ]

    -- The current session keeps its id and its private key.
    pub current-add :
        (after.current.session.id ≡ pool.current.session.id)
        × (after.current.private_key ≡ pool.current.private_key)
        × (after.org_id ≡ pool.org_id)
    unfolding add_session_unsafe
    current-add = ground arith

  -- The ids of the roots are a set, to which a root session adds its own.
  pub map-add_root :
      (roots : List (Session crypto)) (s : Session crypto)
      → map (λ r. r.id) (add_root crypto roots s)
        ≡ Sets.add string_discrete s.id (map (λ r. r.id) roots)
  unfolding add_root Sets.add
  map-add_root [] s = refl
  map-add_root (r ∷ roots) s = ground (arith, map-add_root roots s)

  add_root_idem :
      (roots : List (Session crypto)) (s : Session crypto)
      → add_root crypto (add_root crypto roots s) s ≡ add_root crypto roots s
  unfolding add_root
  add_root_idem [] s = ground arith
  add_root_idem (r ∷ roots) s = ground (arith, add_root_idem roots s)

  refresh_idem :
      (current : OwnedSession crypto) (s : Session crypto)
      → refresh crypto (refresh crypto current s) s ≡ refresh crypto current s
  unfolding refresh
  refresh_idem current s = ground arith

  -- To add a session once more changes nothing, and is answered with no.
  pub add_session_unsafe_idem :
      (pool : TrustPool crypto) (s : Session crypto)
      → add_session_unsafe crypto (after pool s) s ≡ (after pool s, false)
  unfolding add_session_unsafe get_session
  add_session_unsafe_idem pool s =
      let (new, at, stale) = get_session-add_self pool s in
      ground (arith, add_root_idem pool.roots s, refresh_idem pool.current s)
