-- ===== src/Session/Pool.antt =====
-- auth/session.ts: the class `TrustPool`. The change callback is called exactly where the answer of
-- `addSessionUnsafe` is yes.
use mathlib.Core.Bool.{Bool, true, false, not}
use ovvio.Base.{Option, none, some, List, [], ◌∷◌, ltb, same, ◌&&◌, ◌||◌, if◌then◌else◌}
use ovvio.Base.Maps
use ovvio.Base.Maps.{Map}
use ovvio.Base.Text.{JsString, string_discrete, str, key_discrete}
use ovvio.Commit.{Records, Commit, truthy}
use ovvio.Session.{Crypto, Session, OwnedSession, verify_commit, signer_id}

module _ (crypto : Crypto) where
  pub record TrustPool : Type 0 where
    pub org_id : JsString
    pub current : OwnedSession crypto
    pub roots : List (Session crypto)
    pub sessions : Map JsString (Session crypto)

  -- `sessions.set(s.id, s)` for each session in turn.
  unfoldable pub set_all :
      List (Session crypto) → Map JsString (Session crypto) → Map JsString (Session crypto)
  set_all [] m = m
  set_all (s ∷ ss) m = set_all ss (Maps.put string_discrete s.id s m)

  -- The constructor.
  unfoldable pub new_pool :
      JsString → OwnedSession crypto → List (Session crypto) → List (Session crypto) → TrustPool
  unfolding set_all
  new_pool org_id current roots trusted = record {
    org_id = org_id;
    current = current;
    roots = roots;
    sessions =
        Maps.put string_discrete current.session.id current.session
          (set_all roots (set_all trusted []));
  }

  unfoldable pub get_session : TrustPool → JsString → Option (Session crypto)
  get_session pool id = Maps.get string_discrete id pool.sessions

  -- `s.owner === 'root'`
  unfoldable pub is_root : Session crypto → Bool
  is_root s = same key_discrete s.owner (some (str "root"))

  -- The condition under which `addSessionUnsafe` stores the session.
  unfoldable pub is_news : Option (Session crypto) → Session crypto → Bool
  is_news none s = true
  is_news (some old) s =
      ltb old.expiration s.expiration || (not (truthy old.owner) && truthy s.owner)

  -- The loop over the roots, and the `push` behind it.
  unfoldable pub add_root : List (Session crypto) → Session crypto → List (Session crypto)
  add_root [] s = s ∷ []
  add_root (r ∷ roots) s =
      if same string_discrete r.id s.id
      then (if ltb r.expiration s.expiration then s ∷ roots else r ∷ roots)
      else r ∷ add_root roots s

  -- The current session takes on the data of a better copy of itself, and keeps its private key.
  unfoldable pub refresh : OwnedSession crypto → Session crypto → OwnedSession crypto
  refresh current s =
      if same string_discrete s.id current.session.id
        && (truthy s.owner && not (truthy current.session.owner)
            || ltb current.session.expiration s.expiration)
      then record current { session = s }
      else current

  unfoldable pub add_session_unsafe : TrustPool → Session crypto → TrustPool × Bool
  unfolding is_news add_root refresh is_root
  add_session_unsafe pool s =
      let updated = is_news (get_session pool s.id) s in
      (
        record pool {
          sessions =
              if updated then Maps.put string_discrete s.id s pool.sessions else pool.sessions;
          roots = if is_root s then add_root pool.roots s else pool.roots;
          current = refresh pool.current s;
        },
        updated,
      )

  module _ (api : Records) (serialize : Commit api → crypto.Data) where
    -- The loop of `verifySession` over the roots.
    unfoldable pub verify_by_root : List (Session crypto) → Option JsString → Commit api → Bool
    verify_by_root [] signer c = false
    verify_by_root (r ∷ roots) signer c =
        if same key_discrete signer (some r.id)
        then verify_commit crypto api serialize r c
        else verify_by_root roots signer c

    -- `!commit.orgId || commit.orgId !== this.orgId`
    unfoldable pub is_foreign : TrustPool → Commit api → Bool
    is_foreign pool c = not (truthy c.org_id) || not (same key_discrete c.org_id (some pool.org_id))

    unfoldable pub verify_session : TrustPool → Commit api → Bool
    unfolding is_foreign verify_by_root is_root
    verify_session pool c =
        if is_foreign pool c || not (truthy c.signature)
        then false
        else let signer = signer_id crypto c.signature in
          if is_root pool.current.session && same key_discrete signer (some pool.current.session.id)
          then verify_commit crypto api serialize pool.current.session c
          else verify_by_root pool.roots signer c

    unfoldable pub add_session : TrustPool → Session crypto → Commit api → TrustPool × Bool
    add_session pool s c =
        if verify_session pool c then add_session_unsafe pool s else (pool, false)

    unfoldable pub verify : TrustPool → Commit api → Bool
    unfolding is_foreign
    verify pool c = if is_foreign pool c then false else elim (signer_id crypto c.signature) [
      | none ↦ false
      | some [] ↦ false
      | some (x ∷ id) ↦ elim (get_session pool (x ∷ id)) [
        | none ↦ false
        | some signer ↦ verify_commit crypto api serialize signer c
      ]
    ]
