-- ===== src/Session.antt =====
-- auth/session.ts: sessions, signatures and the class `TrustPool`. Keys, the signing algorithm and
-- the text encodings are the platform's, so they are the interface `Crypto`.
pub mod Pool
pub mod Trust
pub mod Growth
use mathlib.Core.Bool.{Bool, true, false, not}
use ovvio.Base.{
  ℕ, Option, none, some, List, [], ◌∷◌, is_some, leb, ltb, ◌==◌, same, ◌&&◌, ◌||◌, if◌then◌else◌,
}
use ovvio.Base.Maps
use ovvio.Base.Maps.{Map}
use ovvio.Base.Text.{JsString, string_discrete, str, key_discrete}
use ovvio.Commit.{Records, Commit, truthy}

-- A signature as JSON gives it: a timestamp that is missing, or is no number, is `none`. The data that
-- are signed do not hold it.
pub record Signature (Data : Type 0) : Type 0 where
  pub session_id : JsString
  pub signature : JsString
  pub timestamp : Option ℕ
  pub embedded : Option Data

-- `crypto.subtle`, `stableStringify`, `JSON.parse` and the base 32 encoding.
pub record Crypto : Type 1 where
  pub PublicKey : Type 0
  pub PrivateKey : Type 0
  pub Data : Type 0
  pub check : PublicKey → JsString → JsString → Option Data → Option Data → Bool
  pub decode : JsString → Signature Data

module _ (crypto : Crypto) where
  open crypto use {PublicKey, PrivateKey, Data, check, decode}

  pub record Session : Type 0 where
    pub id : JsString
    pub public_key : PublicKey
    pub owner : Option JsString
    pub expiration : ℕ

  pub record OwnedSession : Type 0 where
    pub session : Session
    pub private_key : PrivateKey

  -- `sig.timestamp > expiration`, where undefined is not greater.
  abbrev pub is_after : Option ℕ → ℕ → Bool
  is_after none expiration = false
  is_after (some t) expiration = ltb expiration t

  -- `verifyData` on a decoded signature, where `external` is the data beside it. The table of
  -- earlier answers of the same call is left out.
  unfoldable pub verify_data : Session → Option (Signature Data) → Option Data → Bool
  verify_data expected none external = false
  verify_data expected (some sig) external =
      if not (truthy (some sig.session_id)) || not (same string_discrete sig.session_id expected.id)
      then false
      else if is_after sig.timestamp expected.expiration
      then false
      else check expected.public_key sig.signature expected.id external sig.embedded

  -- `decodeSignature`: an absent or empty string is no signature.
  unfoldable pub decode_signature : Option JsString → Option (Signature Data)
  decode_signature none = none
  decode_signature (some []) = none
  decode_signature (some (c ∷ s)) = some (decode (c ∷ s))

  unfoldable pub session_id_from_signature : JsString → JsString
  session_id_from_signature sig = (decode sig).session_id

  -- `signerIdFromCommit`, on the signature: an empty one is passed through.
  unfoldable pub signer_id : Option JsString → Option JsString
  unfolding session_id_from_signature
  signer_id none = none
  signer_id (some []) = some []
  signer_id (some (c ∷ s)) = some (session_id_from_signature (c ∷ s))

  module _ (api : Records) (serialize : Commit api → Data) where
    -- `serialize` is the unsigned form of the commit.
    unfoldable pub verify_commit : Session → Commit api → Bool
    verify_commit expected c =
        verify_data expected (decode_signature c.signature) (some (serialize c))
