-- ===== src/Tests/Samples.antt =====
-- Records, keys and signatures that can be evaluated, and a few commits of theirs.
use ovvio.Base.{ℕ, false, List, [], ◌∷◌, Option, none, some, same}
use ovvio.Base.Maps
use ovvio.Base.Maps.{Map}
use ovvio.Base.Text.{JsString, str, string_discrete}
use ovvio.Commit.{Namespace, Scheme, null_scheme, Records, Contents, Commit}
use ovvio.Session.{Crypto, Session}
use ovvio.Session.Pool.{TrustPool}

pub record Sample : Type 0 where
  pub scheme : Scheme
  pub texts : Map JsString JsString
  pub sets : Map JsString (List JsString)
  pub sum : JsString

abbrev pub null_sample : Sample
null_sample = record { scheme = null_scheme; texts = []; sets = []; sum = str "0" }

-- A change replaces the record.
abbrev pub records : Records
records = record {
  Record = Sample;
  Changes = Option Sample;
  scheme_of = λ r. r.scheme;
  checksum = λ r. r.sum;
  get_text = λ r f. Maps.get string_discrete f r.texts;
  get_set = λ r f. Maps.get string_discrete f r.sets;
  null_record = null_sample;
  patch = λ r c. elim c [ none ↦ r | some r' ↦ r' ];
  diff = λ r r' b. some r';
  concat_changes = λ c d. elim d [ none ↦ c | some r ↦ some r ];
  no_changes = none;
  upgrade_scheme = λ r s. record r { scheme = s };
  same_record = λ r r'. same string_discrete r.sum r'.sum;
}

-- A key is the id of its session. A signature is the id of its signer, given at the time 5.
abbrev pub crypto : Crypto
crypto = record {
  PublicKey = JsString;
  PrivateKey = JsString;
  Data = JsString;
  check = λ key sig id ext emb. same string_discrete key sig;
  decode = λ s. record { session_id = s; signature = s; timestamp = some 5; embedded = none };
}

abbrev pub session : JsString → Option JsString → ℕ → Session crypto
session id owner expiration = record {
  id = id;
  public_key = id;
  owner = owner;
  expiration = expiration;
}

abbrev pub server : Session crypto
server = session (str "srv") (some (str "root")) 9

abbrev pub alice_session : Session crypto
alice_session = session (str "sa") (some (str "alice")) 9

abbrev pub pool : TrustPool crypto
pool = record {
  org_id = str "org";
  current = record { session = session (str "me") none 7; private_key = str "secret" };
  roots = server ∷ [];
  sessions = (str "srv", server) ∷ (str "sa", alice_session) ∷ [];
}

abbrev pub scheme_in : Namespace → Scheme
scheme_in ns = record { namespace = ns; version = 1; fields = str "name" ∷ [] }

abbrev pub sample : Namespace → JsString → Sample
sample ns sum = record { scheme = scheme_in ns; texts = []; sets = []; sum = sum }

-- A commit of the key, signed by the session.
abbrev pub commit : JsString → JsString → Option JsString → Sample → Commit records
commit id key signer r = record {
  id = id;
  session = str "sa";
  org_id = some (str "org");
  key = some key;
  contents = Contents.full r;
  parents = [];
  ancestors_count = 0;
  timestamp = 5;
  signature = signer;
  merge_base = none;
  merge_leader = none;
  revert = none;
  connection_id = str "c1";
  frozen = false;
}

abbrev pub serialize : Commit records → JsString
serialize c = c.id
