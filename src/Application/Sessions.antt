-- ===== src/Application/Sessions.antt =====
-- application-management-service/internal/application/session.go. The time and the answer of the
-- random number generator are arguments.
use Prim.Native.String.{◌++◌ as concat}
use psr_pl.Base.{ℕ, ◌+◌, ◌*◌, ◌/◌, ◌^◌, String, Option, none, some, leb, if◌then◌else◌}
use psr_pl.Go.{Result, Exec, pure, raise, lift, wrapping, ◌>>=◌, ◌>>◌, sentinel, session_invalid}
use psr_pl.Dynamo.{Dynamo, Codec, Messages, put_record, always}

-- The Go interface `SessionStore`. `create` takes what the random number generator answers, the time,
-- the application's id and the time to live; `validate` takes the time and the token.
pub record SessionStore (D : Type 0) : Type 0 where
  pub create : Result String → ℕ → String → ℕ → Exec D String
  pub validate : ℕ → String → Exec D String

pub record SessionRecord : Type 0 where
  pub id : String
  pub application_id : String
  pub expires_at : ℕ

abbrev pub session_item_id : String → String
session_item_id token = concat "SESSION#" token

-- `time.Minute`, and `Unix` of an instant.
abbrev pub minute : ℕ
minute = 60 * 10 ^ 9

abbrev pub unix : ℕ → ℕ
unix t = t / 10 ^ 9

abbrev pub session_record : String → String → ℕ → ℕ → SessionRecord
session_record token application_id now ttl = record {
  id = session_item_id token;
  application_id = application_id;
  expires_at = unix (now + ttl);
}

abbrev pub messages : Messages
messages = record {
  marshalling = "marshalling session";
  writing = "creating session";
  marshalling_key = "marshalling session key";
  retrieving = "retrieving session";
  unmarshalling = "unmarshalling session";
}

module _ {D Item : Type 0} (d : Dynamo D Item) (codec : Codec SessionRecord Item) where
  unfoldable pub create : Result String → ℕ → String → ℕ → Exec D String
  create random now application_id ttl = do
    token ← wrapping "generating session token" (lift random)
    put_record d codec messages always (session_record token application_id now ttl)
    pure token

  abbrev check_expiry : ℕ → SessionRecord → Exec D String
  check_expiry now r =
      if leb r.expires_at (unix now)
      then raise (sentinel session_invalid)
      else pure r.application_id

  abbrev found_session : ℕ → Option Item → Exec D String
  found_session now none = raise (sentinel session_invalid)
  found_session now (some item) = do
    r ← wrapping messages.unmarshalling (lift (codec.unmarshal item))
    check_expiry now r

  unfoldable pub validate : ℕ → String → Exec D String
  validate now token = do
    key ← wrapping messages.marshalling_key (lift (codec.marshal_key (session_item_id token)))
    out ← wrapping messages.retrieving (d.get_item key)
    found_session now out

  unfoldable pub dynamo_session_store : SessionStore D
  dynamo_session_store = record { create = create; validate = validate }
