-- ===== src/Platform/Tests/Fixtures.antt =====
-- The network of the runs: encoders that keep what they are given, and one application with its
-- session.
use Prim.Native.Char.{Char, char, code}
use Prim.Native.String.{String}
use psr_pl.Base.{
  ℕ, ◌*◌, ◌^◌, Bool, true, false, List, [], ◌∷◌, none, ◌==◌, ◌≡◌, refl, arith, nat_eq, leb, inl,
  inr, Bool-cases, Option-cases, if◌then◌else◌,
}
use psr_pl.Go.{Result, ok, err, text}
use psr_pl.Dynamo.{Table, look}
use psr_pl.Http.{Payload, fields, presented}
use psr_pl.Web.{Environment}
use psr_pl.Application.Model.{Application}
use psr_pl.Application.Sessions
use psr_pl.Application.Sessions.{session_item_id, unix, session_record, dynamo_session_store}
use psr_pl.Application.Handler.{ValidateSessionBody}
use psr_pl.Application.Server.{Decoders, Encoders, Outside}
use psr_pl.Application.Service.{State, new_application}
use psr_pl.Application.Tests.Fixtures.{
  key, Item, application_item, session_item, sessions, stored, invited, ambient,
}
use psr_pl.Status.Client
use psr_pl.Platform.Network.{IsPathId}
use psr_pl.Platform.Dispatch.{Unescapes}
use psr_pl.Platform.Calls.{IsJson}
use psr_pl.Platform.Lookups.{ReadsBack}

-- Two texts in one: a "1" before each character of the first, and a "0" before the second.
pack : String → String → String
pack String.[] id = String.◌∷◌ (char 48 tt) id
pack (String.◌∷◌ c token) id = String.◌∷◌ (char 49 tt) (String.◌∷◌ c (pack token id))

abbrev longer : Char → Result ValidateSessionBody → Result ValidateSessionBody
longer c (ok b) = ok (record b { token = String.◌∷◌ c b.token })
longer c (err e) = err e

unpack : String → Result ValidateSessionBody
unpack String.[] = err (text "end of input")
unpack (String.◌∷◌ m String.[]) =
    if nat_eq (code m) 48
    then ok (record { token = ""; application_id = "" })
    else err (text "end of input")
unpack (String.◌∷◌ m (String.◌∷◌ c s)) =
    let rest = unpack s in
    if nat_eq (code m) 48
    then ok (record { token = ""; application_id = String.◌∷◌ c s })
    else longer c rest

unpack-pack :
    (token id : String)
    → unpack (pack token id) ≡ ok (record { token = token; application_id = id })
unfolding pack unpack
unpack-pack String.[] String.[] = refl
unpack-pack String.[] (String.◌∷◌ c id) = refl
unpack-pack (String.◌∷◌ c token) id = rw (unpack-pack token id) refl

unfoldable pub payloads : Payload → Result String
unfolding pack
payloads (fields []) = err (text "no fields")
payloads (fields ((k, v) ∷ [])) = ok v
payloads (fields ((k, v) ∷ (l, w) ∷ more)) = ok (pack v w)
payloads (presented id token offers) = ok token

unfoldable pub decode : Decoders
unfolding unpack
decode = record {
  invitation = ok;
  submit = λ s. err (text "not a submission");
  login = λ s. err (text "not a login");
  status = ok;
  session = unpack;
}

unfoldable pub encode : Encoders
encode = record {
  invitation = λ b. b.offer_id;
  application = λ a. a.id;
  login = λ b. b.session_token;
  status = λ s. s;
  execution_arn = λ s. s;
  valid = λ b. if b then "true" else "false";
  failure = λ e. "error";
}

unfoldable pub read : Client.Decoders
read = record { execution_arn = ok; valid = λ s. ok (s == "true"); status = ok }

pub payloads-IsJson : IsJson payloads decode
unfolding payloads decode
payloads-IsJson = record {
  status = λ status. (status, refl, refl);
  session = λ token id. (pack token id, refl, unpack-pack token id);
}

valid_back : (b : Bool) → read.valid (encode.valid b) ≡ ok b
unfolding encode read
valid_back true = refl
valid_back false = refl

pub reads_back : ReadsBack encode read
unfolding encode read
reads_back = record { valid = valid_back; status = λ s. refl; execution_arn = λ s. refl }

-- Paths in the runs have no escapes.
abbrev pub unescape : String → String
unescape s = s

pub unescape-Unescapes : Unescapes unescape
unescape-Unescapes s v = refl

abbrev pub base_url : String
base_url = "http://applications"

-- No variable is set.
abbrev pub env : Environment
env key = ""

-- At 2,000 seconds.
abbrev pub outside : Outside
outside = record {
  now = 2000 * 10 ^ 9;
  uuid = "app-9";
  token = ok "token-9";
  request_id = "request-9";
}

abbrev pub app : Application
app = record (new_application ambient (invited "") none) { execution_arn = "arn:1" }

-- The application with a session that ends at 2,800 seconds.
abbrev pub systems : State (Table Item) (List String) (List String)
systems = record {
  table =
      application_item app
      ∷ session_item (session_record "token-1" "app-1" (1000 * 10 ^ 9) (1800 * 10 ^ 9))
      ∷ [];
  offers = [];
  workflow = [];
}

pub app-IsPathId : IsPathId "app-1"
app-IsPathId = record { plain = (omega arith, cc, cc, cc); verbatim = omega arith }

-- Checking a session changes no application.
pub sessions_apart :
    (now : ℕ) (token : String) (t : Table Item) (j : String)
    → stored (sessions.validate now token t).1 j ≡ stored t j
unfolding dynamo_session_store Sessions.validate
sessions_apart now token t j = elim (Option-cases (look key t (session_item_id token))) [
  | inl missing ↦ ground arith
  | inr (application_item a, found) ↦ ground arith
  | inr (session_item r, found) ↦ elim (Bool-cases (leb r.expires_at (unix now))) [
    | inl late ↦ ground arith
    | inr early ↦ ground arith
  ]
]
