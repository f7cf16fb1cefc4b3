-- ===== src/OfferSelection/Sessions.antt =====
-- pricing-orchestration-service/internal/offerselection/sessionvalidator.go
use Prim.Native.String.{◌++◌ as concat}
use psr_pl.Base.{String, Bool, false, [], ◌∷◌, nat_eq, if◌then◌else◌}
use psr_pl.Go.{Result, Exec, lift, pure, wrapping, ◌>>=◌, ◌>>◌}
use psr_pl.Http.{Request, HttpResponse, HttpClient, fields, json_headers}

-- The Go interface `SessionValidator`: the answer for a token and an application id.
pub record SessionValidator (N : Type 0) : Type 0 where
  pub validate_session : String → String → Exec N Bool

abbrev pub validate_url : String → String
validate_url base_url = concat base_url "/internal/sessions/validate"

-- `decode` is the JSON decoder's answer for the body's field `valid`.
module _ {N : Type 0} (http : HttpClient N) (decode : String → Result Bool)
    (base_url request_id : String) where
  abbrev pub session_request : String → Request
  session_request body = record {
    method = "POST";
    url = validate_url base_url;
    headers = json_headers request_id;
    payload = body;
  }

  abbrev session_answer : HttpResponse → Exec N Bool
  session_answer resp =
      if nat_eq resp.status 200
      then wrapping "decoding session validation response" (lift (decode resp.payload))
      else pure false

  unfoldable pub session_validator : SessionValidator N
  session_validator = record {
    validate_session = λ token application_id. do
      payload ←
          wrapping "encoding session validation request" (
            lift (http.encode (fields (("token", token) ∷ ("applicationId", application_id) ∷ []))))
      wrapping "building session validation request"
          (lift (http.new_request "POST" (validate_url base_url)))
      resp ← wrapping "calling application-management-service" (http.send (session_request payload))
      session_answer resp;
  }
