-- ===== src/Http/Client.antt =====
-- Outgoing requests. `net/http` and `encoding/json` are not under the repository: `HttpClient` is
-- their interface, on a network in state `N`.
use Prim.Native.String.{◌++◌ as concat}
use psr_pl.Base.{ℕ, String, List, [], ◌∷◌, ◌++◌, ◌==◌, if◌then◌else◌, nat_eq}
use psr_pl.Go.{Result, Exec, raise, lift, pure, wrapping, ◌>>=◌, ◌>>◌, status_code}
use psr_pl.Pricing.Model.{OfferOption}

-- What is sent as JSON: a flat object of texts, or the offers with their task token.
pub data Payload : Type 0 where
  fields : List (String × String) → Payload
  presented : String → String → List OfferOption → Payload

pub record Request : Type 0 where
  pub method : String
  pub url : String
  pub headers : List (String × String)
  pub payload : String

pub record HttpResponse : Type 0 where
  pub status : ℕ
  pub payload : String

pub record HttpClient (N : Type 0) : Type 0 where
  -- `json.Marshal`
  pub encode : Payload → Result String
  -- the checks of `http.NewRequestWithContext` on a method and a URL
  pub new_request : String → String → Result (Unit {0})
  -- `httpClient.Do`
  pub send : Request → Exec N HttpResponse

-- The `X-Request-Id` header is set if the context carries an id.
abbrev pub with_request_id : String → List (String × String) → List (String × String)
with_request_id id headers = if id == "" then headers else headers ++ ("X-Request-Id", id) ∷ []

abbrev pub json_headers : String → List (String × String)
json_headers id = with_request_id id (("Content-Type", "application/json") ∷ [])

abbrev pub status_url : String → String → String
status_url base_url application_id =
    concat base_url (concat "/internal/applications/" (concat application_id "/status"))

abbrev pub status_request : String → String → String → String → Request
status_request request_id base_url application_id body = record {
  method = "PUT";
  url = status_url base_url application_id;
  headers = json_headers request_id;
  payload = body;
}

-- The status update that three services send to application-management-service.
module _ {N : Type 0} (http : HttpClient N) where
  abbrev check_accepted : HttpResponse → Exec N (Unit {0})
  check_accepted resp =
      if nat_eq resp.status 200
      then pure tt
      else raise (status_code "application-management-service rejected status update" resp.status)

  unfoldable pub put_status : String → String → String → String → Exec N (Unit {0})
  put_status request_id base_url application_id status = do
    payload ←
        wrapping "encoding status update" (lift (http.encode (fields (("status", status) ∷ []))))
    wrapping "building status update request"
        (lift (http.new_request "PUT" (status_url base_url application_id)))
    resp ←
        wrapping "calling application-management-service"
          (http.send (status_request request_id base_url application_id payload))
    check_accepted resp
