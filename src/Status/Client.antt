-- ===== src/Status/Client.antt =====
-- workflow-status-service/internal/workflowstatus/applicationclient.go. `decode` reads the one field
-- of a JSON body that each call wants.
use Prim.Native.String.{◌++◌ as concat}
use psr_pl.Base.{String, Bool, false, [], ◌∷◌, nat_eq, if◌then◌else◌}
use psr_pl.Go.{Result, Exec, raise, lift, pure, wrapping, ◌>>=◌, ◌>>◌, status_code}
use psr_pl.Http.{
  Request, HttpResponse, HttpClient, fields, json_headers, with_request_id, status_url,
}

-- The Go interface `ApplicationClient`.
pub record ApplicationClient (N : Type 0) : Type 0 where
  pub execution_arn : String → Exec N String
  pub validate_session : String → String → Exec N Bool
  pub current_status : String → Exec N String

pub record Decoders : Type 0 where
  pub execution_arn : String → Result String
  pub valid : String → Result Bool
  pub status : String → Result String

abbrev pub execution_url : String → String → String
execution_url base_url application_id =
    concat base_url (concat "/internal/applications/" (concat application_id "/execution"))

abbrev pub validate_url : String → String
validate_url base_url = concat base_url "/internal/sessions/validate"

module _ {N : Type 0} (http : HttpClient N) (decode : Decoders) (base_url request_id : String) where
  abbrev pub get_request : String → Request
  get_request url = record {
    method = "GET";
    url = url;
    headers = with_request_id request_id [];
    payload = "";
  }

  abbrev pub session_request : String → Request
  session_request body = record {
    method = "POST";
    url = validate_url base_url;
    headers = json_headers request_id;
    payload = body;
  }

  abbrev text_answer : String → (String → Result String) → HttpResponse → Exec N String
  text_answer message read resp =
      if nat_eq resp.status 200
      then wrapping message (lift (read resp.payload))
      else raise (status_code "application-management-service returned status" resp.status)

  abbrev session_answer : HttpResponse → Exec N Bool
  session_answer resp =
      if nat_eq resp.status 200
      then wrapping "decoding session validation response" (lift (decode.valid resp.payload))
      else pure false

  unfoldable pub application_client : ApplicationClient N
  application_client = record {
    execution_arn = λ application_id. do
      wrapping "building execution lookup request"
          (lift (http.new_request "GET" (execution_url base_url application_id)))
      resp ←
          wrapping "calling application-management-service"
            (http.send (get_request (execution_url base_url application_id)))
      text_answer "decoding execution lookup response" decode.execution_arn resp;
    validate_session = λ token application_id. do
      payload ←
          wrapping "encoding session validation request" (
            lift (http.encode (fields (("token", token) ∷ ("applicationId", application_id) ∷ []))))
      wrapping "building session validation request"
          (lift (http.new_request "POST" (validate_url base_url)))
      resp ← wrapping "calling application-management-service" (http.send (session_request payload))
      session_answer resp;
    current_status = λ application_id. do
      wrapping "building status lookup request"
          (lift (http.new_request "GET" (status_url base_url application_id)))
      resp ←
          wrapping "calling application-management-service"
            (http.send (get_request (status_url base_url application_id)))
      text_answer "decoding status lookup response" decode.status resp;
  }
