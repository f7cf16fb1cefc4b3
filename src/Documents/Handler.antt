-- ===== src/Documents/Handler.antt =====
-- document-service/internal/document/handler.go and applicationclient.go. A request is its path id
-- and the JSON decoder's answer for its body's `documentId`.
use psr_pl.Base.{ℕ, String, List, if◌then◌else◌}
use psr_pl.Go.{is, Result, ok, err, unknown_document}
use psr_pl.Http.{HttpClient, Reply, write_json, write_error, put_status}
use psr_pl.Documents.Model.{RequiredDocument, Record, standard_required_documents}
use psr_pl.Documents.Repository.{Repository}
use psr_pl.Documents.Service
use psr_pl.Documents.Service.{StatusUpdater, State}

-- The client of application-management-service, for one request id.
unfoldable pub application_client : {N : Type 0} → HttpClient N → String → String → StatusUpdater N
application_client http base_url request_id = record {
  update_status = put_status http request_id base_url;
}

unfoldable pub required_documents : Reply (List RequiredDocument)
required_documents = write_json 200 standard_required_documents

abbrev get_reply : Result Record → Reply Record
get_reply (ok r) = write_json 200 r
get_reply (err e) = write_error 500 e

abbrev submit_reply : Result Record → Reply Record
submit_reply (ok r) = write_json 201 r
submit_reply (err e) = if is e unknown_document then write_error 400 e else write_error 500 e

module _ {D N : Type 0} (repo : Repository D) (application : StatusUpdater N) where
  unfoldable pub get : String → State D N → Reply Record × State D N
  get id s = let (r, t) = Service.get repo application id s in (get_reply r, t)

  unfoldable pub submit : String → Result String → ℕ → State D N → Reply Record × State D N
  submit id (err e) now s = (write_error 400 e, s)
  submit id (ok document_id) now s =
      let (r, t) = Service.submit repo application id document_id now s in (submit_reply r, t)
