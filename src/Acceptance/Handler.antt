-- ===== src/Acceptance/Handler.antt =====
-- offer-acceptance-service/internal/offeracceptance/handler.go and applicationclient.go. A request is
-- its path id and the JSON decoder's answer for its body's `acceptedDeclarationIds`.
use psr_pl.Base.{ℕ, String, List, if◌then◌else◌}
use psr_pl.Go.{is, Result, ok, err, missing_required_declarations, already_signed}
use psr_pl.Http.{HttpClient, Reply, write_json, write_error, put_status}
use psr_pl.Acceptance.Model.{Declaration, EsignRecord, standard_declarations}
use psr_pl.Acceptance.Repository.{Repository}
use psr_pl.Acceptance.Service
use psr_pl.Acceptance.Service.{StatusUpdater, State}

-- The client of application-management-service, for one request id.
unfoldable pub application_client : {N : Type 0} → HttpClient N → String → String → StatusUpdater N
application_client http base_url request_id = record {
  update_status = put_status http request_id base_url;
}

unfoldable pub declarations : Reply (List Declaration)
declarations = write_json 200 standard_declarations

abbrev pub esign_reply : Result EsignRecord → Reply EsignRecord
esign_reply (ok r) = write_json 201 r
esign_reply (err e) =
    if is e missing_required_declarations
    then write_error 422 e
    else if is e already_signed
    then write_error 409 e
    else write_error 500 e

module _ {D N : Type 0} (repo : Repository D) (application : StatusUpdater N) where
  unfoldable pub esign :
      String → Result (List String) → ℕ → State D N → Reply EsignRecord × State D N
  esign id (err e) now s = (write_error 400 e, s)
  esign id (ok accepted) now s =
      let (r, t) = Service.esign repo application id accepted now s in (esign_reply r, t)
