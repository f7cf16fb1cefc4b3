-- ===== src/Platform/Tests/Journeys.antt =====
-- One application through document-service, offer-acceptance-service and the reports on it.
use psr_pl.Base.{◌*◌, ◌^◌, String, true, false, List, [], ◌∷◌, ◌≡◌, ◌⊎◌, refl}
use psr_pl.Go.{Result, ok}
use psr_pl.Sets.{contains_all}
use psr_pl.Dynamo.{Table, put_record, get_record}
use psr_pl.Http.{put_status}
use psr_pl.Web.{
  respond, get_header, set_header, route, split_slash, join_slash, resolve_all, clean_path,
  match_path, find_route, dispatch, serve_outcome, with_request_id, with_cors, env_or_default,
}
use psr_pl.Application.Repository.{dynamo_repository}
use psr_pl.Application.Sessions
use psr_pl.Application.Sessions.{dynamo_session_store}
use psr_pl.Application.Service
use psr_pl.Application.Service.{State}
use psr_pl.Application.Handler
use psr_pl.Application.Server.{routes, multiplexer, server}
use psr_pl.Application.Tests.Fixtures.{
  Item, repo, sessions, stored, repo-IsRepository, sessions-IsStore, offer_log, starter, whole,
}
use psr_pl.Documents.Model.{Record, required_document_ids}
use psr_pl.Documents.Service as DocumentService
use psr_pl.Documents.Service.{is_known_document, contains, submitted, loaded}
use psr_pl.Documents.Repository as DocumentRepository
use psr_pl.Documents.Handler as DocumentHandler
use psr_pl.Documents.Submit.{or_fresh, completes}
use psr_pl.Documents.Tests as DocumentTests
use psr_pl.Documents.Tests.{nearly, full}
use psr_pl.Acceptance.Model.{EsignRecord, required_declaration_ids}
use psr_pl.Acceptance.Service as EsignService
use psr_pl.Acceptance.Repository as EsignRepository
use psr_pl.Acceptance.Handler as EsignHandler
use psr_pl.Acceptance.Tests as EsignTests
use psr_pl.Acceptance.Tests.{accepted, signed}
use psr_pl.Status.Model.{WorkflowStatus}
use psr_pl.Status.Translate.{for_application_status}
use psr_pl.Status.Client.{application_client}
use psr_pl.Status.Reader.{ExecutionReader}
use psr_pl.Status.Service as StatusService
use psr_pl.Status.Service.{get_status}
use psr_pl.Platform.Network.{http_client, deliver}
use psr_pl.Platform.Calls.{network, told, put_status-update_status}
use psr_pl.Platform.Lifecycle.{Advanced, submit_document_advances, esign_advances}
use psr_pl.Platform.Journey.{submit_document, sign, report, submit-get_status}
use psr_pl.Platform.Tests.Fixtures.{
  payloads, decode, encode, read, reads_back, sessions_apart, payloads-IsJson, unescape,
  unescape-Unescapes, base_url, env, outside, app, systems, app-IsPathId,
}

put_status-update_status_example :
    put_status
      (network repo offer_log sessions starter whole decode encode unescape env base_url payloads
        outside)
      "request-1"
      base_url
      "app-1"
      "FUNDED"
      systems
    ≡ told (
        Service.update_status repo offer_log sessions starter
          (2000 * 10 ^ 9)
          "app-1"
          "FUNDED"
          systems)
put_status-update_status_example =
    put_status-update_status repo offer_log sessions starter whole decode encode unescape env
      base_url payloads unescape-Unescapes payloads-IsJson outside "request-1" "app-1" "FUNDED"
      systems app-IsPathId

abbrev Systems : Type 0
Systems = State (Table Item) (List String) (List String)

abbrev nearly_done : DocumentService.State (Table Record) Systems
nearly_done = record { table = nearly ∷ []; applications = systems }

-- The last document is submitted: application-management-service takes the status.
abbrev submission : Result Record × DocumentService.State (Table Record) Systems
submission =
    submit_document repo offer_log sessions starter whole decode encode unescape env base_url
      payloads DocumentTests.repo outside "request-1" "app-1" "proof-of-address" 7 nearly_done

submission_test : submission.0 ≡ ok full
unfolding DocumentService.submit loaded DocumentRepository.dynamo_repository submitted
    is_known_document contains contains_all required_document_ids DocumentHandler.application_client
    put_status http_client deliver server multiplexer with_request_id with_cors serve_outcome
    dispatch clean_path resolve_all join_slash split_slash routes route find_route match_path
    respond Handler.update_status Service.update_status dynamo_repository put_record get_record
    payloads decode encode get_header set_header env_or_default
submission_test = refl

submit_document_advances_example :
    let after = submission.1 in
    let old = or_fresh "app-1" (DocumentTests.stored nearly_done.table "app-1") in
    ((completes old "proof-of-address" 7 ≡ true)
      × Advanced stored
          (2000 * 10 ^ 9)
          "app-1"
          "OFFER_ACCEPTED"
          systems.table
          after.applications.table)
    ⊎ ((completes old "proof-of-address" 7 ≡ false) × (after.applications ≡ systems))
submit_document_advances_example =
    submit_document_advances offer_log sessions starter whole decode encode unescape env base_url
      payloads repo-IsRepository unescape-Unescapes payloads-IsJson DocumentTests.repo-IsRepository
      outside "request-1" "app-1" "proof-of-address" 7 nearly_done full app-IsPathId submission_test

abbrev unsigned : EsignService.State (Table EsignRecord) Systems
unsigned = record { table = []; applications = systems }

abbrev signing : Result EsignRecord × EsignService.State (Table EsignRecord) Systems
signing =
    sign repo offer_log sessions starter whole decode encode unescape env base_url payloads
      EsignTests.repo outside "request-1" "app-1" accepted 7 unsigned

signing_test : signing.0 ≡ ok signed
unfolding EsignService.esign EsignRepository.dynamo_repository contains_all required_declaration_ids
    EsignHandler.application_client put_status http_client deliver server multiplexer
    with_request_id with_cors serve_outcome dispatch clean_path resolve_all join_slash split_slash
    routes route find_route match_path respond Handler.update_status Service.update_status
    dynamo_repository put_record get_record payloads decode encode get_header set_header
    env_or_default
signing_test = refl

esign_advances_test :
    Advanced stored
      (2000 * 10 ^ 9)
      "app-1"
      "DOCUMENTS_REQUIRED"
      systems.table
      signing.1.applications.table
esign_advances_test =
    esign_advances offer_log sessions starter whole decode encode unescape env base_url payloads
      repo-IsRepository unescape-Unescapes payloads-IsJson EsignTests.repo-IsRepository outside
      "request-1" "app-1" accepted 7 unsigned signed app-IsPathId signing_test

-- Every execution has succeeded.
abbrev executions : ExecutionReader (Unit {0})
executions = record {
  current_state = λ arn e. (ok "", e);
  outcome = λ arn e. (ok ("SUCCEEDED", "APPROVED"), e);
}

abbrev at_documents : StatusService.State Systems (Unit {0})
at_documents = record { applications = submission.1.applications; executions = tt }

abbrev reported : Result WorkflowStatus
reported =
    (report repo offer_log sessions starter whole decode encode unescape env base_url payloads read
      executions outside "request-2" "token-1" "app-1" at_documents).0

reported_test : reported ≡ ok (for_application_status "app-1" "OFFER_ACCEPTED")
unfolding DocumentService.submit loaded DocumentRepository.dynamo_repository submitted
    is_known_document contains contains_all required_document_ids DocumentHandler.application_client
    put_status Handler.update_status Service.update_status http_client deliver server multiplexer
    with_request_id with_cors serve_outcome dispatch clean_path resolve_all join_slash split_slash
    routes route find_route match_path respond Handler.current_status Handler.execution_arn
    Handler.validate_session Service.get Service.execution_arn Service.authenticate
    dynamo_repository dynamo_session_store Sessions.validate put_record get_record payloads decode
    encode read get_header set_header env_or_default application_client get_status
    for_application_status
reported_test = refl

completed :
    completes
      (or_fresh "app-1" (DocumentTests.stored nearly_done.table "app-1"))
      "proof-of-address"
      7
    ≡ true
unfolding submitted contains contains_all required_document_ids
completed = refl

submit-get_status_example :
    (for_application_status "app-1" "OFFER_ACCEPTED").status ≡ "OFFER_ACCEPTED"
submit-get_status_example =
    submit-get_status offer_log starter whole decode encode unescape env base_url payloads read
      repo-IsRepository sessions-IsStore sessions_apart unescape-Unescapes payloads-IsJson
      reads_back executions DocumentTests.repo-IsRepository outside outside "request-1" "request-2"
      "app-1" "proof-of-address" "token-1" "APPROVED" 7 nearly_done at_documents full app
      (for_application_status "app-1" "OFFER_ACCEPTED") app-IsPathId completed refl submission_test
      refl refl reported_test
