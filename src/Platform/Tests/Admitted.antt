-- ===== src/Platform/Tests/Admitted.antt =====
-- A confirmation and a report with a session on the platform.
use psr_pl.Base.{ℕ, ◌*◌, ◌^◌, String, true, List, [], ◌∷◌, ◌≡◌, refl}
use psr_pl.Go.{ok}
use psr_pl.Dynamo.{Table, put_record, get_record}
use psr_pl.Http.{bearer_token}
use psr_pl.Web.{
  respond, get_header, set_header, route, split_slash, join_slash, resolve_all, clean_path,
  match_path, find_route, dispatch, serve_outcome, with_request_id, with_cors, env_or_default,
}
use psr_pl.Application.Repository.{dynamo_repository}
use psr_pl.Application.Sessions
use psr_pl.Application.Sessions.{dynamo_session_store, SessionRecord, unix}
use psr_pl.Application.Service
use psr_pl.Application.Service.{State}
use psr_pl.Application.Handler
use psr_pl.Application.Server.{routes, multiplexer, server}
use psr_pl.Application.Tests.Fixtures.{
  Item, repo, sessions, kept, repo-IsRepository, sessions-IsStore, offer_log, starter, whole,
}
use psr_pl.OfferSelection.Model.{SelectedOffer}
use psr_pl.OfferSelection.Repository as OfferRepository
use psr_pl.OfferSelection.Service as OfferService
use psr_pl.OfferSelection.Service.{find_offer}
use psr_pl.OfferSelection.Sessions.{session_validator}
use psr_pl.OfferSelection.Handler as OfferHandler
use psr_pl.OfferSelection.Handler.{Server, ConfirmBody, authenticated}
use psr_pl.OfferSelection.Tests as OfferTests
use psr_pl.OfferSelection.Tests.{pending, recording, Resumptions}
use psr_pl.Status.Translate.{for_application_status}
use psr_pl.Status.Client.{application_client}
use psr_pl.Status.Reader.{ExecutionReader}
use psr_pl.Status.Service as StatusService
use psr_pl.Status.Service.{get_status}
use psr_pl.Platform.Network.{http_client, deliver}
use psr_pl.Platform.Lookups.{client}
use psr_pl.Platform.Admission.{Holds, confirm_admits}
use psr_pl.Platform.Report.{reports_stored}
use psr_pl.Platform.Tests.Fixtures.{
  payloads, decode, encode, read, reads_back, sessions_apart, payloads-IsJson, unescape,
  unescape-Unescapes, base_url, env, outside, app, systems, app-IsPathId,
}

abbrev Systems : Type 0
Systems = State (Table Item) (List String) (List String)

abbrev offer_server : Server (Table SelectedOffer) Resumptions Systems
offer_server = record {
  service = record { table = pending ∷ []; workflow = [] };
  sessions = systems;
}

abbrev choice : ConfirmBody
choice = record { selected_offer_id = "standard"; consent_given = true }

abbrev confirmation : ℕ
confirmation =
    (OfferHandler.confirm OfferTests.repo recording
      (session_validator
        (http_client base_url
          (server repo offer_log sessions starter whole decode encode unescape env outside)
          payloads)
        (read).valid base_url "request-1")
      "Bearer token-1" "app-1" (ok choice) offer_server).0.status

confirmation_test : confirmation ≡ 200
unfolding OfferHandler.confirm authenticated OfferService.confirm OfferService.confirm_offer
    find_offer OfferRepository.dynamo_repository session_validator bearer_token http_client deliver
    server multiplexer with_request_id with_cors serve_outcome dispatch clean_path resolve_all
    join_slash split_slash routes route find_route match_path respond Handler.validate_session
    Service.authenticate dynamo_session_store Sessions.validate put_record get_record payloads
    decode encode read get_header set_header env_or_default
confirmation_test = refl

confirm_admits_example :
    Holds kept (2000 * 10 ^ 9) (bearer_token "Bearer token-1") "app-1" systems.table
confirm_admits_example =
    confirm_admits offer_log starter whole decode encode unescape env base_url payloads read
      repo-IsRepository sessions-IsStore unescape-Unescapes payloads-IsJson reads_back
      OfferTests.repo recording outside "request-1" "Bearer token-1" "app-1" (ok choice)
      offer_server confirmation_test

-- Every execution has succeeded.
abbrev executions : ExecutionReader (Unit {0})
executions = record {
  current_state = λ arn e. (ok "", e);
  outcome = λ arn e. (ok ("SUCCEEDED", "APPROVED"), e);
}

abbrev start : StatusService.State Systems (Unit {0})
start = record { applications = systems; executions = tt }

reported_test :
    (get_status
      (client repo offer_log sessions starter whole decode encode unescape env base_url payloads
        read outside "request-1")
      executions
      "token-1"
      "app-1"
      start).0
    ≡ ok (for_application_status "app-1" "SUBMITTED")
unfolding get_status application_client http_client deliver server multiplexer with_request_id
    with_cors serve_outcome dispatch clean_path resolve_all join_slash split_slash routes route
    find_route match_path respond Handler.current_status Handler.execution_arn
    Handler.validate_session Service.get Service.execution_arn Service.authenticate
    dynamo_repository dynamo_session_store Sessions.validate put_record get_record payloads decode
    encode read get_header set_header env_or_default
reported_test = refl

reports_stored_example :
    (for_application_status "app-1" "SUBMITTED" ≡ for_application_status "app-1" "SUBMITTED")
    × Holds kept (2000 * 10 ^ 9) "token-1" "app-1" systems.table
reports_stored_example =
    reports_stored offer_log starter whole decode encode unescape env base_url payloads read
      repo-IsRepository sessions-IsStore sessions_apart unescape-Unescapes payloads-IsJson
      reads_back executions outside "request-1" "token-1" "app-1" "APPROVED" start app
      (for_application_status "app-1" "SUBMITTED") app-IsPathId refl refl reported_test
