-- ===== src/Platform/Tests/Workflows.antt =====
-- The workflow's own calls on the platform: its last step, and its presentation of the offers.
use psr_pl.Base.{◌*◌, ◌^◌, String, List, [], ◌∷◌, some, ◌≡◌, refl, arith}
use psr_pl.Go.{Result, ok}
use psr_pl.Dynamo.{Table, put_record, get_record}
use psr_pl.Web.{
  respond, get_header, set_header, route, split_slash, join_slash, resolve_all, clean_path,
  match_path, find_route, dispatch, serve_outcome, with_request_id, with_cors, env_or_default,
}
use psr_pl.Application.Model.{Application}
use psr_pl.Application.Repository.{dynamo_repository}
use psr_pl.Application.Sessions
use psr_pl.Application.Sessions.{dynamo_session_store, session_record}
use psr_pl.Application.Service
use psr_pl.Application.Service.{State}
use psr_pl.Application.Handler
use psr_pl.Application.Server.{routes, multiplexer, server}
use psr_pl.Application.Tests.Fixtures.{
  Item, application_item, session_item, repo, sessions, stored, repo-IsRepository, sessions-IsStore,
  offer_log, starter, whole,
}
use psr_pl.Pricing.Model.{Decision, WorkflowState}
use psr_pl.Status.Translate.{for_application_status}
use psr_pl.Status.Client.{application_client}
use psr_pl.Status.Reader.{ExecutionReader}
use psr_pl.Status.Service as StatusService
use psr_pl.Status.Service.{get_status}
use psr_pl.Workflow.Steps.{decision_routing}
use psr_pl.Workflow.Effects.{update_status}
use psr_pl.Workflow.Machine.{update_application_status, running, next, decided}
use psr_pl.Workflow.Tests.{web, input, checked, approval, finished, Found, to_decision}
use psr_pl.Platform.Network.{http_client, deliver, IsPathId}
use psr_pl.Platform.Calls.{network}
use psr_pl.Platform.Lifecycle.{Advanced}
use psr_pl.Platform.Journey.{report}
use psr_pl.Platform.Decided.{update_status-get_status}
use psr_pl.Platform.Tests.Fixtures.{
  payloads, decode, encode, read, reads_back, sessions_apart, payloads-IsJson, unescape,
  unescape-Unescapes, base_url, env, outside, app,
}

abbrev Systems : Type 0
Systems = State (Table Item) (List String) (List String)

-- The application that the workflow of the runs was started for.
abbrev second : Application
second = record app { id = "app-2" }

abbrev pub systems : Systems
systems = record {
  table =
      application_item second
      ∷ session_item (session_record "token-2" "app-2" (1000 * 10 ^ 9) (1800 * 10 ^ 9))
      ∷ [];
  offers = [];
  workflow = [];
}

second-IsPathId : IsPathId "app-2"
second-IsPathId = record { plain = (omega arith, cc, cc, cc); verbatim = omega arith }

to_update : Found (running update_application_status finished)
unfolding decision_routing
to_update = next to_decision (decided checked approval refl)

abbrev updating : Result WorkflowState × Systems
updating =
    update_status
      (network repo offer_log sessions starter whole decode encode unescape env base_url payloads
        outside)
      base_url finished systems

updating_test : updating.0 ≡ ok finished
unfolding update_status http_client deliver server multiplexer with_request_id with_cors
    serve_outcome dispatch clean_path resolve_all join_slash split_slash routes route find_route
    match_path respond Handler.update_status Service.update_status dynamo_repository put_record
    get_record payloads decode encode get_header set_header env_or_default
updating_test = refl

-- Every execution has succeeded.
abbrev executions : ExecutionReader (Unit {0})
executions = record {
  current_state = λ arn e. (ok "", e);
  outcome = λ arn e. (ok ("SUCCEEDED", "APPROVED"), e);
}

abbrev ended : StatusService.State Systems (Unit {0})
ended = record { applications = updating.1; executions = tt }

reported_test :
    (report repo offer_log sessions starter whole decode encode unescape env base_url payloads read
      executions outside "request-2" "token-2" "app-2" ended).0
    ≡ ok (for_application_status "app-2" approval.outcome)
unfolding get_status application_client update_status http_client deliver server multiplexer
    with_request_id with_cors serve_outcome dispatch clean_path resolve_all join_slash split_slash
    routes route find_route match_path respond Handler.update_status Handler.current_status
    Handler.execution_arn Handler.validate_session Service.update_status Service.get
    Service.execution_arn Service.authenticate dynamo_repository dynamo_session_store
    Sessions.validate put_record get_record payloads decode encode read get_header set_header
    env_or_default
reported_test = refl

update_status-get_status_example :
    (d : Decision) × (finished.decision ≡ some d)
    × Advanced stored (2000 * 10 ^ 9) "app-2" d.outcome systems.table updating.1.table
    × ((for_application_status "app-2" approval.outcome).status ≡ d.outcome)
update_status-get_status_example =
    update_status-get_status offer_log starter whole decode encode unescape env base_url payloads
      read repo-IsRepository sessions-IsStore sessions_apart unescape-Unescapes payloads-IsJson
      reads_back executions web "http://applications" input finished finished outside outside
      systems ended "request-2" "token-2" "APPROVED" second
      (for_application_status "app-2" approval.outcome) second-IsPathId to_update refl updating_test
      refl refl reported_test
