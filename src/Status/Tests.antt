-- ===== src/Status/Tests.antt =====
-- Requests for a status while the workflow has ended.
use psr_pl.Base.{String, true, ◌==◌, ◌≡◌, ◌≢◌, ◌⊎◌, arith, eq_iff, refl, Has}
use psr_pl.Go.{Error, ok, err}
use psr_pl.Status.Translate.{for_application_status, for_error}
use psr_pl.Status.Reader.{ExecutionReader}
use psr_pl.Status.Client.{ApplicationClient}
use psr_pl.Status.Service.{State, get_status}
use psr_pl.Status.Reported.{
  reported_statuses, for_application_status_lem, get_status_needs_session, get_status_ended,
}

abbrev applications : ApplicationClient (Unit {0})
applications = record {
  execution_arn = λ id n. (ok "arn:1", n);
  validate_session = λ token id n. (ok (token == "good"), n);
  current_status = λ id n. (ok "FUNDED", n);
}

abbrev executions : ExecutionReader (Unit {0})
executions = record {
  current_state = λ arn e. (ok "", e);
  outcome = λ arn e. (ok ("SUCCEEDED", "APPROVED"), e);
}

abbrev start : State (Unit {0}) (Unit {0})
start = record { applications = tt; executions = tt }

for_application_status_lem_test :
    (Has "CANCELLED" reported_statuses
      × ((for_application_status "app-1" "CANCELLED").status ≡ "CANCELLED"))
    ⊎ ((Has "CANCELLED" reported_statuses → ⊥)
        × (for_application_status "app-1" "CANCELLED" ≡ for_error "app-1"))
for_application_status_lem_test = for_application_status_lem "app-1" "CANCELLED"

bad_token : (applications.validate_session "bad" "app-1" start.applications).0 ≢ ok true
bad_token = ground arith

get_status_needs_session_test :
    let (answer, after) = get_status applications executions "bad" "app-1" start in
    ((e : Error) × (answer ≡ err e)) × (after.executions ≡ start.executions)
get_status_needs_session_test =
    get_status_needs_session applications executions "bad" "app-1" start bad_token

not_running : ◌≢◌ {A = String} "SUCCEEDED" "RUNNING"
not_running = ground (arith, eq_iff "SUCCEEDED" "RUNNING")

get_status_ended_test :
    (get_status applications executions "good" "app-1" start).0
    ≡ ok (for_application_status "app-1" "FUNDED")
get_status_ended_test =
    get_status_ended applications executions "good" "app-1" "arn:1" "SUCCEEDED" "APPROVED" start
      refl refl refl not_running
