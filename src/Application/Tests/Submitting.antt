-- ===== src/Application/Tests/Submitting.antt =====
-- Submissions by invitation, whose offer is granted or not.
use psr_pl.Base.{
  String, List, [], ◌∷◌, none, some, Option, ◌==◌, ◌≡◌, ◌⊎◌, ◌↔◌, refl, arith, if◌then◌else◌,
  eq_iff,
}
use psr_pl.Go.{
  Error, detail, Result, ok, err, text, sentinel, offer_unavailable, incomplete_application,
}
use psr_pl.Go.Int64.{pos}
use psr_pl.Dynamo.{Table, put_record, get_record}
use psr_pl.Application.Model.{Offer, Applicant, Application, entry_path_direct, status_submitted}
use psr_pl.Application.Validator.{validate, IsComplete, validate-IsComplete, validate_fields}
use psr_pl.Application.Repository.{dynamo_repository}
use psr_pl.Application.Service.{
  State, SubmitRequest, prefilled, new_application, workflow_input, submit, get, execution_arn,
  update_status, revalidate,
}
use psr_pl.Application.Submission.{
  submit_succeeds, submit_incomplete, submit_degrades, submit_prefills,
}
use psr_pl.Application.Failures.{submit_marks, submit_start_fails}
use psr_pl.Application.Lifecycle.{submit-get, update_status_succeeds}
use psr_pl.Application.Tests.Fixtures.{
  Item, application_item, repo, sessions, stored, repo-IsRepository, home, offer, applicant,
  prefill, offer_log, starter, broken, invited, ambient, start,
}

abbrev granted : SubmitRequest
granted = prefilled (invited "intake-1") prefill

-- The applicant called Jo Smyth in the request is stored as Jane Smith, as OfferLog says.
abbrev app : Application
app = record (new_application ambient granted (some offer)) { execution_arn = "arn:1" }

abbrev finished : State (Table Item) (List String) (List String)
finished = record {
  table =
      application_item app ∷ application_item (new_application ambient granted (some offer)) ∷ [];
  offers = "intake-1" ∷ [];
  workflow = "app-1" ∷ [];
}

-- The service of the runs.
abbrev run :
    SubmitRequest
    → State (Table Item) (List String) (List String)
    → Result Application × State (Table Item) (List String) (List String)
run = submit repo offer_log sessions starter ambient

submit_test : run (invited "intake-1") start ≡ (ok app, finished)
unfolding submit dynamo_repository put_record validate
submit_test = refl

abbrev unnamed : Applicant
unnamed = record applicant { first_name = "" }

validate_fields_example :
    ((validate applicant ≡ ok tt) ↔ IsComplete applicant)
    × (validate (record applicant { monthly_obligations_cents = pos 0 }) ≡ validate applicant)
validate_fields_example = validate_fields applicant (pos 0)

applicant-IsComplete : IsComplete applicant
unfolding validate
applicant-IsComplete = (validate-IsComplete applicant).0 refl

submit_succeeds_example :
    let after = (run (invited "intake-1") start).1 in
    IsComplete applicant
    × (app.id ≡ ambient.uuid)
    × (app.status ≡ status_submitted)
    × (app.submitted_at ≡ ambient.now)
    × (stored start.table app.id ≡ none)
    × ((j : String)
        → stored after.table j ≡ (if app.id == j then some app else stored start.table j))
    × (starter.start (workflow_input ambient.request_id app) start.workflow
        ≡ (ok app.execution_arn, after.workflow))
unfolding submit dynamo_repository put_record validate
submit_succeeds_example =
    submit_succeeds offer_log sessions starter repo-IsRepository ambient (invited "intake-1") start
      app refl

submit_prefills_example :
    (stored (run (invited "intake-1") start).1.table app.id ≡ some app)
    × (app.offer ≡ some offer)
    × (app.entry_path ≡ "INVITATION")
    × (app.applicant
        ≡ record applicant { first_name = "Jane"; last_name = "Smith"; address = home })
unfolding submit dynamo_repository put_record validate
submit_prefills_example =
    submit_prefills offer_log sessions starter repo-IsRepository ambient (invited "intake-1") start
      offer prefill app refl (ground (arith, eq_iff "intake-1" "")) refl refl

submit_degrades_test :
    run (invited "intake-2") start
    ≡ run
        (record (invited "intake-2") { entry_path = entry_path_direct })
        (record start { offers = (offer_log.validate_offer "intake-2" start.offers).1 })
submit_degrades_test =
    submit_degrades repo offer_log sessions starter ambient (invited "intake-2") start
      (sentinel offer_unavailable) refl (ground (arith, eq_iff "intake-2" "")) applicant-IsComplete
      refl refl

submit_incomplete_test :
    let (answer, after) = run (record (invited "intake-1") { applicant = unnamed }) start in
    ((e : Error) × (answer ≡ err (detail (sentinel incomplete_application) e))) × (after ≡ start)
submit_incomplete_test =
    submit_incomplete repo offer_log sessions starter ambient
      (record (invited "intake-1") { applicant = unnamed }) start (λ full. full.0 refl)

submit_marks_test :
    let after = (run (invited "intake-1") start).1 in
    let seen = offer_log.validate_offer "intake-1" start.offers in
    ((app.offer ≡ none) × ((after.offers ≡ start.offers) ⊎ (after.offers ≡ seen.1)))
    ⊎ ((o : Offer) × (p : Applicant) × (app.offer ≡ some o)
        × (seen.0 ≡ ok (o, p))
        × (offer_log.mark_used o.intake_id seen.1 ≡ (ok tt, after.offers)))
unfolding submit dynamo_repository put_record validate
submit_marks_test =
    submit_marks repo offer_log sessions starter ambient (invited "intake-1") start app refl

-- The same submission where the workflow cannot be started.
abbrev throttled : State (Table Item) (List String) (List String)
throttled = (submit repo offer_log sessions broken ambient (invited "intake-1") start).1

submit_start_fails_example :
    let asked = revalidate repo offer_log sessions broken (invited "intake-1") start in
    (kept : SubmitRequest) × (snapshot : Option Offer) × (asked.0 ≡ ok (kept, snapshot))
    × (stored start.table "app-1" ≡ none)
    × ((j : String)
        → stored throttled.table j ≡ (
            if "app-1" == j
            then some (new_application ambient kept snapshot)
            else stored start.table j))
    × (throttled.offers ≡ asked.1.offers)
unfolding submit dynamo_repository put_record validate
submit_start_fails_example =
    submit_start_fails offer_log sessions broken repo-IsRepository ambient (invited "intake-1")
      start (text "throttled") refl

submit-get_test : (app ≡ app) × (app.execution_arn ≡ "arn:1")
unfolding submit get execution_arn dynamo_repository put_record get_record validate
submit-get_test =
    submit-get offer_log sessions starter repo-IsRepository ambient (invited "intake-1") start app
      app "arn:1" refl refl refl

update_status_succeeds_test :
    let moved = record app { status = "APPROVED"; last_action_at = 5 } in
    let after = (update_status repo offer_log sessions starter 5 "app-1" "APPROVED" finished).1 in
    (old : Application) × (stored finished.table "app-1" ≡ some old)
    × (moved ≡ record old { status = "APPROVED"; last_action_at = 5 })
    × ((j : String)
        → stored after.table j ≡ (if "app-1" == j then some moved else stored finished.table j))
    × (after.offers ≡ finished.offers)
    × (after.workflow ≡ finished.workflow)
unfolding update_status dynamo_repository put_record get_record
update_status_succeeds_test =
    update_status_succeeds offer_log sessions starter repo-IsRepository 5 "app-1" "APPROVED"
      finished (record app { status = "APPROVED"; last_action_at = 5 }) refl
