-- ===== src/Application/Failures.antt =====
-- What is left behind where a step of a submission fails.
use psr_pl.Base.{
  String, not, ◌&&◌, Option, none, some, ◌==◌, if◌then◌else◌, ◌≡◌, refl, ne_of_test, ◌⊎◌, inl, inr,
  arith, Bool-cases,
}
use psr_pl.Go.{Error, wrap, ok, err, Result-cases}
use psr_pl.Application.Model.{Offer, Applicant, Application, entry_path_invitation}
use psr_pl.Application.Validator.{IsComplete, validate-IsComplete}
use psr_pl.Application.Repository.{Repository, IsRepository}
use psr_pl.Application.Sessions.{SessionStore}
use psr_pl.Application.Workflow.{WorkflowStarter}
use psr_pl.Application.OfferLog.{OfferLogAdapter}
use psr_pl.Application.Service.{
  State, SubmitRequest, Ambient, new_application, workflow_input, revalidate, submit,
}

module _ {D L W : Type 0} (repo : Repository D) (offers : OfferLogAdapter L)
    (sessions : SessionStore D) (workflow : WorkflowStarter W) where
  -- If the application cannot be created, the submission fails, no workflow is started, and OfferLog
  -- has seen the revalidation alone: the offer is not marked as used.
  pub submit_create_fails :
      (now : Ambient) (req kept : SubmitRequest) (snapshot : Option Offer) (s between : State D L W)
      (e : Error)
      → IsComplete req.applicant
      → revalidate repo offers sessions workflow req s ≡ (ok (kept, snapshot), between)
      → (repo.create (new_application now kept snapshot) s.table).0 ≡ err e
      → let (answer, after) = submit repo offers sessions workflow now req s in
        (answer ≡ err (wrap "persisting application" e))
        × (after.workflow ≡ s.workflow)
        × (after.offers ≡ between.offers)
  unfolding submit
  submit_create_fails now req kept snapshot s between e full validated failed =
      ground (arith, validate-IsComplete req.applicant)

  -- The offer of a submission that succeeds was granted by OfferLog during the submission and is
  -- marked as used at its end; a submission without an offer leaves OfferLog as the revalidation
  -- left it.
  pub submit_marks :
      (now : Ambient) (req : SubmitRequest) (s : State D L W) (app : Application)
      → (submit repo offers sessions workflow now req s).0 ≡ ok app
      → let after = (submit repo offers sessions workflow now req s).1 in
        let seen = offers.validate_offer req.intake_id s.offers in
        ((app.offer ≡ none) × ((after.offers ≡ s.offers) ⊎ (after.offers ≡ seen.1)))
        ⊎ ((offer : Offer) × (prefill : Applicant) × (app.offer ≡ some offer)
            × (seen.0 ≡ ok (offer, prefill))
            × (offers.mark_used offer.intake_id seen.1 ≡ (ok tt, after.offers)))
  unfolding submit
  submit_marks now req s app h =
      elim (Result-cases (offers.validate_offer req.intake_id s.offers).0) [
        | inl ((offer, prefill), granted) ↦
            elim (Bool-cases
              (req.entry_path == entry_path_invitation && not (req.intake_id == ""))) [
                | inl invited ↦ inr (offer, prefill, ground arith, granted, ground arith)
                | inr direct ↦ inl (ground arith, inl (ground arith))
              ]
        | inr (e, failed) ↦ inl (ground arith, ground arith)
      ]

module _ {D L W : Type 0} {repo : Repository D} (offers : OfferLogAdapter L)
    (sessions : SessionStore D) (workflow : WorkflowStarter W)
    {stored : D → String → Option Application} (law : IsRepository repo stored) where
  -- A submission whose answer says that the workflow could not be started has failed, but the
  -- application is in the table, SUBMITTED and with no execution; there was none of its id before, no
  -- other application has changed, and OfferLog is as it was when it was asked about the offer: the
  -- offer is not marked as used.
  pub submit_start_fails :
      (now : Ambient) (req : SubmitRequest) (s : State D L W) (e : Error)
      → (submit repo offers sessions workflow now req s).0
        ≡ err (wrap "starting pricing workflow" e)
      → let after = (submit repo offers sessions workflow now req s).1 in
        let asked = revalidate repo offers sessions workflow req s in
        (kept : SubmitRequest) × (snapshot : Option Offer) × (asked.0 ≡ ok (kept, snapshot))
        × (stored s.table now.uuid ≡ none)
        × ((j : String)
            → stored after.table j ≡ (
                if now.uuid == j
                then some (record {
                  id = now.uuid;
                  entry_path = kept.entry_path;
                  partner_id = kept.partner_id;
                  applicant = kept.applicant;
                  offer = snapshot;
                  status = "SUBMITTED";
                  execution_arn = "";
                  submitted_at = now.now;
                  last_action_at = now.now;
                })
                else stored s.table j))
        × (after.offers ≡ asked.1.offers)
  unfolding submit
  submit_start_fails now req s e h =
      let asked = revalidate repo offers sessions workflow req s in
      elim (Result-cases asked.0) [
        | inl ((kept, snapshot), answered) ↦
            let new = new_application now kept snapshot in
            elim (Result-cases (repo.create new s.table).0) [
              | inl (u, made) ↦
                  elim (Result-cases
                    (workflow.start (workflow_input now.request_id new) s.workflow).0) [
                      | inl (arn, ran) ↦ absurd (
                          ground (
                            arith,
                            ne_of_test "recording workflow execution" "starting pricing workflow"
                                refl,
                            ne_of_test "marking offer used" "starting pricing workflow" refl,
                          ))
                      | inr (f, failed) ↦ (
                        kept,
                        snapshot,
                        answered,
                        law.create_writes.checks new s.table made,
                        λ j. ground (arith, law.create_writes.writes new s.table j made),
                        ground arith,
                      )
                    ]
              | inr (f, failed) ↦ absurd (
                  ground
                    (arith, ne_of_test "persisting application" "starting pricing workflow" refl))
            ]
        | inr (f, failed) ↦ absurd (
            ground (
              arith,
              ne_of_test "re-validating offer at submission" "starting pricing workflow" refl,
            ))
      ]
