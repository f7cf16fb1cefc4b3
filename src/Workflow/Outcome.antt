-- ===== src/Workflow/Outcome.antt =====
-- What an execution of the state machine can end in.
use psr_pl.Base.{String, Bool, true, Option, none, some, ◌≡◌, inl, inr, ap, subst, arith, eq_iff}
use psr_pl.Go.{ok}
use psr_pl.Go.Int64.{pos, ◌≤ℤ◌, ◌<ℤ◌}
use psr_pl.Http.{HttpClient}
use psr_pl.Pricing.Model.{WorkflowInput, CreditSummary, OfferOption, Decision, WorkflowState}
use psr_pl.Pricing.Decision.{decide, decide_outcomes}
use psr_pl.OfferSelection.Service.{find_offer}
use psr_pl.Workflow.Steps.{soft_pull, hard_pull, pricing_calculation, decision_routing}
use psr_pl.Workflow.Machine.{
  StateName, soft_pull_request, pricing_calculation_task, await_offer_selection,
  consent_given_check, consent_declined, hard_pull_request, decision_routing_task,
  update_application_status, Execution, running, succeeded, failed, consent, answered, declined,
  initial, Reach,
}
use psr_pl.Workflow.Invariant.{
  offers_for, hard_pull_for, Answered, IsConcluded, HoldsIn, Holds, Reach-Holds, initial-Holds,
}

abbrev pub data_of : Execution → Option WorkflowState
data_of (running name s) = some s
data_of (succeeded s) = some s
data_of failed = none

abbrev Consents : WorkflowState → Type 0
Consents s = consent s.offer_selection ≡ true

answered-Consents : {input : WorkflowInput} {s : WorkflowState} → Answered input s true → Consents s
answered-Consents a = ap consent a.selection

concluded-Consents :
    (input : WorkflowInput) (s : WorkflowState) (c : CreditSummary)
    → IsConcluded input s
    → s.hard_pull ≡ some c
    → Consents s
concluded-Consents input s c (own, inl r) h = ground (arith, r.no_pull)
concluded-Consents input s c (own, inr d) h = answered-Consents d.answer

pulled-Consents :
    (input : WorkflowInput) (n : StateName) (s : WorkflowState) (c : CreditSummary)
    → HoldsIn input n s
    → s.hard_pull ≡ some c
    → Consents s
pulled-Consents input soft_pull_request s c (own, no_pull) h = ground arith
pulled-Consents input pricing_calculation_task s c (own, no_pull, pull) h = ground arith
pulled-Consents input await_offer_selection s c (own, no_pull, offers) h = ground arith
pulled-Consents input consent_given_check s c (own, no_pull, given, a) h = ground arith
pulled-Consents input consent_declined s c (own, no_pull, a) h = ground arith
pulled-Consents input hard_pull_request s c (own, no_pull, a) h = answered-Consents a
pulled-Consents input decision_routing_task s c (own, pull, a) h = answered-Consents a
pulled-Consents input update_application_status s c concluded h =
    concluded-Consents input s c concluded h

Holds-Consents :
    (input : WorkflowInput) (e : Execution) (s : WorkflowState) (c : CreditSummary)
    → Holds input e
    → data_of e ≡ some s
    → s.hard_pull ≡ some c
    → Consents s
Holds-Consents input (running n t) s c h same pulled =
    pulled-Consents input n s c (subst (HoldsIn input n) (ground arith) h) pulled
Holds-Consents input (succeeded t) s c h same pulled =
    concluded-Consents input s c (subst (IsConcluded input) (ground arith) h) pulled
Holds-Consents input failed s c h same pulled = ground arith

-- What the step of a state reads is there, and is what the steps before it left.
abbrev pub IsReady : WorkflowInput → StateName → WorkflowState → Type 0
IsReady input soft_pull_request s = soft_pull s.input ≡ soft_pull input
IsReady input pricing_calculation_task s = pricing_calculation s ≡ ok (offers_for input)
IsReady input await_offer_selection s = s.priced_offers ≡ offers_for input
IsReady input consent_given_check s = (given : Bool) × Answered input s given
IsReady input consent_declined s = s.hard_pull ≡ none
IsReady input hard_pull_request s = hard_pull s ≡ ok (hard_pull_for input)
IsReady input decision_routing_task s = (d : Decision) × (decision_routing s ≡ ok d)
IsReady input update_application_status s = (d : Decision) × (s.decision ≡ some d)

HoldsIn-IsReady :
    (input : WorkflowInput) (n : StateName) (s : WorkflowState)
    → HoldsIn input n s
    → IsReady input n s
unfolding soft_pull hard_pull pricing_calculation decision_routing
HoldsIn-IsReady input soft_pull_request s (own, no_pull) = rw own
HoldsIn-IsReady input pricing_calculation_task s (own, no_pull, pull) = rw (pull, own)
HoldsIn-IsReady input await_offer_selection s (own, no_pull, offers) = offers
HoldsIn-IsReady input consent_given_check s (own, no_pull, given, a) = (given, a)
HoldsIn-IsReady input consent_declined s (own, no_pull, a) = no_pull
HoldsIn-IsReady input hard_pull_request s (own, no_pull, a) = rw own
HoldsIn-IsReady input decision_routing_task s (own, pull, a) =
    (decide (a.offer).priced (hard_pull_for input), rw (a.selection, pull))
HoldsIn-IsReady input update_application_status s (own, inl r) = (declined, r.outcome)
HoldsIn-IsReady input update_application_status s (own, inr d) =
    (decide ((d.answer).offer).priced (hard_pull_for input), d.outcome)

module _ {N : Type 0} (http : HttpClient N) (base_url : String) (input : WorkflowInput) where
  -- The FCRA gate: in every execution that can be reached, data with the result of a hard pull hold
  -- the applicant's consent.
  pub hard_pull_consented :
      {e : Execution} {s : WorkflowState} {c : CreditSummary}
      → Reach http base_url (initial input) e
      → data_of e ≡ some s
      → s.hard_pull ≡ some c
      → consent s.offer_selection ≡ true
  hard_pull_consented {e = e} {s = s} {c = c} r =
      Holds-Consents input e s c
        (Reach-Holds http base_url input r (initial-Holds http base_url input))

  -- An execution that succeeds holds its own input, and one of two: the applicant selected an offer
  -- of those priced for the input and refused the hard pull, none was made, and the decision is the
  -- fixed refusal; or the applicant selected such an offer and consented, the hard pull was made, and
  -- the decision is `decide` of the two.
  pub succeeded-IsConcluded :
      {s : WorkflowState} → Reach http base_url (initial input) (succeeded s) → IsConcluded input s
  succeeded-IsConcluded r = Reach-Holds http base_url input r (initial-Holds http base_url input)

  -- Where an execution ends well with an approval, the applicant consented to the hard pull, the
  -- selected offer has a positive amount, and the score of the hard pull is 670 or more.
  pub approved_conditions :
      {s : WorkflowState} {d : Decision}
      → Reach http base_url (initial input) (succeeded s)
      → s.decision ≡ some d
      → d.outcome ≡ "APPROVED"
      → (consent s.offer_selection ≡ true)
        × (id : String) × (o : OfferOption) × (find_offer (offers_for input) id ≡ ok o)
        × (s.offer_selection ≡ some (answered true o))
        × (pos 0 <ℤ (o.priced).amount_cents)
        × (pos 670 ≤ℤ (hard_pull_for input).score)
  approved_conditions {s = s} {d = d} r outcome approved = elim (succeeded-IsConcluded r).1 [
    | inl r ↦ ground (arith, r.outcome, eq_iff "APPROVED" "DECLINED")
    | inr c ↦
        let terms =
          (decide_outcomes ((c.answer).offer).priced (hard_pull_for input)).0.0
            (ground (arith, c.outcome)) in
        (
          answered-Consents c.answer,
          (c.answer).id,
          (c.answer).offer,
          (c.answer).among,
          (c.answer).selection,
          terms.0,
          terms.1,
        )
  ]

  -- In a state that can be reached, the Lambda or Fargate step finds what it reads: none of them fails
  -- for a missing input (`IsReady`).
  pub reached-IsReady :
      (n : StateName) (s : WorkflowState)
      → Reach http base_url (initial input) (running n s)
      → IsReady input n s
  reached-IsReady n s r =
      HoldsIn-IsReady input n s
        (Reach-Holds http base_url input r (initial-Holds http base_url input))
