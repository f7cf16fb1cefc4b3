-- ===== src/Workflow/Invariant.antt =====
-- What the state machine's data hold in each of its states.
use psr_pl.Base.{
  String, Bool, true, false, none, some, List, ◌≡◌, ◌⊎◌, inl, inr, refl, sym, ap, not, ◌∙◌, arith,
}
use psr_pl.Go.{ok}
use psr_pl.Http.{HttpClient}
use psr_pl.Pricing.Model.{WorkflowInput, CreditSummary, OfferOption, WorkflowState}
use psr_pl.Pricing.Options.{price_options}
use psr_pl.Pricing.Decision.{decide}
use psr_pl.Pricing.Bureau.{simulated_credit_pull}
use psr_pl.OfferSelection.Service.{find_offer}
use psr_pl.Workflow.Steps.{soft_pull, hard_pull, pricing_calculation, decision_routing}
use psr_pl.Workflow.Machine.{
  StateName, soft_pull_request, pricing_calculation_task, await_offer_selection,
  consent_given_check, consent_declined, hard_pull_request, decision_routing_task,
  update_application_status, Execution, running, succeeded, failed, consent, answered, declined,
  initial, Step, soft_pulled, priced, selected, consented, refused, recorded, hard_pulled, decided,
  updated, broke, Reach, here, next,
}

abbrev pub offers_for : WorkflowInput → List OfferOption
offers_for input = price_options input (simulated_credit_pull input.application_id "SOFT_PULL")

abbrev pub hard_pull_for : WorkflowInput → CreditSummary
hard_pull_for input = simulated_credit_pull input.application_id "HARD_PULL"

-- The applicant has selected an offer of those that were priced, and consented or not.
pub record Answered (input : WorkflowInput) (s : WorkflowState) (given : Bool) : Type 0 where
  pub id : String
  pub offer : OfferOption
  pub among : find_offer (offers_for input) id ≡ ok offer
  pub selection : s.offer_selection ≡ some (answered given offer)

-- No consent: no hard pull was made, and the application is declined.
pub record IsRefused (input : WorkflowInput) (s : WorkflowState) : Type 0 where
  pub answer : Answered input s false
  pub no_pull : s.hard_pull ≡ none
  pub outcome : s.decision ≡ some declined

-- Consent: the hard pull was made, and the selected offer was decided on.
pub record IsDecided (input : WorkflowInput) (s : WorkflowState) : Type 0 where
  pub answer : Answered input s true
  pub pull : s.hard_pull ≡ some (hard_pull_for input)
  pub outcome : s.decision ≡ some (decide (answer.offer).priced (hard_pull_for input))

abbrev pub IsConcluded : WorkflowInput → WorkflowState → Type 0
IsConcluded input s = (s.input ≡ input) × (IsRefused input s ⊎ IsDecided input s)

abbrev pub HoldsIn : WorkflowInput → StateName → WorkflowState → Type 0
HoldsIn input soft_pull_request s = (s.input ≡ input) × (s.hard_pull ≡ none)
HoldsIn input pricing_calculation_task s =
    (s.input ≡ input)
    × (s.hard_pull ≡ none)
    × (s.soft_pull ≡ some (simulated_credit_pull input.application_id "SOFT_PULL"))
HoldsIn input await_offer_selection s =
    (s.input ≡ input) × (s.hard_pull ≡ none) × (s.priced_offers ≡ offers_for input)
HoldsIn input consent_given_check s =
    (s.input ≡ input) × (s.hard_pull ≡ none) × (given : Bool) × Answered input s given
HoldsIn input consent_declined s = (s.input ≡ input) × (s.hard_pull ≡ none) × Answered input s false
HoldsIn input hard_pull_request s = (s.input ≡ input) × (s.hard_pull ≡ none) × Answered input s true
HoldsIn input decision_routing_task s =
    (s.input ≡ input) × (s.hard_pull ≡ some (hard_pull_for input)) × Answered input s true
HoldsIn input update_application_status s = IsConcluded input s

abbrev pub Holds : WorkflowInput → Execution → Type 0
Holds input (running name s) = HoldsIn input name s
Holds input (succeeded s) = IsConcluded input s
Holds input failed = Unit

not_self : (b : Bool) → not b ≡ b → ⊥
not_self true h = ground arith
not_self false h = ground arith

-- What the check of consent reads is what the applicant answered.
answer_given :
    {input : WorkflowInput} {s : WorkflowState} {given seen : Bool}
    → consent s.offer_selection ≡ seen
    → Answered input s given
    → not given ≡ seen
    → ⊥
answer_given {s = s} {given = given} {seen = seen} h a differs =
    not_self given (differs ∙ sym h ∙ ap consent a.selection)

module _ {N : Type 0} (http : HttpClient N) (base_url : String) (input : WorkflowInput) where
  -- Every step keeps the invariant.
  Step-Holds : {e f : Execution} → Step http base_url e f → Holds input e → Holds input f
  unfolding soft_pull hard_pull pricing_calculation decision_routing
  Step-Holds (soft_pulled s c h) (own, no_pull) = (own, no_pull, ground arith)
  Step-Holds (priced s offers h) (own, no_pull, pull) = (own, no_pull, ground arith)
  Step-Holds (selected s id o given h) (own, no_pull, offers) =
      (own, no_pull, given, record { id = id; offer = o; among = rw offers at h; selection = refl })
  Step-Holds (consented s h) (own, no_pull, true, a) = (own, no_pull, a)
  Step-Holds (consented s h) (own, no_pull, false, a) = absurd (answer_given h a refl)
  Step-Holds (refused s h) (own, no_pull, true, a) = absurd (answer_given h a refl)
  Step-Holds (refused s h) (own, no_pull, false, a) = (own, no_pull, a)
  Step-Holds (recorded s) (own, no_pull, a) = (
    own,
    inl (record {
      answer = record { id = a.id; offer = a.offer; among = a.among; selection = a.selection };
      no_pull = no_pull;
      outcome = refl;
    }),
  )
  Step-Holds (hard_pulled s c h) (own, no_pull, a) = (
    own,
    ground arith,
    record { id = a.id; offer = a.offer; among = a.among; selection = a.selection },
  )
  Step-Holds (decided s d h) (own, pull, a) = (
    own,
    inr (record {
      answer = record { id = a.id; offer = a.offer; among = a.among; selection = a.selection };
      pull = pull;
      outcome = ground arith;
    }),
  )
  Step-Holds (updated s t n h) c = c
  Step-Holds (broke name s) h = tt

  pub Reach-Holds : {e f : Execution} → Reach http base_url e f → Holds input e → Holds input f
  Reach-Holds here h = h
  Reach-Holds (next r s) h = Step-Holds s (Reach-Holds r h)

  pub initial-Holds : Holds input (initial input)
  initial-Holds = (refl, refl)
