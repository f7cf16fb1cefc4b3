-- ===== src/Workflow/Tests.antt =====
-- An execution from its start to an approval.
use psr_pl.Base.{ℕ, ◌+◌, ◌≤◌, String, true, [], none, some, ◌≡◌, refl}
use psr_pl.Go.{ok}
use psr_pl.Go.Int64.{pos, ◌≤ℤ◌, ◌<ℤ◌, wrap64, ◌+ℤ◌, ◌-ℤ◌, ◌*ℤ◌, ◌/ℤ◌}
use psr_pl.Http.{HttpClient}
use psr_pl.Pricing.Model.{WorkflowInput, OfferOption, Decision, WorkflowState}
use psr_pl.Pricing.Options.{price_options, build_option, max_affordable_amount, apr_for_score}
use psr_pl.Pricing.Decision.{decide}
use psr_pl.Pricing.Bureau.{simulated_credit_pull}
use psr_pl.OfferSelection.Service.{find_offer}
use psr_pl.Base.{◌↔◌, ◌≢◌}
use psr_pl.Status.Model.{processing, offer_pending}
use psr_pl.Status.Translate.{for_running_state}
use psr_pl.Workflow.Machine.{consent_given_check}
use psr_pl.Workflow.Names.{state_text, has_offers_out, state_status_complete}
use psr_pl.Workflow.Steps.{soft_pull, hard_pull, pricing_calculation, decision_routing}
use psr_pl.Workflow.Effects.{update_status}
use psr_pl.Workflow.Machine.{
  pricing_calculation_task, await_offer_selection, decision_routing_task, Execution, running,
  succeeded, consent, answered, initial, soft_pulled, priced, selected, consented, hard_pulled,
  decided, updated, Reach, here, next,
}
use psr_pl.Workflow.Invariant.{offers_for, hard_pull_for, IsConcluded}
use psr_pl.Workflow.Counted.{IsAfter, steps, steps_bound}
use psr_pl.Workflow.Outcome.{
  IsReady, hard_pull_consented, succeeded-IsConcluded, approved_conditions, reached-IsReady,
}

-- The status update is accepted.
abbrev pub web : HttpClient ℕ
web = record {
  encode = λ p. ok "payload";
  new_request = λ m u. ok tt;
  send = λ r n. (ok (record { status = 200; payload = "" }), n + 1);
}

abbrev pub input : WorkflowInput
input = record {
  application_id = "app-2";
  first_name = "Jo";
  last_name = "Smyth";
  date_of_birth = "1990-01-31";
  ssn = "123456789";
  address = record {
    line1 = "47 W 5th St";
    line2 = "";
    city = "Austin";
    state = "TX";
    postal_code = "78701";
  };
  requested_amount_cents = pos 1500000;
  requested_term_months = pos 60;
  annual_income_cents = pos 9000000;
  monthly_obligations_cents = pos 100000;
  request_id = "request-1";
}

abbrev pub Found : Execution → Type 0
Found = Reach web "http://applications" (initial input)

abbrev pub chosen : OfferOption
chosen = record {
  id = "standard";
  label = "Requested Terms";
  priced = record { amount_cents = pos 1500000; term_months = pos 60; apr_tenths = 119 };
}

abbrev pub pulled : WorkflowState
pulled = record {
  input = input;
  soft_pull = some (simulated_credit_pull "app-2" "SOFT_PULL");
  priced_offers = [];
  offer_selection = none;
  hard_pull = none;
  decision = none;
}

abbrev pub offered : WorkflowState
offered = record pulled { priced_offers = offers_for input }

abbrev pub agreed : WorkflowState
agreed = record offered { offer_selection = some (answered true chosen) }

abbrev pub checked : WorkflowState
checked = record agreed { hard_pull = some (hard_pull_for input) }

abbrev pub approval : Decision
approval = decide chosen.priced (hard_pull_for input)

abbrev pub finished : WorkflowState
finished = record checked { decision = some approval }

to_pricing : Found (running pricing_calculation_task pulled)
unfolding soft_pull
to_pricing = next here (soft_pulled _ (simulated_credit_pull "app-2" "SOFT_PULL") refl)

pub chosen_found : find_offer (offers_for input) "standard" ≡ ok chosen
unfolding find_offer price_options build_option max_affordable_amount apr_for_score
    simulated_credit_pull ◌-ℤ◌ ◌+ℤ◌ ◌*ℤ◌ ◌/ℤ◌ wrap64
chosen_found = refl

pub to_selection : Found (running await_offer_selection offered)
unfolding pricing_calculation
to_selection = next to_pricing (priced pulled (offers_for input) refl)

pub to_decision : Found (running decision_routing_task checked)
unfolding hard_pull
to_decision =
    next
      (next (next to_selection (selected offered "standard" chosen true chosen_found))
        (consented agreed refl))
      (hard_pulled agreed (hard_pull_for input) refl)

to_end : Found (succeeded finished)
unfolding decision_routing update_status
to_end = next (next to_decision (decided checked approval refl)) (updated finished finished 0 refl)

hard_pull_consented_example : consent checked.offer_selection ≡ true
hard_pull_consented_example =
    hard_pull_consented web "http://applications" input to_decision refl refl

succeeded-IsConcluded_example : IsConcluded input finished
succeeded-IsConcluded_example = succeeded-IsConcluded web "http://applications" input to_end

pub approved : approval.outcome ≡ "APPROVED"
unfolding decide simulated_credit_pull
approved = refl

approved_conditions_example :
    (consent finished.offer_selection ≡ true)
    × (id : String) × (o : OfferOption) × (find_offer (offers_for input) id ≡ ok o)
    × (finished.offer_selection ≡ some (answered true o))
    × (pos 0 <ℤ (o.priced).amount_cents)
    × (pos 670 ≤ℤ (hard_pull_for input).score)
approved_conditions_example =
    approved_conditions web "http://applications" input to_end refl approved

reached-IsReady_test : IsReady input decision_routing_task checked
reached-IsReady_test =
    reached-IsReady web "http://applications" input decision_routing_task checked to_decision

steps_bound_example :
    IsAfter (succeeded finished) (steps web "http://applications" to_end)
    × (steps web "http://applications" to_end ≤ 7)
steps_bound_example = steps_bound web "http://applications" to_end

state_status_complete_test :
    ((for_running_state "app-2" (state_text consent_given_check)).status ≢ processing)
    × (((for_running_state "app-2" (state_text consent_given_check)).status ≡ offer_pending)
        ↔ (has_offers_out consent_given_check ≡ true))
state_status_complete_test = state_status_complete "app-2" consent_given_check
