-- ===== src/Pricing/Tests.antt =====
-- Pricing runs for one applicant.
use psr_pl.Base.{◌≤◌, ◌≡◌, ◌↔◌, ◌⊎◌, refl, arith, All}
use psr_pl.Go.Int64.{pos, ◌≤ℤ◌, ◌<ℤ◌}
use psr_pl.Pricing.Model.{WorkflowInput, CreditSummary, PricedOffer, OfferOption}
use psr_pl.Pricing.Options.{price_options, min_term_months, max_term_months}
use psr_pl.Pricing.Decision.{decide, decide_outcomes}
use psr_pl.Pricing.Terms.{price_options_bounds_iff}
use psr_pl.Pricing.Capacity.{IsPlausible, HasCapacity, price_options-HasCapacity}

abbrev input : WorkflowInput
input = record {
  application_id = "app-2";
  first_name = "Jo";
  last_name = "Smyth";
  date_of_birth = "1990-01-31";
  ssn = "123456789";
  address = record {
    line1 = "47 W 5th St";
    line2 = "";
    city = "Austin";
    state = "TX";
    postal_code = "78701";
  };
  requested_amount_cents = pos 1500000;
  requested_term_months = pos 60;
  annual_income_cents = pos 9000000;
  monthly_obligations_cents = pos 100000;
  request_id = "request-1";
}

abbrev pull : CreditSummary
pull = record { score = pos 695; source = "SOFT_PULL" }

input-IsPlausible : IsPlausible input 1500000 60 9000000 100000
input-IsPlausible = record {
  amount_eq = refl;
  months_eq = refl;
  income_eq = refl;
  obligations_eq = refl;
  amount_le = omega arith;
  months_le = omega arith;
  income_le = omega arith;
  obligations_le = omega arith;
}

price_options-HasCapacity_example :
    All (HasCapacity 1500000 9000000 100000) (price_options input pull)
price_options-HasCapacity_example =
    price_options-HasCapacity input pull 1500000 60 9000000 100000 input-IsPlausible

price_options_bounds_iff_example :
    All
      (λ (o : OfferOption).
        (o.term_months ≡ pos 60)
        ⊎ ((min_term_months ≤ℤ o.term_months) × (o.term_months ≤ℤ max_term_months)))
      (price_options input pull)
    ↔ ((12 ≤ 60) × (60 ≤ 96))
price_options_bounds_iff_example = price_options_bounds_iff input pull 60 refl (omega arith)

abbrev sample : PricedOffer
sample = record { amount_cents = pos 1500000; term_months = pos 60; apr_tenths = 119 }

decide_outcomes_example :
    (((decide sample pull).outcome ≡ "APPROVED")
      ↔ ((pos 0 <ℤ sample.amount_cents) × (pos 670 ≤ℤ pull.score)))
    × (((decide sample pull).outcome ≡ "REFERRED")
        ↔ ((pos 0 <ℤ sample.amount_cents) × (pos 600 ≤ℤ pull.score) × (pull.score <ℤ pos 670)))
    × (((decide sample pull).outcome ≡ "DECLINED")
        ↔ ((sample.amount_cents ≤ℤ pos 0) ⊎ (pull.score <ℤ pos 600)))
decide_outcomes_example = decide_outcomes sample pull
