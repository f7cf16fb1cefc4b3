-- ===== src/Pricing/Options.antt =====
-- pricing-orchestration-service/internal/pricing/pricing.go
use psr_pl.Base.{ℕ, String, List, [], ◌∷◌, ◌++◌, if◌then◌else◌}
use psr_pl.Go.Int64.{ℤ, pos, ◌/ℤ◌, leb_ℤ, ltb_ℤ, add64, sub64, mul64}
use psr_pl.Pricing.Model.{WorkflowInput, CreditSummary, OfferOption}

abbrev pub min_term_months : ℤ
min_term_months = pos 24

abbrev pub max_term_months : ℤ
max_term_months = pos 84

abbrev pub term_step_months : ℤ
term_step_months = pos 12

unfoldable pub max_affordable_amount : WorkflowInput → ℤ → ℤ
max_affordable_amount input term_months =
    let monthly_income_cents = input.annual_income_cents /ℤ 12 in
    let available_cents = sub64 monthly_income_cents input.monthly_obligations_cents in
    if leb_ℤ available_cents (pos 0) then pos 0 else mul64 available_cents term_months

unfoldable pub apr_for_score : ℤ → ℕ
apr_for_score score =
    if leb_ℤ (pos 740) score
    then 89
    else if leb_ℤ (pos 670) score
    then 119
    else if leb_ℤ (pos 600) score
    then 179
    else 249

unfoldable pub build_option : String → String → WorkflowInput → ℤ → ℕ → OfferOption
build_option id label input term_months apr =
    let requested = input.requested_amount_cents in
    let max_affordable = max_affordable_amount input term_months in
    record {
      id = id;
      label = label;
      priced = record {
        amount_cents = if ltb_ℤ max_affordable requested then max_affordable else requested;
        term_months = term_months;
        apr_tenths = apr;
      };
    }

unfoldable pub price_options : WorkflowInput → CreditSummary → List OfferOption
price_options input credit =
    let apr = apr_for_score credit.score in
    let term = input.requested_term_months in
    let options = build_option "standard" "Requested Terms" input term apr ∷ [] in
    let longer_term = add64 term term_step_months in
    let options =
      if leb_ℤ longer_term max_term_months
      then options
        ++ build_option "lower-payment" "Lower Monthly Payment" input longer_term apr ∷ []
      else options in
    let shorter_term = sub64 term term_step_months in
    if leb_ℤ min_term_months shorter_term
    then options ++ build_option "faster-payoff" "Faster Payoff" input shorter_term apr ∷ []
    else options
