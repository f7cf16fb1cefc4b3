-- ===== src/Pricing/Terms.antt =====
-- Which terms pricing offers. The sums of `int` do not wrap for terms below 2 ^ 62.
use psr_pl.Base.{
  ℕ, ◌+◌, ◌-◌, ◌^◌, ◌≤◌, ◌<◌, ◌≡◌, ◌↔◌, ◌⊎◌, List, [], ◌∷◌, ◌++◌, arith, leb, if◌then◌else◌, All,
  IsDistinct, eq_iff,
}
use mathlib.Core.List.{map}
use psr_pl.Go.Int64.{pos, ◌≤ℤ◌, ◌+ℤ◌, ◌-ℤ◌, wrap64, add64, sub64, leb_ℤ}
use psr_pl.Pricing.Model.{WorkflowInput, CreditSummary, OfferOption}
use psr_pl.Pricing.Options.{
  price_options, build_option, apr_for_score, term_step_months, min_term_months, max_term_months,
}

longer_lem : (n : ℕ) → n < 2 ^ 62 → add64 (pos n) term_step_months ≡ pos (n + 12)
unfolding ◌+ℤ◌ wrap64
longer_lem n h = ground arith

shorter_lem : (n : ℕ) → 12 ≤ n → n < 2 ^ 62 → sub64 (pos n) term_step_months ≡ pos (n - 12)
unfolding ◌-ℤ◌ wrap64
shorter_lem n k h = ground arith

shorter_test :
    (n : ℕ) → n < 2 ^ 62 → leb_ℤ min_term_months (sub64 (pos n) term_step_months) ≡ leb 36 n
unfolding ◌-ℤ◌ wrap64
shorter_test n h = ground arith

-- The optional variants, over natural numbers.
abbrev pub longer_option : WorkflowInput → ℕ → ℕ → List OfferOption
longer_option input n apr =
    if leb (n + 12) 84
    then build_option "lower-payment" "Lower Monthly Payment" input (pos (n + 12)) apr ∷ []
    else []

abbrev pub shorter_option : WorkflowInput → ℕ → ℕ → List OfferOption
shorter_option input n apr =
    if leb 36 n
    then build_option "faster-payoff" "Faster Payoff" input (pos (n - 12)) apr ∷ []
    else []

pub price_options_lem :
    (input : WorkflowInput) (credit : CreditSummary) (n : ℕ)
    → input.requested_term_months ≡ pos n
    → n < 2 ^ 62
    → let apr = apr_for_score credit.score in
      price_options input credit
      ≡ build_option "standard" "Requested Terms" input (pos n) apr
        ∷ (longer_option input n apr ++ shorter_option input n apr)
unfolding price_options
price_options_lem input credit n e h =
    ground (arith, longer_lem n h, shorter_lem n, shorter_test n h)

-- Every option is at the requested term or has a term from 24 to 84 months exactly if the
-- requested term lies between 12 and 96 months. (A request below 12 months is offered a longer
-- term below 24, and one above 96 months a shorter term above 84.)
pub price_options_bounds_iff :
    (input : WorkflowInput) (credit : CreditSummary) (n : ℕ)
    → input.requested_term_months ≡ pos n
    → n < 2 ^ 62
    → All
        (λ o.
          (o.term_months ≡ pos n)
          ⊎ ((min_term_months ≤ℤ o.term_months) × (o.term_months ≤ℤ max_term_months)))
        (price_options input credit)
      ↔ ((12 ≤ n) × (n ≤ 96))
unfolding build_option
price_options_bounds_iff input credit n e h =
    rw (price_options_lem input credit n e h) (ground arith)

-- No two options of one pricing run share an id.
pub price_options-IsDistinct :
    (input : WorkflowInput) (credit : CreditSummary)
    → IsDistinct (map (λ o. o.id) (price_options input credit))
unfolding price_options build_option
price_options-IsDistinct input credit = ground (
  arith,
  eq_iff "standard" "lower-payment",
  eq_iff "standard" "faster-payoff",
  eq_iff "lower-payment" "faster-payoff",
)
