-- ===== src/Pricing/Capacity.antt =====
-- The amounts that pricing offers, against exact arithmetic over the natural numbers.
use native.Mathlib.Nat.{mul-le-mul}
use Prim.Native.Nat.{min}
use psr_pl.Base.{
  ℕ, ◌+◌, ◌-◌, ◌*◌, ◌/◌, ◌^◌, ◌≤◌, ◌<◌, ◌≡◌, refl, arith, leb, String, All, All-append,
  All-optional,
}
use psr_pl.Go.Int64.{pos, ◌-ℤ◌, ◌*ℤ◌, ◌/ℤ◌, wrap64, sub64, mul64, leb_ℤ}
use psr_pl.Pricing.Model.{WorkflowInput, CreditSummary, OfferOption}
use psr_pl.Pricing.Options.{price_options, build_option, apr_for_score, max_affordable_amount}
use psr_pl.Pricing.Terms.{price_options_lem, shorter_option}

-- What the applicant can pay in a number of months: the monthly income less the obligations.
abbrev pub capacity : ℕ → ℕ → ℕ → ℕ
capacity income obligations months = (income / 12 - obligations) * months

-- Amounts of at most 10 ^ 15 cents, a term of at most 1000 months, and nothing negative.
pub record IsPlausible (input : WorkflowInput) (amount months income obligations : ℕ) : Type 0 where
  pub amount_eq : input.requested_amount_cents ≡ pos amount
  pub months_eq : input.requested_term_months ≡ pos months
  pub income_eq : input.annual_income_cents ≡ pos income
  pub obligations_eq : input.monthly_obligations_cents ≡ pos obligations
  pub amount_le : amount ≤ 10 ^ 15
  pub months_le : months ≤ 1000
  pub income_le : income ≤ 10 ^ 15
  pub obligations_le : obligations ≤ 10 ^ 15

mul64_lem : (a b : ℕ) → a * b < 2 ^ 63 → mul64 (pos a) (pos b) ≡ pos (a * b)
unfolding ◌*ℤ◌ wrap64
mul64_lem a b h = ground arith

available_lem :
    (income obligations : ℕ)
    → income ≤ 10 ^ 15
    → obligations ≤ 10 ^ 15
    → let available = sub64 (pos income /ℤ 12) (pos obligations) in
      (leb_ℤ available (pos 0) ≡ leb (income / 12) obligations)
unfolding ◌-ℤ◌ ◌/ℤ◌ wrap64
available_lem income obligations h k = ground arith

available_pos :
    (income obligations : ℕ)
    → income ≤ 10 ^ 15
    → obligations < income / 12
    → sub64 (pos income /ℤ 12) (pos obligations) ≡ pos (income / 12 - obligations)
unfolding ◌-ℤ◌ ◌/ℤ◌ wrap64
available_pos income obligations h k = ground arith

capacity_fits :
    (income obligations months : ℕ)
    → income ≤ 10 ^ 15
    → months ≤ 1012
    → capacity income obligations months < 2 ^ 63
capacity_fits income obligations months h k =
    let left : income / 12 - obligations ≤ 10 ^ 14 = omega arith in omega (arith, mul-le-mul left k)

-- In the plausible range no step of the affordability check wraps or goes below zero.
max_affordable_amount_lem :
    (input : WorkflowInput) (amount months income obligations term : ℕ)
    → IsPlausible input amount months income obligations
    → term ≤ 1012
    → max_affordable_amount input (pos term) ≡ pos (capacity income obligations term)
unfolding max_affordable_amount
max_affordable_amount_lem input amount months income obligations term p h = ground (
  arith,
  available_lem income obligations,
  available_pos income obligations,
  mul64_lem (income / 12 - obligations) term,
  capacity_fits income obligations term,
)

abbrev pub HasCapacity : ℕ → ℕ → ℕ → OfferOption → Type 0
HasCapacity amount income obligations o =
    (term : ℕ) × (o.term_months ≡ pos term)
    × (o.amount_cents ≡ pos (min amount (capacity income obligations term)))

build_option-HasCapacity :
    (id label : String) (apr : ℕ) (input : WorkflowInput)
    (amount months income obligations term : ℕ)
    → IsPlausible input amount months income obligations
    → term ≤ 1012
    → HasCapacity amount income obligations (build_option id label input (pos term) apr)
unfolding build_option
build_option-HasCapacity id label apr input amount months income obligations term p h = (
  term,
  refl,
  ground (arith, max_affordable_amount_lem input amount months income obligations term p h),
)

-- For plausible figures, every option offers the requested amount or, if that is less, exactly what
-- income less obligations pays in the option's own term: nothing wraps or goes below zero.
pub price_options-HasCapacity :
    (input : WorkflowInput) (credit : CreditSummary) (amount months income obligations : ℕ)
    → IsPlausible input amount months income obligations
    → All (HasCapacity amount income obligations) (price_options input credit)
price_options-HasCapacity input credit amount months income obligations p =
    let apr = apr_for_score credit.score in
    let each = λ (id label : String) (term : ℕ) (h : term ≤ 1012).
      build_option-HasCapacity id label apr input amount months income obligations term p h in
    let fits = HasCapacity amount income obligations in
    rw (price_options_lem input credit months p.months_eq (omega arith)) (
      each _ _ months (omega arith),
      All-append fits _ (shorter_option input months apr)
          (All-optional fits (leb (months + 12) 84) _ (each _ _ (months + 12) (omega arith)))
          (All-optional fits (leb 36 months) _ (each _ _ (months - 12) (omega arith))),
    )
