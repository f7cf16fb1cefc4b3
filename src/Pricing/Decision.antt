-- ===== src/Pricing/Decision.antt =====
-- pricing-orchestration-service/internal/pricing/decision.go
use psr_pl.Base.{String, ◌≡◌, ◌↔◌, ◌⊎◌, arith, eq_iff, if◌then◌else◌}
use psr_pl.Go.Int64.{pos, leb_ℤ, ◌≤ℤ◌, ◌<ℤ◌}
use psr_pl.Pricing.Model.{CreditSummary, PricedOffer, Decision}

abbrev decision : String → String → Decision
decision outcome reason = record { outcome = outcome; reason = reason }

unfoldable pub decide : PricedOffer → CreditSummary → Decision
decide offer hard_pull =
    if leb_ℤ offer.amount_cents (pos 0)
    then decision "DECLINED" "insufficient debt-to-income capacity"
    else if leb_ℤ (pos 670) hard_pull.score
    then decision "APPROVED" "meets standard approval threshold"
    else if leb_ℤ (pos 600) hard_pull.score
    then decision "REFERRED" "borderline score requires manual underwriting"
    else decision "DECLINED" "below minimum credit threshold"

-- The outcome of `decide` is APPROVED exactly for a positive amount and a score of 670 or more,
-- REFERRED exactly for a positive amount and a score from 600 to 669, and DECLINED exactly for an
-- amount that is not positive or a score below 600.
pub decide_outcomes :
    (offer : PricedOffer) (pull : CreditSummary)
    → (((decide offer pull).outcome ≡ "APPROVED")
        ↔ ((pos 0 <ℤ offer.amount_cents) × (pos 670 ≤ℤ pull.score)))
      × (((decide offer pull).outcome ≡ "REFERRED")
          ↔ ((pos 0 <ℤ offer.amount_cents) × (pos 600 ≤ℤ pull.score) × (pull.score <ℤ pos 670)))
      × (((decide offer pull).outcome ≡ "DECLINED")
          ↔ ((offer.amount_cents ≤ℤ pos 0) ⊎ (pull.score <ℤ pos 600)))
unfolding decide
decide_outcomes offer pull = ground (
  arith,
  eq_iff "APPROVED" "DECLINED",
  eq_iff "APPROVED" "REFERRED",
  eq_iff "DECLINED" "REFERRED",
)
