-- ===== src/Application/Model.antt =====
-- application-management-service/internal/application/model.go. A `float64` is its 64 bits, and an
-- instant is its nanoseconds since the epoch.
use psr_pl.Base.{ℕ, String, Option}
use psr_pl.Go.Int64.{ℤ}

abbrev pub Float64 : Type 0
Float64 = ℕ

abbrev pub entry_path_invitation : String
entry_path_invitation = "INVITATION"

abbrev pub entry_path_direct : String
entry_path_direct = "DIRECT"

abbrev pub status_submitted : String
status_submitted = "SUBMITTED"

pub record Address : Type 0 where
  pub line1 : String
  pub line2 : String
  pub city : String
  pub state : String
  pub postal_code : String

pub record Offer : Type 0 where
  pub intake_id : String
  pub offer_id : String
  pub campaign_offer_id : String
  pub term_months : ℤ
  pub amount_cents : ℤ
  pub apr_percentage : Float64

pub record Employment : Type 0 where
  pub employer_name : String
  pub employment_status : String

pub record Applicant : Type 0 where
  pub first_name : String
  pub last_name : String
  pub address : Address
  pub phone : String
  pub email : String
  pub employment : Employment
  pub annual_income_cents : ℤ
  pub monthly_obligations_cents : ℤ
  pub ssn : String
  pub ssn_verification_token : String
  pub date_of_birth : String
  pub citizenship_status : String
  pub requested_amount_cents : ℤ
  pub requested_term_months : ℤ
  pub loan_purpose : String

pub record Application : Type 0 where
  pub id : String
  pub entry_path : String
  pub partner_id : String
  pub applicant : Applicant
  pub offer : Option Offer
  pub status : String
  pub execution_arn : String
  pub submitted_at : ℕ
  pub last_action_at : ℕ
