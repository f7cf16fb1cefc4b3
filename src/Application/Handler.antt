-- ===== src/Application/Handler.antt =====
-- application-management-service/internal/application/handler.go. A request is its headers, its path
-- id and the JSON decoder's answer for its body; the operations of `float64` are parameters. Logging
-- is left out.
use psr_pl.Base.{ℕ, String, Bool, true, false, Option, none, some, ◌==◌, if◌then◌else◌}
use psr_pl.Go.{
  is, Result, ok, err, text, incomplete_application, login_failed, application_not_found,
}
use psr_pl.Go.Int64.{ℤ}
use psr_pl.Http.{Reply, write_json, write_error, bearer_token}
use psr_pl.Application.Model.{
  Float64, Address, Applicant, Application, entry_path_invitation, entry_path_direct,
}
use psr_pl.Application.Repository.{Repository}
use psr_pl.Application.Sessions.{SessionStore}
use psr_pl.Application.Workflow.{WorkflowStarter}
use psr_pl.Application.OfferLog.{OfferLogAdapter}
use psr_pl.Application.Service
use psr_pl.Application.Service.{State, SubmitRequest, Resolution, resolved, degraded, Ambient}

-- The arithmetic of `float64` that the conversions use, and their constants 100 and 0.5.
pub record Floats : Type 0 where
  pub times : Float64 → Float64 → Float64
  pub plus : Float64 → Float64 → Float64
  pub divided : Float64 → Float64 → Float64
  pub to_int64 : Float64 → ℤ
  pub of_int64 : ℤ → Float64
  pub hundred : Float64
  pub half : Float64

abbrev pub dollars_to_cents : Floats → Float64 → ℤ
dollars_to_cents f dollars = f.to_int64 (f.plus (f.times dollars f.hundred) f.half)

abbrev pub cents_to_dollars : Floats → ℤ → Float64
cents_to_dollars f cents = f.divided (f.of_int64 cents) f.hundred

pub record ValidateInvitationBody : Type 0 where
  pub intake_id : String
  pub offer_id : String
  pub campaign_offer_id : String
  pub first_name : String
  pub last_name : String
  pub address : Address
  pub requested_amount : Float64
  pub requested_term_months : ℤ

pub record SubmitBody : Type 0 where
  pub intake_id : Option String
  pub ssn_verification_token : Option String
  pub ssn : String
  pub first_name : String
  pub last_name : String
  pub date_of_birth : String
  pub citizenship : String
  pub email : String
  pub phone : String
  pub street : String
  pub address_line2 : String
  pub city : String
  pub state : String
  pub zip : String
  pub employer_name : String
  pub employment_status : String
  pub annual_income : Float64
  pub monthly_obligations : Float64
  pub requested_amount : Float64
  pub term_months : ℤ
  pub loan_purpose : String

pub record LoginBody : Type 0 where
  pub application_id : String
  pub last4_ssn : String
  pub date_of_birth : String

pub record LoginResponse : Type 0 where
  pub session_token : String
  pub application_id : String

pub record ValidateSessionBody : Type 0 where
  pub token : String
  pub application_id : String

-- A nil pointer leaves the zero value.
abbrev or_empty : Option String → String
or_empty none = ""
or_empty (some s) = s

abbrev pub applicant_of : Floats → SubmitBody → Applicant
applicant_of f body = record {
  first_name = body.first_name;
  last_name = body.last_name;
  address = record {
    line1 = body.street;
    line2 = body.address_line2;
    city = body.city;
    state = body.state;
    postal_code = body.zip;
  };
  phone = body.phone;
  email = body.email;
  employment = record {
    employer_name = body.employer_name;
    employment_status = body.employment_status;
  };
  annual_income_cents = dollars_to_cents f body.annual_income;
  monthly_obligations_cents = dollars_to_cents f body.monthly_obligations;
  ssn = body.ssn;
  ssn_verification_token = or_empty body.ssn_verification_token;
  date_of_birth = body.date_of_birth;
  citizenship_status = body.citizenship;
  requested_amount_cents = dollars_to_cents f body.requested_amount;
  requested_term_months = body.term_months;
  loan_purpose = body.loan_purpose;
}

abbrev pub submit_request : Floats → String → SubmitBody → SubmitRequest
submit_request f channel body = record {
  entry_path = if channel == "ITA" then entry_path_invitation else entry_path_direct;
  intake_id = or_empty body.intake_id;
  partner_id = "";
  applicant = applicant_of f body;
}

abbrev resolution_reply : Floats → Result Resolution → Reply ValidateInvitationBody
resolution_reply f (err e) = write_error 502 e
resolution_reply f (ok degraded) =
    write_error 404 (text "invitation is invalid, expired, or already used")
resolution_reply f (ok (resolved offer prefill)) = write_json 200 (record {
  intake_id = offer.intake_id;
  offer_id = offer.offer_id;
  campaign_offer_id = offer.campaign_offer_id;
  first_name = prefill.first_name;
  last_name = prefill.last_name;
  address = prefill.address;
  requested_amount = cents_to_dollars f offer.amount_cents;
  requested_term_months = offer.term_months;
})

abbrev pub submit_reply : Result Application → Reply Application
submit_reply (ok app) = write_json 201 app
submit_reply (err e) = if is e incomplete_application then write_error 422 e else write_error 500 e

abbrev pub login_reply : String → Result String → Reply LoginResponse
login_reply id (ok token) = write_json 200 (record { session_token = token; application_id = id })
login_reply id (err e) = if is e login_failed then write_error 401 e else write_error 500 e

-- The reply that four handlers give for an application, or for a part of it.
abbrev pub found_reply : {A : Type 0} → Result A → Reply A
found_reply (ok a) = write_json 200 a
found_reply (err e) = if is e application_not_found then write_error 404 e else write_error 500 e

abbrev status_of : Result Application → Result String
status_of (ok app) = ok app.status
status_of (err e) = err e

abbrev succeeds : Result (Unit {0}) → Bool
succeeds (ok u) = true
succeeds (err e) = false

module _ {D L W : Type 0} (repo : Repository D) (offers : OfferLogAdapter L)
    (sessions : SessionStore D) (workflow : WorkflowStarter W) where
  unfoldable pub validate_invitation :
      Floats → Result String → State D L W → Reply ValidateInvitationBody × State D L W
  validate_invitation f (err e) s = (write_error 400 e, s)
  validate_invitation f (ok token) s =
      let (r, t) = Service.resolve_invitation repo offers sessions workflow token s in
      (resolution_reply f r, t)

  unfoldable pub submit :
      Floats → Ambient → String → Result SubmitBody → State D L W → Reply Application × State D L W
  submit f now channel (err e) s = (write_error 400 e, s)
  submit f now channel (ok body) s =
      let (r, t) =
        Service.submit repo offers sessions workflow now (submit_request f channel body) s in
      (submit_reply r, t)

  unfoldable pub login :
      Result String → ℕ → Result LoginBody → State D L W → Reply LoginResponse × State D L W
  login random now (err e) s = (write_error 400 e, s)
  login random now (ok body) s =
      let (r, t) =
        Service.login repo offers sessions workflow random now body.application_id body.last4_ssn
          body.date_of_birth s in
      (login_reply body.application_id r, t)

  abbrev serve_status : String → Result (Unit {0}) → State D L W → Reply Application × State D L W
  serve_status id (err e) s = (write_error 401 e, s)
  serve_status id (ok u) s =
      let (r, t) = Service.get repo offers sessions workflow id s in (found_reply r, t)

  unfoldable pub status : ℕ → String → String → State D L W → Reply Application × State D L W
  status now auth id s =
      let token = bearer_token auth in
      if token == ""
      then (write_error 401 (text "missing session token"), s)
      else let (r, t) = Service.authenticate repo offers sessions workflow now token id s in
        serve_status id r t

  unfoldable pub update_status :
      ℕ → String → Result String → State D L W → Reply Application × State D L W
  update_status now id (err e) s = (write_error 400 e, s)
  update_status now id (ok status) s =
      let (r, t) = Service.update_status repo offers sessions workflow now id status s in
      (found_reply r, t)

  unfoldable pub current_status : String → State D L W → Reply String × State D L W
  current_status id s =
      let (r, t) = Service.get repo offers sessions workflow id s in (found_reply (status_of r), t)

  unfoldable pub execution_arn : String → State D L W → Reply String × State D L W
  execution_arn id s =
      let (r, t) = Service.execution_arn repo offers sessions workflow id s in (found_reply r, t)

  unfoldable pub validate_session :
      ℕ → Result ValidateSessionBody → State D L W → Reply Bool × State D L W
  validate_session now (err e) s = (write_error 400 e, s)
  validate_session now (ok body) s =
      let (r, t) =
        Service.authenticate repo offers sessions workflow now body.token body.application_id s in
      (write_json 200 (succeeds r), t)
