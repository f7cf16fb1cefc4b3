-- ===== src/Application/Validator.antt =====
-- application-management-service/internal/application/validator.go
use Prim.Native.String.{◌++◌ as concat}
use psr_pl.Base.{
  String, Bool, true, false, not, List, [], ◌∷◌, ◌++◌, ◌==◌, if◌then◌else◌, ◌≡◌, ◌≢◌, ◌↔◌, refl,
  arith, eq_iff,
}
use psr_pl.Go.{text, Result, ok, err}
use psr_pl.Go.Int64.{ℤ, pos, ltb_ℤ, ◌<ℤ◌}
use psr_pl.Application.Model.{Applicant}

-- `require(ok, field)` appends to the captured slice.
abbrev require : Bool → String → List String → List String
require given field missing = if given then missing else missing ++ field ∷ []

abbrev pub filled : String → Bool
filled s = not (s == "")

abbrev pub is_positive : ℤ → Bool
is_positive n = ltb_ℤ (pos 0) n

-- The fields, with what is asked of each, in the order of the calls.
abbrev pub required_fields : Applicant → List (Bool × String)
required_fields a =
    (filled a.first_name, "firstName")
    ∷ (filled a.last_name, "lastName")
    ∷ (filled (a.address).line1, "address.line1")
    ∷ (filled (a.address).city, "address.city")
    ∷ (filled (a.address).state, "address.state")
    ∷ (filled (a.address).postal_code, "address.postalCode")
    ∷ (filled a.phone, "phone")
    ∷ (filled a.email, "email")
    ∷ (filled (a.employment).employment_status, "employment.employmentStatus")
    ∷ (is_positive a.annual_income_cents, "annualIncomeCents")
    ∷ (filled a.ssn, "ssn")
    ∷ (filled a.date_of_birth, "dateOfBirth")
    ∷ (filled a.citizenship_status, "citizenshipStatus")
    ∷ (is_positive a.requested_amount_cents, "requestedAmountCents")
    ∷ (is_positive a.requested_term_months, "requestedTermMonths")
    ∷ (filled a.loan_purpose, "loanPurpose")
    ∷ []

abbrev pub require_all : List (Bool × String) → List String → List String
require_all [] missing = missing
require_all ((given, field) ∷ rest) missing = require_all rest (require given field missing)

-- `strings.Join(texts, ", ")`
abbrev pub join : List String → String
join [] = ""
join (x ∷ []) = x
join (x ∷ y ∷ rest) = concat x (concat ", " (join (y ∷ rest)))

abbrev report : List String → Result (Unit {0})
report [] = ok tt
report (x ∷ rest) = err (text (concat "missing required fields: " (join (x ∷ rest))))

unfoldable pub validate : Applicant → Result (Unit {0})
validate a = report (require_all (required_fields a) [])

-- The application has every field that `Validate` asks for. (The specification also asks for the
-- monthly obligations.)
abbrev pub IsComplete : Applicant → Type 0
IsComplete a =
    (a.first_name ≢ "")
    × (a.last_name ≢ "")
    × ((a.address).line1 ≢ "")
    × ((a.address).city ≢ "")
    × ((a.address).state ≢ "")
    × ((a.address).postal_code ≢ "")
    × (a.phone ≢ "")
    × (a.email ≢ "")
    × ((a.employment).employment_status ≢ "")
    × (pos 0 <ℤ a.annual_income_cents)
    × (a.ssn ≢ "")
    × (a.date_of_birth ≢ "")
    × (a.citizenship_status ≢ "")
    × (pos 0 <ℤ a.requested_amount_cents)
    × (pos 0 <ℤ a.requested_term_months)
    × (a.loan_purpose ≢ "")

-- Every test of the list passes.
abbrev AllGiven : List (Bool × String) → Type 0
AllGiven [] = Unit
AllGiven ((given, field) ∷ rest) = (given ≡ true) × AllGiven rest

report-snoc : (xs : List String) (x : String) → report (xs ++ x ∷ []) ≢ ok tt
report-snoc [] x h = ground arith
report-snoc (y ∷ ys) x h = ground arith

-- What was missing stays missing.
report-require_all :
    (fields : List (Bool × String)) (missing : List String)
    → report (require_all fields missing) ≡ ok tt
    → report missing ≡ ok tt
report-require_all [] missing h = h
report-require_all ((true, field) ∷ rest) missing h = report-require_all rest missing h
report-require_all ((false, field) ∷ rest) missing h =
    absurd (report-snoc missing field (report-require_all rest (missing ++ field ∷ []) h))

require_all_given :
    (fields : List (Bool × String)) → report (require_all fields []) ≡ ok tt → AllGiven fields
require_all_given [] h = tt
require_all_given ((true, field) ∷ rest) h = (refl, require_all_given rest h)
require_all_given ((false, field) ∷ rest) h =
    absurd (report-snoc [] field (report-require_all rest (field ∷ []) h))

given_require_all :
    (fields : List (Bool × String)) → AllGiven fields → report (require_all fields []) ≡ ok tt
given_require_all [] g = refl
given_require_all ((true, field) ∷ rest) (p, g) = given_require_all rest g
given_require_all ((false, field) ∷ rest) (p, g) = ground arith

AllGiven-IsComplete : (a : Applicant) → AllGiven (required_fields a) ↔ IsComplete a
AllGiven-IsComplete a = ground (
  arith,
  eq_iff a.first_name "",
  eq_iff a.last_name "",
  eq_iff (a.address).line1 "",
  eq_iff (a.address).city "",
  eq_iff (a.address).state "",
  eq_iff (a.address).postal_code "",
  eq_iff a.phone "",
  eq_iff a.email "",
  eq_iff (a.employment).employment_status "",
  eq_iff a.ssn "",
  eq_iff a.date_of_birth "",
  eq_iff a.citizenship_status "",
  eq_iff a.loan_purpose "",
)

-- `Validate` accepts exactly the applicants with those fields.
pub validate-IsComplete : (a : Applicant) → (validate a ≡ ok tt) ↔ IsComplete a
unfolding validate
validate-IsComplete a = (
  λ h. (AllGiven-IsComplete a).0 (require_all_given (required_fields a) h),
  λ g. given_require_all (required_fields a) ((AllGiven-IsComplete a).1 g),
)

-- An application passes validation exactly if the texts that `Validate` asks for are not empty, and
-- the income, the amount and the term are positive; the monthly obligations are not looked at.
pub validate_fields :
    (a : Applicant) (obligations : ℤ)
    → ((validate a ≡ ok tt) ↔ IsComplete a)
      × (validate (record a { monthly_obligations_cents = obligations }) ≡ validate a)
unfolding validate
validate_fields a obligations = (validate-IsComplete a, refl)
