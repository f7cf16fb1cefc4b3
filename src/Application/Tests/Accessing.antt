-- ===== src/Application/Tests/Accessing.antt =====
-- Logins, and requests with the tokens that they issue.
use psr_pl.Base.{
  ℕ, ◌+◌, ◌*◌, ◌^◌, ◌<◌, String, List, [], ◌∷◌, none, some, ◌≡◌, ◌≢◌, inr, refl, arith, eq_iff,
}
use psr_pl.Go.{Result, ok, err, sentinel, login_failed}
use psr_pl.Go.Int64.{pos}
use psr_pl.Dynamo.{Table, put_record, get_record}
use psr_pl.Http.{bearer_token, HttpResponse, HttpClient}
use psr_pl.Application.Model.{Application}
use psr_pl.Application.Repository.{dynamo_repository}
use psr_pl.Application.Sessions
use psr_pl.Application.Sessions.{
  SessionStore, SessionRecord, session_item_id, session_record, unix, minute, dynamo_session_store,
}
use psr_pl.Application.OfferLog.{
  ValidateInvitationResponse, snapshot_of, prefill_of, validate_offer, validate_request,
}
use psr_pl.Application.Service.{State, session_ttl, new_application, login, authenticate, get}
use psr_pl.Application.Issued.{issued}
use psr_pl.Application.Login.{
  Identifies, login_refused, login_without_ssn, login_succeeds, login-authenticate,
}
use psr_pl.Application.Granted.{validate_offer_granted}
use psr_pl.Application.Replies.{submit_unprocessable, status_discloses}
use psr_pl.Application.Handler
use psr_pl.Application.Handler.{Floats, SubmitBody, applicant_of}
use psr_pl.Application.Tests.Fixtures.{
  Item, application_item, session_item, repo, sessions, stored, kept, repo-IsRepository,
  sessions-IsStore, offer_log, whole, starter, invited, ambient, home,
}

abbrev app : Application
app = new_application ambient (invited "") none

abbrev Systems : Type 0
Systems = State (Table Item) (List String) (List String)

abbrev before : Systems
before = record { table = application_item app ∷ []; offers = []; workflow = [] }

-- The login is at 1,000 seconds: the session ends at 2,800.
abbrev noon : ℕ
noon = 1000 * 10 ^ 9

abbrev session : SessionRecord
session = session_record "token-1" "app-1" noon session_ttl

abbrev logged_in : Systems
logged_in = record before { table = session_item session ∷ application_item app ∷ [] }

abbrev log_in : String → String → Result String × Systems
log_in last4_ssn date_of_birth =
    login repo offer_log sessions starter (ok "token-1") noon "app-1" last4_ssn date_of_birth before

login_test : log_in "6789" "1990-01-31" ≡ (ok "token-1", logged_in)
unfolding login dynamo_repository dynamo_session_store put_record get_record Sessions.create
login_test = refl

login_succeeds_example :
    let after = (log_in "6789" "1990-01-31").1 in
    (a : Application) × (stored before.table "app-1" ≡ some a)
    × Identifies "6789" "1990-01-31" a
    × (issued kept after.table "token-1" ≡ some (session_record "token-1" "app-1" noon session_ttl))
unfolding login dynamo_repository dynamo_session_store put_record get_record Sessions.create
login_succeeds_example =
    login_succeeds offer_log starter repo-IsRepository sessions-IsStore (ok "token-1") noon "app-1"
      "6789" "1990-01-31" "token-1" before refl

another_birthday : ¬ Identifies "6789" "1990-02-01" app
another_birthday (ending, birthday) = ground (arith, eq_iff "1990-01-31" "1990-02-01")

login_refused_example :
    log_in "6789" "1990-02-01"
    ≡ (err (sentinel login_failed), record before { table = (repo.get "app-1" before.table).1 })
unfolding dynamo_repository get_record
login_refused_example =
    login_refused repo offer_log sessions starter (ok "token-1") noon "app-1" "6789" "1990-02-01"
      before (inr (app, refl, another_birthday))

login_without_ssn_example : (log_in "" "1990-01-31").0 ≡ ok "token-1"
unfolding dynamo_repository dynamo_session_store put_record get_record Sessions.create
login_without_ssn_example =
    login_without_ssn repo offer_log sessions starter (ok "token-1") noon "app-1" "token-1" before
      app refl refl

login-authenticate_example :
    ◌≡◌ {A = String} "app-1" "app-1" × (unix (2000 * 10 ^ 9) < unix (noon + session_ttl))
unfolding login authenticate dynamo_repository dynamo_session_store put_record get_record
    Sessions.create Sessions.validate
login-authenticate_example =
    login-authenticate offer_log starter repo-IsRepository sessions-IsStore (ok "token-1") noon
      (2000 * 10 ^ 9) "app-1" "6789" "1990-01-31" "token-1" "app-1" before refl refl

status_discloses_example :
    let after =
      (Handler.status repo offer_log sessions starter
        (2000 * 10 ^ 9)
        "Bearer token-1"
        "app-1"
        logged_in).1 in
    (bearer_token "Bearer token-1" ≢ "")
    × (stored after.table "app-1" ≡ some app)
    × (r : SessionRecord) × (issued kept logged_in.table (bearer_token "Bearer token-1") ≡ some r)
    × (r.application_id ≡ "app-1")
    × (unix (2000 * 10 ^ 9) < r.expires_at)
unfolding Handler.status get authenticate dynamo_repository dynamo_session_store put_record
    get_record Sessions.validate bearer_token
status_discloses_example =
    status_discloses offer_log starter repo-IsRepository sessions-IsStore (2000 * 10 ^ 9)
      "Bearer token-1" "app-1" logged_in app refl

abbrev body : SubmitBody
body = record {
  intake_id = none;
  ssn_verification_token = none;
  ssn = "123456789";
  first_name = "";
  last_name = "Smyth";
  date_of_birth = "1990-01-31";
  citizenship = "US_CITIZEN";
  email = "jo@example.com";
  phone = "555-0100";
  street = "47 W 5th St";
  address_line2 = "";
  city = "Austin";
  state = "TX";
  zip = "78701";
  employer_name = "";
  employment_status = "EMPLOYED";
  annual_income = 90000;
  monthly_obligations = 1000;
  requested_amount = 15000;
  term_months = pos 60;
  loan_purpose = "OTHER";
}

submit_unprocessable_test :
    let (reply, after) =
      Handler.submit repo offer_log sessions starter whole ambient "WEB" (ok body) before in
    (reply.status ≡ 422) × (after ≡ before)
submit_unprocessable_test =
    submit_unprocessable repo offer_log sessions starter whole ambient "WEB" body before
      (λ full. full.0 refl)

-- OfferLog over HTTP, which answers every request with one offer.
abbrev answer : ValidateInvitationResponse
answer = record {
  intake_id = "intake-1";
  offer_id = "offer-1";
  campaign_offer_id = "campaign-1";
  term_months = pos 60;
  amount_cents = pos 1500000;
  apr_percentage = 4622888722500472013;
  first_name = "Jane";
  last_name = "Smith";
  address = home;
  status = "ACTIVE";
}

abbrev web : HttpClient ℕ
web = record {
  encode = λ p. ok "payload";
  new_request = λ m u. ok tt;
  send = λ r n. (ok (record { status = 200; payload = "offer" }), n + 1);
}

validate_offer_granted_test :
    (payload : String) × (resp : HttpResponse) × (b : ValidateInvitationResponse) × ((web.send
        (validate_request web (λ s. ok answer) "http://offers" "request-1" payload)
        0).0
      ≡ ok resp)
    × (resp.status ≡ 200)
    × (ok answer ≡ ok b)
    × (b.status ≡ "ACTIVE")
    × (snapshot_of answer ≡ snapshot_of b)
    × (prefill_of "Jane" "Smith" home ≡ prefill_of b.first_name b.last_name b.address)
unfolding validate_offer
validate_offer_granted_test =
    validate_offer_granted web (λ s. ok answer) "http://offers" "request-1" "VALID-1" 0
      (snapshot_of answer) (prefill_of "Jane" "Smith" home) refl
