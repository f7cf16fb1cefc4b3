-- ===== src/OfferSelection/Tests.antt =====
-- Runs of the offer-selection service over a table in memory.
mod Racing
use psr_pl.Base.{
  ℕ, ◌+◌, String, Bool, true, false, List, [], ◌∷◌, ◌==◌, if◌then◌else◌, ◌≡◌, ◌≢◌, ◌⊎◌, ◌↔◌, inl,
  inr, Option, some, arith, eq_iff, refl, Has,
}
use psr_pl.Go.{Error, ok, err, sentinel, text, wrap, already_confirmed, offer_not_found}
use psr_pl.Go.Int64.{pos, ◌+ℤ◌, ◌-ℤ◌, wrap64}
use psr_pl.Dynamo.{
  memory, verbatim, memory-IsDynamo, verbatim-IsCodec, Table, stored_record, put_record, get_record,
}
use psr_pl.Http.{write_error, bearer_token}
use psr_pl.Pricing.Model.{WorkflowInput, CreditSummary, OfferOption}
use psr_pl.Pricing.Options.{price_options, build_option, apr_for_score}
use psr_pl.OfferSelection.Model.{SelectedOffer, status_confirmed}
use psr_pl.OfferSelection.Repository.{
  messages, Repository, IsRepository, dynamo_repository, offers-IsRepository,
}
use psr_pl.OfferSelection.Service
use psr_pl.OfferSelection.Service.{WorkflowResumer, State, find_offer, confirmed}
use psr_pl.OfferSelection.Confirm.{confirm_succeeds, confirm_resume_fails, confirm_once}
use psr_pl.OfferSelection.Find.{Among, ids, find-price_options, find_offer_missing_iff}
use psr_pl.OfferSelection.Sessions.{SessionValidator}
use psr_pl.OfferSelection.Handler
use psr_pl.OfferSelection.Handler.{Server, ConfirmBody}
use psr_pl.OfferSelection.Access.{confirm_needs_session, confirm_conflict}

abbrev pub key : SelectedOffer → String
key o = o.application_id

abbrev pub repo : Repository (Table SelectedOffer)
unfolding dynamo_repository
repo = dynamo_repository (memory key) (verbatim key)

abbrev pub stored : Table SelectedOffer → String → Option SelectedOffer
stored = stored_record (messages "") (memory-IsDynamo key) (verbatim-IsCodec key)

pub repo-IsRepository : IsRepository repo stored
unfolding dynamo_repository
repo-IsRepository = offers-IsRepository (memory-IsDynamo key) (verbatim-IsCodec key)

-- Each resumption is written down: its token, the consent and the offer's id.
abbrev pub Resumptions : Type 0
Resumptions = List (String × Bool × String)

abbrev pub recording : WorkflowResumer Resumptions
recording = record { resume = λ token consent o w. (ok tt, (token, consent, o.id) ∷ w) }

abbrev broken : WorkflowResumer Resumptions
broken = record { resume = λ token consent o w. (err (text "timed out"), w) }

abbrev pub offer : String → OfferOption
offer id = record {
  id = id;
  label = id;
  priced = record { amount_cents = pos 500000; term_months = pos 36; apr_tenths = 119 };
}

abbrev pub pending : SelectedOffer
pending = record {
  application_id = "app-1";
  offers = offer "standard" ∷ offer "faster-payoff" ∷ [];
  selected_offer_id = "";
  status = "PENDING_SELECTION";
  consent_given = false;
  task_token = "token-1";
}

abbrev start : State (Table SelectedOffer) Resumptions
start = record { table = pending ∷ []; workflow = [] }

abbrev done : SelectedOffer
done = confirmed pending "faster-payoff" true

abbrev finished : State (Table SelectedOffer) Resumptions
finished = record { table = done ∷ []; workflow = [] }

confirm_test : Service.confirm repo recording "app-1" "faster-payoff" true start ≡ (
  ok done,
  record { table = done ∷ pending ∷ []; workflow = ("token-1", true, "faster-payoff") ∷ [] },
)
unfolding Service.confirm find_offer dynamo_repository put_record get_record
confirm_test = refl

confirm_succeeds_example :
    let after = (Service.confirm repo recording "app-1" "faster-payoff" true start).1 in
    (o : SelectedOffer) × (chosen : OfferOption) × (stored start.table "app-1" ≡ some o)
    × (o.status ≢ status_confirmed)
    × (find_offer o.offers "faster-payoff" ≡ ok chosen)
    × (recording.resume o.task_token true chosen start.workflow ≡ (ok tt, after.workflow))
    × (done ≡ confirmed o "faster-payoff" true)
    × ((j : String)
        → stored after.table j ≡ (if "app-1" == j then some done else stored start.table j))
unfolding Service.confirm find_offer dynamo_repository put_record get_record
confirm_succeeds_example =
    confirm_succeeds recording repo-IsRepository "app-1" "faster-payoff" true start done refl

pending_status : ◌≢◌ {A = String} "PENDING_SELECTION" "CONFIRMED"
pending_status = ground (arith, eq_iff "PENDING_SELECTION" "CONFIRMED")

confirm_resume_fails_example :
    let (answer, after) = Service.confirm repo broken "app-1" "standard" true start in
    (answer ≡ err (wrap "resuming workflow" (text "timed out")))
    × ((j : String) → stored after.table j ≡ stored start.table j)
unfolding Service.confirm find_offer dynamo_repository put_record get_record
confirm_resume_fails_example =
    confirm_resume_fails broken repo-IsRepository "app-1" "standard" true start pending
      (offer "standard") (text "timed out") refl pending_status refl refl

confirm_once_example :
    let (answer, after) = Service.confirm repo recording "app-1" "standard" true finished in
    ((e : Error) × (answer ≡ err e))
    × (after.workflow ≡ finished.workflow)
    × ((j : String) → stored after.table j ≡ stored finished.table j)
confirm_once_example =
    confirm_once recording repo-IsRepository "app-1" "standard" true finished done refl refl

abbrev two_offers : List OfferOption
two_offers = offer "standard" ∷ offer "faster-payoff" ∷ []

find_offer_missing_iff_test :
    (find_offer two_offers "other" ≡ err (sentinel offer_not_found))
    ↔ ¬ Has "other" (ids two_offers)
find_offer_missing_iff_test = find_offer_missing_iff two_offers "other"

-- One token is good, for every application.
abbrev checker : SessionValidator ℕ
checker = record { validate_session = λ token id n. (ok (token == "good"), n + 1) }

abbrev server : Server (Table SelectedOffer) Resumptions ℕ
server = record { service = finished; sessions = 0 }

abbrev select_standard : ConfirmBody
select_standard = record { selected_offer_id = "standard"; consent_given = true }

wrong_token : (checker.validate_session (bearer_token "Bearer bad") "app-1" 0).0 ≢ ok true
unfolding bearer_token
wrong_token = ground arith

confirm_needs_session_test :
    let (reply, after) =
      Handler.confirm repo recording checker "Bearer bad" "app-1" (ok select_standard) server in
    ((reply.status ≡ 401) ⊎ (reply.status ≡ 500)) × (after.service ≡ server.service)
confirm_needs_session_test =
    confirm_needs_session repo recording checker "Bearer bad" "app-1" (ok select_standard) server
      (inr wrong_token)

good_token : bearer_token "Bearer good" ≢ ""
unfolding bearer_token
good_token = ground (arith, eq_iff "good" "")

good_session : (checker.validate_session (bearer_token "Bearer good") "app-1" 0).0 ≡ ok true
unfolding bearer_token
good_session = refl

confirm_conflict_test :
    let (reply, after) =
      Handler.confirm repo recording checker "Bearer good" "app-1" (ok select_standard) server in
    (reply ≡ write_error 409 (sentinel already_confirmed))
    × (after.service.workflow ≡ server.service.workflow)
unfolding dynamo_repository get_record
confirm_conflict_test =
    confirm_conflict repo recording checker "Bearer good" "app-1" select_standard server done
      good_token good_session refl refl

abbrev applicant : WorkflowInput
applicant = record {
  application_id = "app-2";
  first_name = "Jo";
  last_name = "Smyth";
  date_of_birth = "1990-01-31";
  ssn = "123456789";
  address = record { line1 = ""; line2 = ""; city = "Austin"; state = "TX"; postal_code = "" };
  requested_amount_cents = pos 1500000;
  requested_term_months = pos 60;
  annual_income_cents = pos 9000000;
  monthly_obligations_cents = pos 100000;
  request_id = "request-1";
}

abbrev pull : CreditSummary
pull = record { score = pos 695; source = "SOFT_PULL" }

abbrev standard : OfferOption
standard = build_option "standard" "Requested Terms" applicant (pos 60) (apr_for_score (pos 695))

standard-Among : Among standard (price_options applicant pull)
unfolding price_options ◌+ℤ◌ ◌-ℤ◌ wrap64
standard-Among = inl refl

find-price_options_test : find_offer (price_options applicant pull) standard.id ≡ ok standard
find-price_options_test = find-price_options applicant pull standard standard-Among
