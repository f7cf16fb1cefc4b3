-- ===== src/Application/Tests/Fixtures.antt =====
-- The table, an applicant, and systems that answer always, for the runs of the service.
use psr_pl.Base.{
  ◌+◌, ◌*◌, ◌^◌, String, false, List, [], ◌∷◌, Option, ◌==◌, ◌≡◌, arith, if◌then◌else◌,
}
use psr_pl.Go.{Error, Sentinel, is, Result, ok, err, text, sentinel, offer_unavailable}
use psr_pl.Go.Int64.{pos}
use psr_pl.Dynamo.{Codec, IsCodec, memory, memory-IsDynamo, Table, stored_record}
use psr_pl.Application.Model.{Address, Offer, Applicant, Application}
use psr_pl.Application.Repository.{
  Repository, IsRepository, messages, dynamo_repository, applications-IsRepository,
}
use psr_pl.Application.Sessions
use psr_pl.Application.Sessions.{SessionRecord, SessionStore, dynamo_session_store, minute}
use psr_pl.Application.Issued.{IsSessionStore, sessions-IsSessionStore}
use psr_pl.Application.OfferLog.{OfferLogAdapter, prefill_of}
use psr_pl.Application.Workflow.{WorkflowStarter}
use psr_pl.Application.Handler.{Floats}
use psr_pl.Application.Service.{State, SubmitRequest, Ambient}

pub data Item : Type 0 where
  application_item : Application → Item
  session_item : SessionRecord → Item

abbrev pub key : Item → String
key (application_item a) = a.id
key (session_item r) = r.id

abbrev to_application : Item → Result Application
to_application (application_item a) = ok a
to_application (session_item r) = err (text "not an application")

abbrev to_session : Item → Result SessionRecord
to_session (application_item a) = err (text "not a session")
to_session (session_item r) = ok r

abbrev pub application_codec : Codec Application Item
application_codec = record {
  marshal = λ a. ok (application_item a);
  unmarshal = to_application;
  marshal_key = ok;
}

abbrev pub session_codec : Codec SessionRecord Item
session_codec = record {
  marshal = λ r. ok (session_item r);
  unmarshal = to_session;
  marshal_key = ok;
}

pub application_key : (i : Item) (a : Application) → to_application i ≡ ok a → a.id ≡ key i
application_key (application_item b) a h = ground arith
application_key (session_item r) a h = ground arith

pub application_fails :
    (i : Item) (e : Error) → to_application i ≡ err e → (s : Sentinel) → is e s ≡ false
application_fails (application_item b) e h s = ground arith
application_fails (session_item r) e h s = ground arith

pub application_codec-IsCodec : IsCodec application_codec key (λ (a : Application). a.id)
application_codec-IsCodec = record {
  key_text = ground arith;
  key_fails = λ k e h. cc;
  reads_back = ground arith;
  marshals_key = ground arith;
  unmarshals_key = application_key;
  unmarshal_fails = application_fails;
  marshal_fails = λ i e h. cc;
}

pub session_key : (i : Item) (r : SessionRecord) → to_session i ≡ ok r → r.id ≡ key i
session_key (application_item b) r h = ground arith
session_key (session_item q) r h = ground arith

pub session_fails : (i : Item) (e : Error) → to_session i ≡ err e → (s : Sentinel) → is e s ≡ false
session_fails (application_item b) e h s = ground arith
session_fails (session_item r) e h s = ground arith

pub session_codec-IsCodec : IsCodec session_codec key (λ (r : SessionRecord). r.id)
session_codec-IsCodec = record {
  key_text = ground arith;
  key_fails = λ k e h. cc;
  reads_back = ground arith;
  marshals_key = ground arith;
  unmarshals_key = session_key;
  unmarshal_fails = session_fails;
  marshal_fails = λ i e h. cc;
}

abbrev pub repo : Repository (Table Item)
unfolding dynamo_repository
repo = dynamo_repository (memory key) application_codec

abbrev pub sessions : SessionStore (Table Item)
unfolding dynamo_session_store
sessions = dynamo_session_store (memory key) session_codec

abbrev pub stored : Table Item → String → Option Application
stored = stored_record (messages "") (memory-IsDynamo key) application_codec-IsCodec

abbrev pub kept : Table Item → String → Option SessionRecord
kept = stored_record Sessions.messages (memory-IsDynamo key) session_codec-IsCodec

pub repo-IsRepository : IsRepository repo stored
unfolding dynamo_repository
repo-IsRepository = applications-IsRepository (memory-IsDynamo key) application_codec-IsCodec

pub sessions-IsStore : IsSessionStore sessions kept
unfolding dynamo_session_store
sessions-IsStore = sessions-IsSessionStore (memory-IsDynamo key) session_codec-IsCodec

abbrev pub offer : Offer
offer = record {
  intake_id = "intake-1";
  offer_id = "offer-1";
  campaign_offer_id = "campaign-1";
  term_months = pos 60;
  amount_cents = pos 1500000;
  apr_percentage = 4622888722500472013;
}

abbrev pub home : Address
home = record {
  line1 = "47 W 5th St";
  line2 = "";
  city = "Austin";
  state = "TX";
  postal_code = "78701";
}

abbrev pub applicant : Applicant
applicant = record {
  first_name = "Jo";
  last_name = "Smyth";
  address = home;
  phone = "555-0100";
  email = "jo@example.com";
  employment = record { employer_name = "Acme"; employment_status = "EMPLOYED" };
  annual_income_cents = pos 9000000;
  monthly_obligations_cents = pos 100000;
  ssn = "123456789";
  ssn_verification_token = "";
  date_of_birth = "1990-01-31";
  citizenship_status = "US_CITIZEN";
  requested_amount_cents = pos 1500000;
  requested_term_months = pos 60;
  loan_purpose = "DEBT_CONSOLIDATION";
}

abbrev pub prefill : Applicant
prefill = prefill_of "Jane" "Smith" home

-- OfferLog writes down what it is asked to mark; it grants one offer.
abbrev pub offer_log : OfferLogAdapter (List String)
offer_log = record {
  validate_offer = λ reference l. (
    if reference == "intake-1" then ok (offer, prefill) else err (sentinel offer_unavailable),
    l,
  );
  mark_used = λ intake l. (ok tt, intake ∷ l);
  revert_active = λ intake l. (ok tt, l);
}

-- The workflow writes down the ids of the applications that it was started for.
abbrev pub starter : WorkflowStarter (List String)
starter = record { start = λ input w. (ok "arn:1", input.application_id ∷ w) }

abbrev pub broken : WorkflowStarter (List String)
broken = record { start = λ input w. (err (text "throttled"), w) }

abbrev pub invited : String → SubmitRequest
invited intake_id = record {
  entry_path = "INVITATION";
  intake_id = intake_id;
  partner_id = "";
  applicant = applicant;
}

abbrev pub ambient : Ambient
ambient = record { now = 1700000000 * 10 ^ 9; uuid = "app-1"; request_id = "request-1" }

abbrev pub start : State (Table Item) (List String) (List String)
start = record { table = []; offers = []; workflow = [] }

-- Whole numbers in place of `float64`.
abbrev pub whole : Floats
whole = record {
  times = λ a b. a * b;
  plus = λ a b. a + b;
  divided = λ a b. a;
  to_int64 = pos;
  of_int64 = λ n. 0;
  hundred = 100;
  half = 0;
}
