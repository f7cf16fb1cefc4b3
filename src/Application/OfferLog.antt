-- ===== src/Application/OfferLog.antt =====
-- application-management-service/internal/application/offerclient.go. `decode` is the JSON decoder's
-- answer for a response body.
use Prim.Native.String.{◌++◌ as concat}
use psr_pl.Base.{String, not, ◌||◌, [], ◌∷◌, ◌==◌, nat_eq, if◌then◌else◌}
use psr_pl.Go.{
  Result, Exec, pure, raise, lift, wrapping, ◌>>=◌, ◌>>◌, sentinel, offer_unavailable, status_code,
}
use psr_pl.Go.Int64.{ℤ, pos}
use psr_pl.Http.{Request, HttpResponse, HttpClient, fields, json_headers}
use psr_pl.Application.Model.{Float64, Address, Offer, Applicant}

-- The Go interfaces `OfferValidator` and `OfferStatusUpdater`.
pub record OfferLogAdapter (L : Type 0) : Type 0 where
  pub validate_offer : String → Exec L (Offer × Applicant)
  pub mark_used : String → Exec L (Unit {0})
  pub revert_active : String → Exec L (Unit {0})

pub record ValidateInvitationResponse : Type 0 where
  pub intake_id : String
  pub offer_id : String
  pub campaign_offer_id : String
  pub term_months : ℤ
  pub amount_cents : ℤ
  pub apr_percentage : Float64
  pub first_name : String
  pub last_name : String
  pub address : Address
  pub status : String

abbrev pub snapshot_of : ValidateInvitationResponse → Offer
snapshot_of body = record {
  intake_id = body.intake_id;
  offer_id = body.offer_id;
  campaign_offer_id = body.campaign_offer_id;
  term_months = body.term_months;
  amount_cents = body.amount_cents;
  apr_percentage = body.apr_percentage;
}

-- `Applicant{FirstName: …, LastName: …, Address: …}`: every other field is zero.
abbrev pub prefill_of : String → String → Address → Applicant
prefill_of first_name last_name address = record {
  first_name = first_name;
  last_name = last_name;
  address = address;
  phone = "";
  email = "";
  employment = record { employer_name = ""; employment_status = "" };
  annual_income_cents = pos 0;
  monthly_obligations_cents = pos 0;
  ssn = "";
  ssn_verification_token = "";
  date_of_birth = "";
  citizenship_status = "";
  requested_amount_cents = pos 0;
  requested_term_months = pos 0;
  loan_purpose = "";
}

abbrev pub validate_url : String → String
validate_url base_url = concat base_url "/invitations/validate"

abbrev offer_status_url : String → String → String
offer_status_url base_url intake_id =
    concat base_url (concat "/invitations/" (concat intake_id "/status"))

module _ {N : Type 0} (http : HttpClient N) (decode : String → Result ValidateInvitationResponse)
    (base_url request_id : String) where
  abbrev pub validate_request : String → Request
  validate_request body = record {
    method = "POST";
    url = validate_url base_url;
    headers = json_headers request_id;
    payload = body;
  }

  abbrev pub offer_status_request : String → String → Request
  offer_status_request intake_id body = record {
    method = "PUT";
    url = offer_status_url base_url intake_id;
    headers = json_headers request_id;
    payload = body;
  }

  abbrev check_active : ValidateInvitationResponse → Exec N (Offer × Applicant)
  check_active body =
      if not (body.status == "ACTIVE")
      then raise (sentinel offer_unavailable)
      else pure (snapshot_of body, prefill_of body.first_name body.last_name body.address)

  abbrev validation_answer : HttpResponse → Exec N (Offer × Applicant)
  validation_answer resp =
      if nat_eq resp.status 404 || nat_eq resp.status 409
      then raise (sentinel offer_unavailable)
      else if not (nat_eq resp.status 200)
      then raise (status_code "OfferLog returned status" resp.status)
      else wrapping "decoding offer validation response" (lift (decode resp.payload))
        >>= check_active

  unfoldable pub validate_offer : String → Exec N (Offer × Applicant)
  validate_offer reference = do
    payload ←
        wrapping "encoding offer validation request"
          (lift (http.encode (fields (("token", reference) ∷ []))))
    wrapping "building offer validation request"
        (lift (http.new_request "POST" (validate_url base_url)))
    resp ← wrapping "calling OfferLog" (http.send (validate_request payload))
    validation_answer resp

  abbrev check_updated : HttpResponse → Exec N (Unit {0})
  check_updated resp =
      if nat_eq resp.status 200
      then pure tt
      else raise (status_code "OfferLog rejected status update" resp.status)

  unfoldable pub update_status : String → String → Exec N (Unit {0})
  update_status intake_id status = do
    payload ←
        wrapping "encoding offer status request"
          (lift (http.encode (fields (("status", status) ∷ []))))
    wrapping "building offer status request"
        (lift (http.new_request "PUT" (offer_status_url base_url intake_id)))
    resp ← wrapping "calling OfferLog" (http.send (offer_status_request intake_id payload))
    check_updated resp

  unfoldable pub offer_log_client : OfferLogAdapter N
  offer_log_client = record {
    validate_offer = validate_offer;
    mark_used = λ intake_id. update_status intake_id "USED";
    revert_active = λ intake_id. update_status intake_id "ACTIVE";
  }
