-- ===== src/Platform/Invitations.antt =====
-- The OfferLog client of application-management-service on a network where offerlog-mock answers.
use Prim.Native.String
use psr_pl.Base.{
  ℕ, String, Bool, true, false, some, [], ◌∷◌, ◌≡◌, refl, arith, eq_iff, inl, inr, Bool-cases,
  if◌then◌else◌, ◌==◌,
}
use psr_pl.Go.{Result, ok, err, sentinel, offer_unavailable, status_code}
use psr_pl.Go.Int64.{pos}
use psr_pl.Http.{Payload, HttpClient, fields}
use psr_pl.Web.{respond, serve_outcome}
use psr_pl.Application.Model as Model
use psr_pl.Application.OfferLog as Client
use psr_pl.Application.OfferLog.{
  OfferLogAdapter, ValidateInvitationResponse, snapshot_of, prefill_of, offer_log_client,
}
use psr_pl.OfferLogMock.Store.{Offer, Store, look, cell, resolve, set_status}
use psr_pl.OfferLogMock.Store as Mock
use psr_pl.OfferLogMock.Paired.{Reached, put, set_status_seen, look-set_status}
use psr_pl.OfferLogMock.Server.{Decoders, Encoders, Outside, server}
use psr_pl.Platform.Network.{http_client, deliver-append, IsPathId}
use psr_pl.Platform.Dispatch.{Unescapes}
use psr_pl.Platform.InvitationPaths.{dispatch-put_status, dispatch-validate}

-- The JSON names of the two sides agree; the mock has no second address line.
abbrev pub response_of : Offer → ValidateInvitationResponse
response_of o = record {
  intake_id = o.intake_id;
  offer_id = o.offer_id;
  campaign_offer_id = o.campaign_offer_id;
  term_months = o.term_months;
  amount_cents = o.amount_cents;
  apr_percentage = o.apr_percentage;
  first_name = o.first_name;
  last_name = o.last_name;
  address = record {
    line1 = o.address.line1;
    line2 = "";
    city = o.address.city;
    state = o.address.state;
    postal_code = o.address.postcode;
  };
  status = o.status;
}

-- What the client gets for an offer that is granted: its terms, and an applicant with its name and
-- address, and with zero in every other field.
abbrev pub granted : Offer → Model.Offer × Model.Applicant
granted o = (
  record {
    intake_id = o.intake_id;
    offer_id = o.offer_id;
    campaign_offer_id = o.campaign_offer_id;
    term_months = o.term_months;
    amount_cents = o.amount_cents;
    apr_percentage = o.apr_percentage;
  },
  record {
    first_name = o.first_name;
    last_name = o.last_name;
    address = record {
      line1 = o.address.line1;
      line2 = "";
      city = o.address.city;
      state = o.address.state;
      postal_code = o.address.postcode;
    };
    phone = "";
    email = "";
    employment = record { employer_name = ""; employment_status = "" };
    annual_income_cents = pos 0;
    monthly_obligations_cents = pos 0;
    ssn = "";
    ssn_verification_token = "";
    date_of_birth = "";
    citizenship_status = "";
    requested_amount_cents = pos 0;
    requested_term_months = pos 0;
    loan_purpose = "";
  },
)

-- What one side encodes as JSON, the other side decodes: requests, and this offer with any status.
pub record IsInvitationJson (encode : Payload → Result String) (decode : Decoders)
    (write : Encoders) (read : String → Result ValidateInvitationResponse) (o : Offer)
    : Type 0 where
  pub token :
      (token : String)
      → (body : String) × (encode (fields (("token", token) ∷ [])) ≡ ok body)
        × (decode.token body ≡ ok token)
  pub status :
      (status : String)
      → (body : String) × (encode (fields (("status", status) ∷ [])) ≡ ok body)
        × (decode.status body ≡ ok status)
  pub offer :
      (status : String)
      → read (write.offer (record o { status = status }))
        ≡ ok (response_of (record o { status = status }))

-- What the client is told of a status update.
abbrev pub told : Bool × Store → Result (Unit {0}) × Store
told (true, s) = (ok tt, s)
told (false, s) = (err (status_code "OfferLog rejected status update" 404), s)

module _ (decode : Decoders) (write : Encoders) (unescape : String → String)
    (read : String → Result ValidateInvitationResponse) (base_url request_id : String)
    (payloads : Payload → Result String) where
  abbrev pub offer_network : Outside → HttpClient Store
  offer_network o = http_client base_url (server decode write unescape o) payloads

  -- The client that application-management-service has there.
  abbrev pub offer_client : Outside → OfferLogAdapter Store
  offer_client o = offer_log_client (offer_network o) read base_url request_id

  -- A status update of the client is a `setStatus` of the mock.
  pub update_status-set_status :
      Unescapes unescape
      → (offer : Offer) → IsInvitationJson payloads decode write read offer
      → (o : Outside) (id status : String) (s : Store) → IsPathId id
      → Client.update_status (offer_network o) read base_url request_id id status s
        ≡ told (set_status id status s)
  unfolding Client.update_status http_client server serve_outcome respond Mock.put_status
  update_status-set_status unescapes offer json o id status s p =
      let (body, encoded, decoded) = json.status status in
      let request =
        Client.offer_status_request (offer_network o) read base_url request_id id body in
      let path = String.◌++◌ "/invitations/" (String.◌++◌ id "/status") in
      let delivered =
        deliver-append base_url path (server decode write unescape o) request s refl in
      let there = dispatch-put_status unescape unescapes id p in
      elim (Bool-cases (set_status id status s).0) [
        | inl done ↦ ground arith
        | inr unknown ↦ ground arith
      ]

  -- A validation of an offer that the mock has: granted just if it is active.
  validate_offer-resolve :
      Unescapes unescape
      → (offer : Offer) → IsInvitationJson payloads decode write read offer
      → (o : Outside) (token status : String) (a : ℕ) (s : Store)
      → resolve token (o.intake_hex, o.offer_hex) s ≡ (some a, s)
      → cell s.heap a ≡ some (record offer { status = status })
      → Client.validate_offer (offer_network o) read base_url request_id token s
        ≡ (if status == "ACTIVE" then ok (granted offer) else err (sentinel offer_unavailable), s)
  unfolding Client.validate_offer http_client server serve_outcome respond Mock.validate
  validate_offer-resolve unescapes offer json o token status a s known held =
      let (body, encoded, decoded) = json.token token in
      let request = Client.validate_request (offer_network o) read base_url request_id body in
      let delivered =
        deliver-append base_url "/invitations/validate" (server decode write unescape o) request s
          refl in
      let there = dispatch-validate unescape unescapes in
      let read_back = json.offer status in
      elim (Bool-cases (status == "ACTIVE")) [ inl active ↦ ground arith | inr used ↦ ground arith ]

  -- Once an offer is used, every key that leads to it is refused.
  pub used_refused :
      Unescapes unescape
      → (offer : Offer) → IsInvitationJson payloads decode write read offer
      → (o : Outside) (key : String) (a : ℕ) (s : Store) → Reached s
      → look s.by_key key ≡ some a
      → cell s.heap a ≡ some offer
      → let used = (set_status offer.intake_id "USED" s).1 in
        Client.validate_offer (offer_network o) read base_url request_id key used
        ≡ (err (sentinel offer_unavailable), used)
  used_refused unescapes offer json o key a s reached known held =
      let (marked, seen, held_used) =
        set_status_seen key "USED" (o.intake_hex, o.offer_hex) s a offer reached known held in
      validate_offer-resolve unescapes offer json o key "USED" a
        (set_status offer.intake_id "USED" s).1 seen held_used

  -- A validation by a key that leads to an offer.
  pub validate_offer-known :
      Unescapes unescape
      → (offer : Offer) → IsInvitationJson payloads decode write read offer
      → (o : Outside) (key : String) (a : ℕ) (s : Store) → look s.by_key key ≡ some a
      → cell s.heap a ≡ some offer
      → Client.validate_offer (offer_network o) read base_url request_id key s ≡ (
        if offer.status == "ACTIVE" then ok (granted offer) else err (sentinel offer_unavailable),
        s,
      )
  unfolding resolve
  validate_offer-known unescapes offer json o key a s known held =
      validate_offer-resolve unescapes offer json o key offer.status a s (rw known refl) held

  -- An invitation is good for one use: in a store that requests lead to, an active offer that a key
  -- leads to is granted with the terms and the name that are stored; once it is marked as used, the
  -- key is refused as unavailable; and once it is made active again, the same is granted again.
  pub mark_used_spends :
      Unescapes unescape
      → (offer : Offer) → IsInvitationJson payloads decode write read offer
      → (o : Outside) (key : String) (a : ℕ) (s : Store) → Reached s
      → look s.by_key key ≡ some a
      → cell s.heap a ≡ some offer
      → offer.status ≡ "ACTIVE"
      → IsPathId offer.intake_id
      → let client = offer_client o in
        let (marking, used) = client.mark_used offer.intake_id s in
        let (reverting, again) = client.revert_active offer.intake_id used in
        (client.validate_offer key s ≡ (ok (granted offer), s))
        × (marking ≡ ok tt)
        × (client.validate_offer key used ≡ (err (sentinel offer_unavailable), used))
        × (reverting ≡ ok tt)
        × (client.validate_offer key again ≡ (ok (granted offer), again))
  unfolding offer_log_client
  mark_used_spends unescapes offer json o key a s reached known held active p =
      let id = offer.intake_id in
      let used = (set_status id "USED" s).1 in
      let (marked, seen_used, held_used) =
        set_status_seen key "USED" (o.intake_hex, o.offer_hex) s a offer reached known held in
      let known_used = look-set_status id "USED" key s in
      let (reverted, seen_again, held_again) =
        set_status_seen key "ACTIVE" (o.intake_hex, o.offer_hex) used a
          (record offer { status = "USED" }) (put id "USED" s reached) (ground arith) held_used in
      ground (
        arith,
        update_status-set_status unescapes offer json o id "USED" s p,
        update_status-set_status unescapes offer json o id "ACTIVE" used p,
        validate_offer-known unescapes offer json o key a s known held,
        used_refused unescapes offer json o key a s reached known held,
        validate_offer-resolve unescapes offer json o key "ACTIVE" a (set_status id "ACTIVE" used).1
            seen_again held_again,
        eq_iff offer.status "ACTIVE",
      )
