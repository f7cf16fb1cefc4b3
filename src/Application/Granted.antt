-- ===== src/Application/Granted.antt =====
-- When OfferLog's answer grants an offer.
use psr_pl.Base.{String, ◌≡◌, inl, inr, arith, [], ◌∷◌, eq_iff}
use psr_pl.Go.{Result, ok, Result-cases}
use psr_pl.Http.{HttpResponse, HttpClient, fields}
use psr_pl.Application.Model.{Offer, Applicant}
use psr_pl.Application.OfferLog.{
  ValidateInvitationResponse, snapshot_of, prefill_of, validate_offer, validate_request,
}

module _ {N : Type 0} (http : HttpClient N) (decode : String → Result ValidateInvitationResponse)
    (base_url request_id : String) where
  -- An offer is granted only on a response with status 200 whose body says ACTIVE; the snapshot and
  -- the prefill are what this body says.
  pub validate_offer_granted :
      (reference : String) (n : N) (offer : Offer) (prefill : Applicant)
      → (validate_offer http decode base_url request_id reference n).0 ≡ ok (offer, prefill)
      → (payload : String) × (resp : HttpResponse) × (body : ValidateInvitationResponse)
        × ((http.send (validate_request http decode base_url request_id payload) n).0 ≡ ok resp)
        × (resp.status ≡ 200)
        × (decode resp.payload ≡ ok body)
        × (body.status ≡ "ACTIVE")
        × (offer ≡ snapshot_of body)
        × (prefill ≡ prefill_of body.first_name body.last_name body.address)
  unfolding validate_offer
  validate_offer_granted reference n offer prefill h =
      elim (Result-cases (http.encode (fields (("token", reference) ∷ [])))) [
        | inl (payload, encoded) ↦
            elim (Result-cases
              (http.send (validate_request http decode base_url request_id payload) n).0) [
                | inl (resp, sent) ↦ elim (Result-cases (decode resp.payload)) [
                  | inl (body, decoded) ↦ (
                    payload,
                    resp,
                    body,
                    sent,
                    ground arith,
                    decoded,
                    ground (arith, eq_iff body.status "ACTIVE"),
                    ground arith,
                    ground arith,
                  )
                  | inr (e, failed) ↦ absurd (ground arith)
                ]
                | inr (e, failed) ↦ absurd (ground arith)
              ]
        | inr (e, failed) ↦ absurd (ground arith)
      ]
