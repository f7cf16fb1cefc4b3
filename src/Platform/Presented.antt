-- ===== src/Platform/Presented.antt =====
-- How the workflow's offers reach the applicant: present-offer-lambda on a network where
-- pricing-orchestration-service answers.
use Prim.Native.String
use psr_pl.Base.{String, [], ◌∷◌, false, ◌≡◌, ◌≢◌, inl, inr, refl, arith, eq_iff}
use psr_pl.Go.{Result, ok, err, Result-cases, status_code}
use psr_pl.Http.{Payload, presented, HttpClient}
use psr_pl.Web.{
  route, split_slash, match_path, find_route, dispatch, found, join_slash, respond, serve_outcome,
  with_request_id, with_cors, Environment,
}
use psr_pl.OfferSelection.Model.{SelectedOffer}
use psr_pl.OfferSelection.Repository.{Repository}
use psr_pl.OfferSelection.Service
use psr_pl.OfferSelection.Service.{WorkflowResumer}
use psr_pl.OfferSelection.Handler
use psr_pl.OfferSelection.Handler.{Server}
use psr_pl.OfferSelection.Server.{Decoders, Encoders, routes, present, server, multiplexer}
use psr_pl.Workflow.Effects
use psr_pl.Workflow.Effects.{PresentInput, present_offer}
use psr_pl.Platform.Network.{http_client, deliver-append, IsPathId}
use psr_pl.Platform.Dispatch.{
  Unescapes, dispatch_path, applications_path, internal-IsPathId, applications-IsPathId,
}

selected-IsPathId : IsPathId "selected-offer"
selected-IsPathId = record { plain = (omega arith, cc, cc, cc); verbatim = omega arith }

present_path :
    (id : String)
    → String.◌++◌ "/internal/applications/" (String.◌++◌ id "/selected-offer")
      ≡ join_slash ("internal" ∷ "applications" ∷ id ∷ "selected-offer" ∷ [])
unfolding join_slash
present_path id = applications_path id "/selected-offer"

dispatch_present :
    (unescape : String → String)
    → Unescapes unescape
    → (id : String) → IsPathId id
    → dispatch unescape routes "POST"
        (String.◌++◌ "/internal/applications/" (String.◌++◌ id "/selected-offer"))
      ≡ found present (id ∷ [])
unfolding find_route routes route split_slash match_path
dispatch_present unescape unescapes id p =
    rw
      (
        present_path id,
        dispatch_path unescape unescapes routes "POST" "internal"
            ("applications" ∷ id ∷ "selected-offer" ∷ [])
            (internal-IsPathId, (applications-IsPathId, (p, (selected-IsPathId, tt)))),
      )
      (ground (arith, eq_iff id "", p.plain))

-- What the Lambda encodes of an input, the handler decodes.
pub record IsOfferJson (encode : Payload → Result String) (decode : Decoders) (input : PresentInput)
    : Type 0 where
  pub body : String
  pub encoded :
      encode (presented input.application_id input.task_token input.priced_offers) ≡ ok body
  pub decoded :
      decode.present body
      ≡ ok (record {
        application_id = input.application_id;
        task_token = input.task_token;
        offers = input.priced_offers;
      })

-- The offer that is presented for an input of the Lambda.
abbrev pub offer_of : PresentInput → SelectedOffer
offer_of input = record {
  application_id = input.application_id;
  offers = input.priced_offers;
  selected_offer_id = "";
  status = "";
  consent_given = false;
  task_token = input.task_token;
}

module _ {D W N : Type 0} (repo : Repository D) (workflow : WorkflowResumer W) (http : HttpClient N)
    (application_url : String) (decode : Decoders) (encode : Encoders) (unescape : String → String)
    (env : Environment) (base_url : String) (payloads : Payload → Result String) where
  -- What the Lambda is told: the application's id, or the status code of the failure.
  abbrev pub answered : String → Result (Unit {0}) → Result String
  answered id (ok u) = ok id
  answered id (err e) = err (status_code "pricing-orchestration-service rejected present-offer" 500)

  abbrev pub offer_network : String → HttpClient (Server D W N)
  offer_network fresh =
      http_client base_url
        (server repo workflow http application_url decode encode unescape env fresh) payloads

  -- On the platform, present-offer-lambda is a `Present` of pricing-orchestration-service with the
  -- offers and the task token of its input: it leaves the same state, and succeeds just if that one
  -- does.
  pub present_offer-present :
      Unescapes unescape
      → base_url ≢ ""
      → (fresh : String) (input : PresentInput) (h : Server D W N)
      → IsOfferJson payloads decode input
      → IsPathId input.application_id
      → present_offer (offer_network fresh) base_url input h ≡ (
        answered input.application_id (Service.present repo workflow (offer_of input) h.service).0,
        record h { service = (Service.present repo workflow (offer_of input) h.service).1 },
      )
  unfolding present_offer http_client server multiplexer with_request_id with_cors serve_outcome
      respond Handler.present
  present_offer-present unescapes set fresh input h json p =
      let path =
        String.◌++◌ "/internal/applications/"
          (String.◌++◌ input.application_id "/selected-offer") in
      let r = Effects.present_request (offer_network fresh) base_url input json.body in
      let delivered =
        deliver-append base_url path
          (server repo workflow http application_url decode encode unescape env fresh) r h refl in
      let there = dispatch_present unescape unescapes input.application_id p in
      elim (Result-cases (Service.present repo workflow (offer_of input) h.service).0) [
        | inl (u, done) ↦ ground (arith, eq_iff base_url "", json.encoded, json.decoded)
        | inr (e, failed) ↦ ground (arith, eq_iff base_url "", json.encoded, json.decoded)
      ]
