-- ===== src/OfferSelection/Handler.antt =====
-- pricing-orchestration-service/internal/offerselection/handler.go. A request is its path id, its
-- Authorization header and the JSON decoder's answer for its body.
use psr_pl.Base.{String, Bool, true, false, List, ◌==◌, if◌then◌else◌}
use psr_pl.Go.{
  is, Result, ok, err, text, selected_offer_not_found, already_confirmed, offer_not_found,
}
use psr_pl.Http.{Reply, write_json, write_error, bearer_token}
use psr_pl.Pricing.Model.{OfferOption}
use psr_pl.OfferSelection.Model.{SelectedOffer}
use psr_pl.OfferSelection.Repository.{Repository}
use psr_pl.OfferSelection.Service
use psr_pl.OfferSelection.Service.{State, WorkflowResumer}
use psr_pl.OfferSelection.Sessions.{SessionValidator}

pub record Server (D W N : Type 0) : Type 0 where
  pub service : State D W
  pub sessions : N

pub record PresentBody : Type 0 where
  pub application_id : String
  pub task_token : String
  pub offers : List OfferOption

pub record ConfirmBody : Type 0 where
  pub selected_offer_id : String
  pub consent_given : Bool

abbrev get_reply : Result SelectedOffer → Reply SelectedOffer
get_reply (ok offer) = write_json 200 offer
get_reply (err e) = if is e selected_offer_not_found then write_error 404 e else write_error 500 e

abbrev pub confirm_reply : Result SelectedOffer → Reply SelectedOffer
confirm_reply (ok offer) = write_json 200 offer
confirm_reply (err e) =
    if is e selected_offer_not_found
    then write_error 404 e
    else if is e already_confirmed
    then write_error 409 e
    else if is e offer_not_found
    then write_error 400 e
    else write_error 500 e

-- What `authenticated` answers once the token was checked: to go on, or the reply.
pub data Admission (A : Type 0) : Type 0 where
  admitted : Admission A
  refused : Reply A → Admission A

abbrev admission : {A : Type 0} → Result Bool → Admission A
admission (ok true) = admitted
admission (ok false) = refused (write_error 401 (text "invalid session"))
admission (err e) = refused (write_error 500 e)

module _ {D W N : Type 0} (repo : Repository D) (workflow : WorkflowResumer W)
    (sessions : SessionValidator N) where
  unfoldable pub authenticated : {A : Type 0} → String → String → N → Admission A × N
  authenticated auth id n =
      let token = bearer_token auth in
      if token == ""
      then (refused (write_error 401 (text "missing session token")), n)
      else let (valid, n') = sessions.validate_session token id n in (admission valid, n')

  abbrev on_service : {A : Type 0} → (State D W → A × State D W) → Server D W N → A × Server D W N
  on_service f h = let (a, s) = f h.service in (a, record h { service = s })

  abbrev serve_get :
      Admission SelectedOffer → String → Server D W N → Reply SelectedOffer × Server D W N
  serve_get (refused reply) id h = (reply, h)
  serve_get admitted id h =
      on_service (λ s. let (r, t) = Service.get repo workflow id s in (get_reply r, t)) h

  unfoldable pub get : String → String → Server D W N → Reply SelectedOffer × Server D W N
  get auth id h =
      let (answer, n) = authenticated auth id h.sessions in
      serve_get answer id (record h { sessions = n })

  abbrev present_reply : String → Result (Unit {0}) → Reply String
  present_reply id (ok _) = write_json 201 id
  present_reply id (err e) = write_error 500 e

  unfoldable pub present : Result PresentBody → Server D W N → Reply String × Server D W N
  present (err e) h = (write_error 400 e, h)
  present (ok body) h =
      let offer : SelectedOffer = record {
        application_id = body.application_id;
        offers = body.offers;
        selected_offer_id = "";
        status = "";
        consent_given = false;
        task_token = body.task_token;
      } in
      on_service
        (λ s.
          let (r, t) = Service.present repo workflow offer s in
          (present_reply body.application_id r, t))
        h

  abbrev serve_confirm :
      Admission SelectedOffer
      → String
      → Result ConfirmBody
      → Server D W N
      → Reply SelectedOffer × Server D W N
  serve_confirm (refused reply) id body h = (reply, h)
  serve_confirm admitted id (err e) h = (write_error 400 e, h)
  serve_confirm admitted id (ok body) h =
      on_service
        (λ s.
          let (r, t) =
            Service.confirm repo workflow id body.selected_offer_id body.consent_given s in
          (confirm_reply r, t))
        h

  unfoldable pub confirm :
      String → String → Result ConfirmBody → Server D W N → Reply SelectedOffer × Server D W N
  confirm auth id body h =
      let (answer, n) = authenticated auth id h.sessions in
      serve_confirm answer id body (record h { sessions = n })
