-- ===== src/OfferSelection/Access.antt =====
-- Who may confirm, and how failures are reported.
use psr_pl.Base.{String, true, ◌≡◌, ◌≢◌, ◌⊎◌, inl, inr, arith, eq_iff}
use psr_pl.Go.{Result, ok, sentinel, already_confirmed}
use psr_pl.Http.{write_error, bearer_token}
use psr_pl.OfferSelection.Model.{SelectedOffer, status_confirmed}
use psr_pl.OfferSelection.Repository.{Repository}
use psr_pl.OfferSelection.Service
use psr_pl.OfferSelection.Service.{WorkflowResumer}
use psr_pl.OfferSelection.Sessions.{SessionValidator}
use psr_pl.OfferSelection.Handler
use psr_pl.OfferSelection.Handler.{Server, ConfirmBody, authenticated}

module _ {D W N : Type 0} (repo : Repository D) (workflow : WorkflowResumer W)
    (sessions : SessionValidator N) where
  -- Without a bearer token that the session check accepts for this very application, a request to
  -- confirm is answered with 401 or 500, and neither the table nor the workflow is touched.
  pub confirm_needs_session :
      (auth id : String) (body : Result ConfirmBody) (h : Server D W N)
      → (bearer_token auth ≡ "")
        ⊎ ((sessions.validate_session (bearer_token auth) id h.sessions).0 ≢ ok true)
      → let (reply, after) = Handler.confirm repo workflow sessions auth id body h in
        ((reply.status ≡ 401) ⊎ (reply.status ≡ 500)) × (after.service ≡ h.service)
  unfolding Handler.confirm authenticated
  confirm_needs_session auth id body h (inl e) = ground (arith, eq_iff (bearer_token auth) "")
  confirm_needs_session auth id body h (inr n) = ground (arith, eq_iff (bearer_token auth) "")

  -- An admitted request to confirm what is already confirmed is answered with 409, and the workflow
  -- is not called.
  pub confirm_conflict :
      (auth id : String) (body : ConfirmBody) (h : Server D W N) (offer : SelectedOffer)
      → bearer_token auth ≢ ""
      → (sessions.validate_session (bearer_token auth) id h.sessions).0 ≡ ok true
      → (repo.get id h.service.table).0 ≡ ok offer
      → offer.status ≡ status_confirmed
      → let (reply, after) = Handler.confirm repo workflow sessions auth id (ok body) h in
        (reply ≡ write_error 409 (sentinel already_confirmed))
        × (after.service.workflow ≡ h.service.workflow)
  unfolding Handler.confirm authenticated Service.confirm
  confirm_conflict auth id body h offer token valid got done =
      ground (arith, eq_iff (bearer_token auth) "", eq_iff offer.status status_confirmed)
