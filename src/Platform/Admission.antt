-- ===== src/Platform/Admission.antt =====
-- Who is let in on the platform: the session check of pricing-orchestration-service and the reports of
-- workflow-status-service, on a network where application-management-service answers.
use psr_pl.Base.{ℕ, ◌<◌, String, true, false, Option, some, ◌≡◌, inl, inr, arith, sym, ◌∙◌}
use psr_pl.Go.{Result, ok, Result-cases}
use psr_pl.Http.{Payload, bearer_token}
use psr_pl.Web.{Environment}
use psr_pl.Application.Model.{Application}
use psr_pl.Application.Repository.{Repository, IsRepository}
use psr_pl.Application.Sessions.{SessionStore, SessionRecord, unix}
use psr_pl.Application.Workflow.{WorkflowStarter}
use psr_pl.Application.OfferLog.{OfferLogAdapter}
use psr_pl.Application.Service
use psr_pl.Application.Service.{State}
use psr_pl.Application.Issued.{issued, IsSessionStore}
use psr_pl.Application.Login.{authenticate_succeeds}
use psr_pl.Application.Handler.{Floats}
use psr_pl.Application.Server.{Decoders, Encoders, Outside}
use psr_pl.OfferSelection.Repository as OfferRepository
use psr_pl.OfferSelection.Service.{WorkflowResumer}
use psr_pl.OfferSelection.Sessions.{SessionValidator, session_validator}
use psr_pl.OfferSelection.Handler as OfferHandler
use psr_pl.OfferSelection.Handler.{Server, ConfirmBody}
use psr_pl.OfferSelection.Access.{confirm_needs_session}
use psr_pl.Status.Client
use psr_pl.Platform.Dispatch.{Unescapes}
use psr_pl.Platform.Calls.{IsJson, network}
use psr_pl.Platform.Lookups.{
  ReadsBack, verdict, validate_session-authenticate, session_validator-client,
}

-- A session for the application was issued for the token, and has not expired.
abbrev pub Holds :
    {D : Type 0} → (D → String → Option SessionRecord) → ℕ → String → String → D → Type 0
Holds kept now token id t =
    (r : SessionRecord) × (issued kept t token ≡ some r)
    × (r.application_id ≡ id)
    × (unix now < r.expires_at)

module _ {D L W : Type 0} {repo : Repository D} {sessions : SessionStore D}
    (offers : OfferLogAdapter L) (workflow : WorkflowStarter W) (floats : Floats)
    (decode : Decoders) (encode : Encoders) (unescape : String → String) (env : Environment)
    (base_url : String) (payloads : Payload → Result String) (read : Client.Decoders)
    {stored : D → String → Option Application} {kept : D → String → Option SessionRecord}
    (law : IsRepository repo stored) (store : IsSessionStore sessions kept)
    (unescapes : Unescapes unescape) (json : IsJson payloads decode)
    (reads : ReadsBack encode read) where
  -- pricing-orchestration-service's session check on the platform.
  abbrev pub validator : Outside → String → SessionValidator (State D L W)
  validator o req_id =
      session_validator
        (network repo offers sessions workflow floats decode encode unescape env base_url payloads
          o)
        read.valid base_url req_id

  pub validator_admits :
      (o : Outside) (req_id token id : String) (s : State D L W)
      → ((validator o req_id).validate_session token id s).0 ≡ ok true
      → Holds kept o.now token id s.table
  validator_admits o req_id token id s h =
      let answer = Service.authenticate repo offers sessions workflow o.now token id s in
      let same : verdict answer ≡ (validator o req_id).validate_session token id s = sym (
        session_validator-client repo offers sessions workflow floats decode encode unescape env
          base_url payloads read o req_id token id s
        ∙ validate_session-authenticate repo offers sessions workflow floats decode encode unescape
            env base_url payloads read unescapes json reads o req_id token id s) in
      elim (Result-cases answer.0) [
        | inl (tt, done) ↦ authenticate_succeeds offers workflow law store o.now token id s done
        | inr (e, failed) ↦ absurd (ground arith)
      ]

  -- On the platform, an offer is confirmed with 200 only for the bearer of a token that
  -- application-management-service issued for this very application and that has not expired.
  pub confirm_admits :
      {T V : Type 0} (selected : OfferRepository.Repository T) (resumer : WorkflowResumer V)
      (o : Outside) (req_id auth id : String) (body : Result ConfirmBody)
      (h : Server T V (State D L W))
      → (OfferHandler.confirm selected resumer (validator o req_id) auth id body h).0.status ≡ 200
      → Holds kept o.now (bearer_token auth) id h.sessions.table
  confirm_admits selected resumer o req_id auth id body h done =
      let token = bearer_token auth in
      elim (Result-cases ((validator o req_id).validate_session token id h.sessions).0) [
        | inl (true, valid) ↦ validator_admits o req_id token id h.sessions valid
        | inl (false, refused) ↦ absurd (
            ground (
              arith,
              confirm_needs_session selected resumer (validator o req_id) auth id body h (
                  inr
                    (λ (e : ((validator o req_id).validate_session token id h.sessions).0
                        ≡ ok true).
                      cc)),
            ))
        | inr (e, failed) ↦ absurd (
            ground (
              arith,
              confirm_needs_session selected resumer (validator o req_id) auth id body h (
                  inr
                    (λ (e : ((validator o req_id).validate_session token id h.sessions).0
                        ≡ ok true).
                      cc)),
            ))
      ]
