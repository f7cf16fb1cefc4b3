-- ===== src/Platform/Raced.antt =====
-- Two submissions of one invitation that interleave, on a network where offerlog-mock answers.
use psr_pl.Base.{ℕ, String, some, ◌≡◌, ◌≢◌, arith, eq_iff}
use psr_pl.Go.{Result, ok}
use psr_pl.Http.{Payload}
use psr_pl.Application.Model.{Application, entry_path_invitation}
use psr_pl.Application.Repository.{Repository}
use psr_pl.Application.Sessions.{SessionStore}
use psr_pl.Application.Workflow.{WorkflowStarter}
use psr_pl.Application.OfferLog.{ValidateInvitationResponse, offer_log_client}
use psr_pl.Application.Service.{State, SubmitRequest, Ambient}
use psr_pl.Application.Interleaved.{submit_two, submit_two_offers}
use psr_pl.OfferLogMock.Store.{Offer, Store, look, cell}
use psr_pl.OfferLogMock.Server.{Decoders, Encoders, Outside}
use psr_pl.Platform.Dispatch.{Unescapes}
use psr_pl.Platform.Invitations.{granted, IsInvitationJson, offer_client, validate_offer-known}

module _ {D W : Type 0} (repo : Repository D) (sessions : SessionStore D)
    (workflow : WorkflowStarter W) (decode : Decoders) (write : Encoders)
    (unescape : String → String) (read : String → Result ValidateInvitationResponse)
    (base_url request_id : String) (payloads : Payload → Result String) where
  abbrev pub submit_two_there :
      Outside
      → Ambient
      → Ambient
      → SubmitRequest
      → SubmitRequest
      → State D Store W
      → Result (Application × Application) × State D Store W
  submit_two_there o now later req next s =
      submit_two repo (offer_client decode write unescape read base_url request_id payloads o)
        sessions workflow now later req next s

  -- An invitation can serve two applications: if two submissions on the invitation path, with keys
  -- of one active offer, both ask OfferLog before either of them persists, and both succeed, then
  -- both applications carry this offer.
  pub submit_two_carry :
      Unescapes unescape
      → (offer : Offer) → IsInvitationJson payloads decode write read offer
      → (o : Outside) (now later : Ambient) (req next : SubmitRequest) (a : ℕ) (s : State D Store W)
        (app second : Application)
      → look s.offers.by_key req.intake_id ≡ some a
      → look s.offers.by_key next.intake_id ≡ some a
      → cell s.offers.heap a ≡ some offer
      → offer.status ≡ "ACTIVE"
      → req.intake_id ≢ ""
      → next.intake_id ≢ ""
      → req.entry_path ≡ entry_path_invitation
      → next.entry_path ≡ entry_path_invitation
      → (submit_two_there o now later req next s).0 ≡ ok (app, second)
      → (app.offer ≡ some (granted offer).0) × (second.offer ≡ some (granted offer).0)
  unfolding offer_log_client
  submit_two_carry unescapes offer json o now later req next a s app second known leads held active
        full full' path path' h =
      let client = offer_client decode write unescape read base_url request_id payloads o in
      let (kept, kept', asked, asked') =
        submit_two_offers repo client sessions workflow now later req next s app second h in
      let first =
        validate_offer-known decode write unescape read base_url request_id payloads unescapes offer
          json o req.intake_id a s.offers known held in
      let then_next =
        validate_offer-known decode write unescape read base_url request_id payloads unescapes offer
          json o next.intake_id a s.offers leads held in
      (
        ground (
          arith,
          eq_iff req.intake_id "",
          eq_iff req.entry_path entry_path_invitation,
          eq_iff offer.status "ACTIVE",
        ),
        ground (
          arith,
          eq_iff req.intake_id "",
          eq_iff req.entry_path entry_path_invitation,
          eq_iff next.intake_id "",
          eq_iff next.entry_path entry_path_invitation,
          eq_iff offer.status "ACTIVE",
        ),
      )
