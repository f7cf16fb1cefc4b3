-- ===== src/Platform/Spent.antt =====
-- What becomes of an invitation: submissions to application-management-service on a network where
-- offerlog-mock answers for OfferLog.
use psr_pl.Base.{ℕ, String, Option, some, none, ◌≡◌, ◌≢◌, arith, eq_iff, inl, inr, ◌==◌, Bool-cases}
use psr_pl.Go.{Result, ok, err}
use psr_pl.Http.{Payload}
use psr_pl.Application.Model as Model
use psr_pl.Application.Model.{Application, entry_path_invitation, entry_path_direct}
use psr_pl.Application.Repository.{Repository}
use psr_pl.Application.Sessions.{SessionStore}
use psr_pl.Application.Workflow.{WorkflowStarter}
use psr_pl.Application.OfferLog.{ValidateInvitationResponse, offer_log_client}
use psr_pl.Application.Service.{
  State, SubmitRequest, Ambient, Resolution, degraded, submit, resolve_invitation,
}
use psr_pl.Application.Failures.{submit_marks}
use psr_pl.OfferLogMock.Store.{Offer, Store, look, cell, set_status}
use psr_pl.OfferLogMock.Paired.{Reached, set_status_seen}
use psr_pl.OfferLogMock.Server.{Decoders, Encoders, Outside}
use psr_pl.Platform.Network.{IsPathId}
use psr_pl.Platform.Dispatch.{Unescapes}
use psr_pl.Platform.Invitations.{
  granted, IsInvitationJson, offer_client, update_status-set_status, used_refused,
  validate_offer-known,
}

-- The offer that a submission's application carries.
abbrev pub offer_in : Result Application → Option Model.Offer
offer_in (ok app) = app.offer
offer_in (err e) = none

module _ {D W : Type 0} (repo : Repository D) (sessions : SessionStore D)
    (workflow : WorkflowStarter W) (decode : Decoders) (write : Encoders)
    (unescape : String → String) (read : String → Result ValidateInvitationResponse)
    (base_url request_id : String) (payloads : Payload → Result String) where
  -- `Submit` and `ResolveInvitation` there.
  abbrev pub submit_there :
      Outside → Ambient → SubmitRequest → State D Store W → Result Application × State D Store W
  submit_there o now req s =
      submit repo (offer_client decode write unescape read base_url request_id payloads o) sessions
        workflow now req s

  abbrev pub resolve_there :
      Outside → String → State D Store W → Result Resolution × State D Store W
  resolve_there o key s =
      resolve_invitation repo
        (offer_client decode write unescape read base_url request_id payloads o) sessions workflow
        key s

  -- A submission that carries an offer leaves it used in OfferLog.
  submit_uses :
      Unescapes unescape
      → (offer : Offer) → IsInvitationJson payloads decode write read offer
      → (o : Outside) (now : Ambient) (req : SubmitRequest) (a : ℕ) (s : State D Store W)
        (app : Application)
      → Reached s.offers
      → look s.offers.by_key req.intake_id ≡ some a
      → cell s.offers.heap a ≡ some offer
      → IsPathId offer.intake_id
      → (submit_there o now req s).0 ≡ ok app
      → app.offer ≢ none
      → (app.offer ≡ some (granted offer).0)
        × ((submit_there o now req s).1.offers ≡ (set_status offer.intake_id "USED" s.offers).1)
  unfolding offer_log_client
  submit_uses unescapes offer json o now req a s app reached known held p h carries =
      let client = offer_client decode write unescape read base_url request_id payloads o in
      elim (submit_marks repo client sessions workflow now req s app h) [
        | inl (nothing, kept) ↦ absurd (carries nothing)
        | inr (taken, prefill, snapshot, seen, marked) ↦
            let valid =
              validate_offer-known decode write unescape read base_url request_id payloads unescapes
                offer json o req.intake_id a s.offers known held in
            let update =
              update_status-set_status decode write unescape read base_url request_id payloads
                unescapes offer json o offer.intake_id "USED" s.offers p in
            let (found, seen_used, held_used) =
              set_status_seen req.intake_id "USED" (o.intake_hex, o.offer_hex) s.offers a offer
                reached known held in
            elim (Bool-cases (offer.status == "ACTIVE")) [
              | inl active ↦ (ground arith, ground arith)
              | inr refused ↦ absurd (ground arith)
            ]
      ]

  -- One submission after the other, an invitation serves one application: after a submission that
  -- carries an offer, every key that leads to this offer resolves to the direct path, and the next
  -- submission by the invitation path with such a key is, whether it succeeds or not, what it is by
  -- the direct path, carries no offer, and leaves OfferLog as it is.
  pub submit_spends :
      Unescapes unescape
      → (offer : Offer) → IsInvitationJson payloads decode write read offer
      → (o later : Outside) (now afterwards : Ambient) (req next : SubmitRequest) (a : ℕ)
        (s : State D Store W) (app : Application)
      → Reached s.offers
      → look s.offers.by_key req.intake_id ≡ some a
      → look s.offers.by_key next.intake_id ≡ some a
      → cell s.offers.heap a ≡ some offer
      → IsPathId offer.intake_id
      → next.intake_id ≢ ""
      → next.entry_path ≡ "INVITATION"
      → (submit_there o now req s).0 ≡ ok app
      → app.offer ≢ none
      → let after = (submit_there o now req s).1 in
        let again = submit_there later afterwards next after in
        (app.offer ≡ some (granted offer).0)
        × (resolve_there later next.intake_id after ≡ (ok degraded, after))
        × (again ≡ submit_there later afterwards (record next { entry_path = "DIRECT" }) after)
        × (offer_in again.0 ≡ none)
        × (again.1.offers ≡ after.offers)
  unfolding submit resolve_invitation offer_log_client
  submit_spends unescapes offer json o later now afterwards req next a s app reached known leads
        held p full path h carries =
      let (taken, used) =
        submit_uses unescapes offer json o now req a s app reached known held p h carries in
      let refused =
        used_refused decode write unescape read base_url request_id payloads unescapes offer json
          later next.intake_id a s.offers reached leads held in
      let after = (submit_there o now req s).1 in
      let asked = eq_iff next.intake_id "" in
      let invited = eq_iff next.entry_path "INVITATION" in
      (
        taken,
        ground (arith, asked, invited),
        ground (arith, asked, invited),
        ground (arith, asked, invited),
        ground (arith, asked, invited),
      )
