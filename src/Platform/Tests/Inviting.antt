-- ===== src/Platform/Tests/Inviting.antt =====
-- The invitation of the mock's first fixture, used and made active again.
use psr_pl.Base.{String, ◌≡◌, refl, arith}
use psr_pl.Go.{Result, ok, err, sentinel, offer_unavailable}
use psr_pl.Application.OfferLog.{OfferLogAdapter, ValidateInvitationResponse}
use psr_pl.OfferLogMock.Store.{Store, new_store, active_fixture}
use psr_pl.OfferLogMock.Paired.{started}
use psr_pl.OfferLogMock.Server.{Decoders, Encoders, Outside}
use psr_pl.Platform.Network.{IsPathId}
use psr_pl.Platform.Invitations.{
  response_of, granted, IsInvitationJson, offer_client, mark_used_spends,
}
use psr_pl.Platform.Tests.Fixtures.{payloads, unescape, unescape-Unescapes}

abbrev pub decode : Decoders
decode = record { token = ok; status = ok }

abbrev pub write : Encoders
write = record { offer = λ o. o.status; status = λ s. s; failure = λ e. "error" }

abbrev pub read : String → Result ValidateInvitationResponse
read body = ok (response_of (record active_fixture { status = body }))

abbrev pub random : Outside
random = record { intake_hex = "0a1b2c3d"; offer_hex = "4e5f6071" }

abbrev client : OfferLogAdapter Store
client = offer_client decode write unescape read "http://offerlog" "request-1" payloads random

pub read_back : IsInvitationJson payloads decode write read active_fixture
unfolding payloads
read_back = record {
  token = λ token. (token, refl, refl);
  status = λ status. (status, refl, refl);
  offer = λ status. refl;
}

pub fixture-IsPathId : IsPathId "intake-fixture-active"
fixture-IsPathId = record { plain = (omega arith, cc, cc, cc); verbatim = omega arith }

mark_used_spends_example :
    let (marking, used) = client.mark_used "intake-fixture-active" new_store in
    let (reverting, again) = client.revert_active "intake-fixture-active" used in
    (client.validate_offer "VALID-INVITE-123" new_store ≡ (ok (granted active_fixture), new_store))
    × (marking ≡ ok tt)
    × (client.validate_offer "VALID-INVITE-123" used ≡ (err (sentinel offer_unavailable), used))
    × (reverting ≡ ok tt)
    × (client.validate_offer "VALID-INVITE-123" again ≡ (ok (granted active_fixture), again))
mark_used_spends_example =
    mark_used_spends decode write unescape read "http://offerlog" "request-1" payloads
      unescape-Unescapes active_fixture read_back random "VALID-INVITE-123" 0 new_store started refl
      refl refl fixture-IsPathId
