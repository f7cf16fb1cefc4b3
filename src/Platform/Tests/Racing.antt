-- ===== src/Platform/Tests/Racing.antt =====
-- Two interleaved submissions of the mock's first invitation.
use psr_pl.Base.{String, List, some, ◌≡◌, refl, ne_of_test}
use psr_pl.Go.{Result, ok}
use psr_pl.Dynamo.{Table, put_record, get_record}
use psr_pl.Web.{
  route, split_slash, match_path, find_route, dispatch, respond, serve_outcome, clean_path,
  resolve_all, join_slash,
}
use psr_pl.Application.Model.{Application}
use psr_pl.Application.Validator.{validate}
use psr_pl.Application.Repository.{dynamo_repository}
use psr_pl.Application.OfferLog as Client
use psr_pl.Application.OfferLog.{offer_log_client}
use psr_pl.Application.Service.{State, SubmitRequest, Ambient, new_application, prefilled}
use psr_pl.Application.Tests.Fixtures.{Item, repo, sessions, starter, ambient}
use psr_pl.OfferLogMock.Store.{Store, new_store, active_fixture, resolve, set_status}
use psr_pl.OfferLogMock.Store as Mock
use psr_pl.OfferLogMock.Server.{routes, server}
use psr_pl.Platform.Network.{http_client, deliver}
use psr_pl.Platform.Invitations.{granted}
use psr_pl.Platform.Raced.{submit_two_there, submit_two_carry}
use psr_pl.Application.Interleaved.{submit_two}
use psr_pl.Platform.Tests.Spending.{start, request, again, app, next}
use psr_pl.Platform.Tests.Fixtures.{payloads, unescape, unescape-Unescapes}
use psr_pl.Platform.Tests.Inviting.{decode, write, read, random, read_back}

abbrev runs :
    Ambient
    → Ambient
    → SubmitRequest
    → SubmitRequest
    → State (Table Item) Store (List String)
    → Result (Application × Application) × State (Table Item) Store (List String)
runs =
    submit_two_there repo sessions starter decode write unescape read "http://offerlog" "request-1"
      payloads random

-- The second application has the offer too.
abbrev second_offered : Application
second_offered =
    let (offer, prefill) = granted active_fixture in
    record (new_application next (prefilled again prefill) (some offer)) { execution_arn = "arn:1" }

both_test : (runs ambient next request again start).0 ≡ ok (app, second_offered)
unfolding submit_two dynamo_repository put_record get_record validate offer_log_client
    Client.validate_offer Client.update_status http_client deliver server serve_outcome dispatch
    respond routes route split_slash match_path find_route Mock.validate Mock.put_status resolve
    set_status payloads clean_path resolve_all join_slash
both_test = refl

submit_two_carry_example :
    (app.offer ≡ some (granted active_fixture).0)
    × (second_offered.offer ≡ some (granted active_fixture).0)
submit_two_carry_example =
    submit_two_carry repo sessions starter decode write unescape read "http://offerlog" "request-1"
      payloads unescape-Unescapes active_fixture read_back random ambient next request again 0 start
      app second_offered refl refl refl refl (ne_of_test "intake-fixture-active" "" refl)
      (ne_of_test "VALID-INVITE-123" "" refl) refl refl both_test
