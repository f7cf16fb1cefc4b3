-- ===== src/Platform/Tests/Spending.antt =====
-- Two submissions of the mock's first invitation.
use psr_pl.Base.{String, List, [], none, some, ◌≡◌, refl, arith, ne_of_test}
use psr_pl.Go.{Result, ok}
use psr_pl.Dynamo.{Table, put_record, get_record}
use psr_pl.Web.{
  route, split_slash, match_path, find_route, dispatch, respond, serve_outcome, clean_path,
  resolve_all, join_slash,
}
use psr_pl.Application.Model.{Application, entry_path_direct}
use psr_pl.Application.Validator.{validate}
use psr_pl.Application.Repository.{dynamo_repository}
use psr_pl.Application.OfferLog as Client
use psr_pl.Application.OfferLog.{offer_log_client}
use psr_pl.Application.Service.{
  State, SubmitRequest, Ambient, degraded, new_application, prefilled, submit,
}
use psr_pl.Application.Tests.Fixtures.{Item, repo, sessions, starter, invited, ambient}
use psr_pl.OfferLogMock.Store.{Store, new_store, active_fixture, resolve, set_status}
use psr_pl.OfferLogMock.Store as Mock
use psr_pl.OfferLogMock.Paired.{started}
use psr_pl.OfferLogMock.Server.{routes, server}
use psr_pl.Platform.Network.{http_client, deliver}
use psr_pl.Platform.Invitations.{granted}
use psr_pl.Platform.Spent.{submit_there, resolve_there, submit_spends, offer_in}
use psr_pl.Platform.Tests.Fixtures.{payloads, unescape, unescape-Unescapes}
use psr_pl.Platform.Tests.Inviting.{decode, write, read, random, read_back, fixture-IsPathId}

abbrev pub start : State (Table Item) Store (List String)
start = record { table = []; offers = new_store; workflow = [] }

abbrev run :
    Ambient
    → SubmitRequest
    → State (Table Item) Store (List String)
    → Result Application × State (Table Item) Store (List String)
run =
    submit_there repo sessions starter decode write unescape read "http://offerlog" "request-1"
      payloads random

abbrev pub request : SubmitRequest
request = invited "intake-fixture-active"

abbrev pub again : SubmitRequest
again = invited "VALID-INVITE-123"

-- The first application has the offer.
abbrev pub app : Application
app =
    let (offer, prefill) = granted active_fixture in
    record (new_application ambient (prefilled request prefill) (some offer)) {
      execution_arn = "arn:1";
    }

abbrev pub next : Ambient
next = record ambient { uuid = "app-2" }

-- The second is a direct one.
abbrev second : Application
second = record (new_application next (record again { entry_path = entry_path_direct }) none) {
  execution_arn = "arn:1";
}

first_test : (run ambient request start).0 ≡ ok app
unfolding submit dynamo_repository put_record get_record validate offer_log_client
    Client.validate_offer Client.update_status http_client deliver server serve_outcome dispatch
    respond routes route split_slash match_path find_route Mock.validate Mock.put_status resolve
    set_status payloads clean_path resolve_all join_slash
first_test = refl

second_test : (run next again (run ambient request start).1).0 ≡ ok second
unfolding submit dynamo_repository put_record get_record validate offer_log_client
    Client.validate_offer Client.update_status http_client deliver server serve_outcome dispatch
    respond routes route split_slash match_path find_route Mock.validate Mock.put_status resolve
    set_status payloads clean_path resolve_all join_slash
second_test = refl

submit_spends_example :
    let after = (run ambient request start).1 in
    let later = run next again after in
    (app.offer ≡ some (granted active_fixture).0)
    × (resolve_there repo sessions starter decode write unescape read "http://offerlog" "request-1"
          payloads random "VALID-INVITE-123" after
        ≡ (ok degraded, after))
    × (later ≡ run next (record again { entry_path = "DIRECT" }) after)
    × (offer_in later.0 ≡ none)
    × (later.1.offers ≡ after.offers)
submit_spends_example =
    submit_spends repo sessions starter decode write unescape read "http://offerlog" "request-1"
      payloads unescape-Unescapes active_fixture read_back random random ambient next request again
      0 start app started refl refl refl fixture-IsPathId (ne_of_test "VALID-INVITE-123" "" refl)
      refl first_test (ground arith)
