-- ===== src/Platform/Tests/Presenting.antt =====
-- The presentation of offers on the platform.
use psr_pl.Base.{ℕ, true, String, [], ◌∷◌, ◌≡◌, refl, ne_of_test}
use psr_pl.Go.{Result, ok, err, text}
use psr_pl.Dynamo.{Table}
use psr_pl.Http.{Payload}
use psr_pl.OfferSelection.Model.{SelectedOffer}
use psr_pl.OfferSelection.Service
use psr_pl.OfferSelection.Handler.{Server}
use psr_pl.OfferSelection.Server.{Decoders, Encoders}
use psr_pl.OfferSelection.Tests.{repo, recording, Resumptions, offer}
use psr_pl.Workflow.Effects.{PresentInput, present_offer}
use psr_pl.Workflow.Tests as WorkflowTests
use psr_pl.Platform.Presented.{
  IsOfferJson, offer_of, answered, offer_network, present_offer-present,
}
use psr_pl.Platform.Tests.Fixtures.{unescape, unescape-Unescapes, env, app-IsPathId}

abbrev input : PresentInput
input = record {
  task_token = "token-1";
  application_id = "app-1";
  priced_offers = offer "standard" ∷ offer "faster-payoff" ∷ [];
  request_id = "request-1";
}

abbrev payloads : Payload → Result String
payloads p = ok "offers"

abbrev decode : Decoders
decode = record {
  present = λ s. ok (record {
    application_id = "app-1";
    task_token = "token-1";
    offers = offer "standard" ∷ offer "faster-payoff" ∷ [];
  });
  confirm = λ s. err (text "not a confirmation");
  valid = λ s. ok true;
}

abbrev encode : Encoders
encode = record {
  selected_offer = λ o. o.application_id;
  application_id = λ id. id;
  failure = λ e. "error";
}

abbrev start : Server (Table SelectedOffer) Resumptions ℕ
start = record { service = record { table = []; workflow = [] }; sessions = 0 }

carried : IsOfferJson payloads decode input
carried = record { body = "offers"; encoded = refl; decoded = refl }

present_offer-present_example :
    present_offer
      (offer_network repo recording WorkflowTests.web "http://applications" decode encode unescape
        env "http://pricing" payloads "request-9")
      "http://pricing"
      input
      start
    ≡ (
      answered repo recording WorkflowTests.web "http://applications" decode encode unescape env
          "http://pricing" payloads "app-1"
          (Service.present repo recording (offer_of input) start.service).0,
      record start { service = (Service.present repo recording (offer_of input) start.service).1 },
    )
present_offer-present_example =
    present_offer-present repo recording WorkflowTests.web "http://applications" decode encode
      unescape env "http://pricing" payloads unescape-Unescapes
      (ne_of_test "http://pricing" "" refl) "request-9" input start carried app-IsPathId
