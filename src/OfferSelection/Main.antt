-- ===== src/OfferSelection/Main.antt =====
-- `main` of pricing-orchestration-service/cmd/server/main.go: the settings, and the server over its
-- clients. DynamoDB, Step Functions and `net/http` are parameters.
use psr_pl.Base.{String, Bool}
use psr_pl.Go.{Result, Exec}
use psr_pl.Dynamo.{Dynamo, Codec}
use psr_pl.Http.{HttpClient}
use psr_pl.Web.{Handler, Environment, Startup, started, load_config, ◌>>=◌, ◌>>◌}
use psr_pl.Pricing.Model.{OfferOption}
use psr_pl.OfferSelection.Model.{SelectedOffer}
use psr_pl.OfferSelection.Repository.{dynamo_repository}
use psr_pl.OfferSelection.Resumer.{sfn_workflow_resumer}
use psr_pl.OfferSelection.Handler.{Server}
use psr_pl.OfferSelection.Server.{Settings, settings, Decoders, Encoders, server}

-- `dynamo` is the client for an endpoint, "" for the standard one, and a table.
module _ {D Item W N : Type 0} (dynamo : String → String → Dynamo D Item) (http : HttpClient N)
    (send_task_success : String → String → String → Exec W (Unit {0}))
    (offers : Codec SelectedOffer Item) (outputs : Bool → OfferOption → Result String)
    (decode : Decoders) (encode : Encoders) (unescape : String → String) where
  -- The server's handler, over the clients that are built from the settings.
  abbrev pub wired : Settings → Environment → String → Handler (Server D W N)
  wired c env =
      server (dynamo_repository (dynamo (env "DYNAMODB_ENDPOINT_URL") c.table_name) offers)
        (sfn_workflow_resumer (send_task_success (env "STEPFUNCTIONS_ENDPOINT_URL")) outputs) http
        c.application_url decode encode unescape env

  -- `main`, up to listening; `config` is what loading the AWS configuration answers.
  unfoldable pub main : Result (Unit {0}) → Environment → Startup (String → Handler (Server D W N))
  main config env = do c ← settings env; load_config config; started (wired c env)
