-- ===== src/Acceptance/Main.antt =====
-- `main` of offer-acceptance-service/cmd/server/main.go: the settings, and the server over its clients.
-- DynamoDB and `net/http` are parameters.
use psr_pl.Base.{String, List}
use psr_pl.Go.{Result}
use psr_pl.Dynamo.{Dynamo, Codec}
use psr_pl.Http.{HttpClient}
use psr_pl.Web.{Handler, Environment, Startup, started, load_config, ◌>>=◌, ◌>>◌}
use psr_pl.Acceptance.Model.{EsignRecord}
use psr_pl.Acceptance.Repository.{dynamo_repository}
use psr_pl.Acceptance.Service.{State}
use psr_pl.Acceptance.Server.{Settings, settings, Encoders, Outside, server}

-- `dynamo` is the client for an endpoint, "" for the standard one, and a table.
module _ {D Item N : Type 0} (dynamo : String → String → Dynamo D Item) (http : HttpClient N)
    (records : Codec EsignRecord Item) (decode : String → Result (List String)) (encode : Encoders)
    (unescape : String → String) where
  -- The server's handler, over the clients that are built from the settings.
  abbrev pub wired : Settings → Environment → Outside → Handler (State D N)
  wired c env =
      server (dynamo_repository (dynamo (env "DYNAMODB_ENDPOINT_URL") c.table_name) records) http
        c.application_url decode encode unescape env

  -- `main`, up to listening; `config` is what loading the AWS configuration answers.
  unfoldable pub main : Result (Unit {0}) → Environment → Startup (Outside → Handler (State D N))
  main config env = do c ← settings env; load_config config; started (wired c env)
