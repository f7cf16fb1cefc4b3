-- ===== src/Application/Main.antt =====
-- `main` of application-management-service/cmd/server/main.go: the settings, and the server over its
-- clients. DynamoDB, Step Functions and `net/http` are parameters, and so is the UUID in the name of
-- an execution.
use psr_pl.Base.{String}
use psr_pl.Go.{Result}
use psr_pl.Dynamo.{Dynamo, Codec}
use psr_pl.Http.{HttpClient}
use psr_pl.Web.{Handler, Environment, Startup, started, load_config, request_id, ◌>>=◌, ◌>>◌}
use psr_pl.Application.Model.{Application}
use psr_pl.Application.Repository.{dynamo_repository}
use psr_pl.Application.Sessions.{SessionRecord, dynamo_session_store}
use psr_pl.Application.Workflow.{Sfn, WorkflowInput, sfn_workflow_starter}
use psr_pl.Application.OfferLog.{ValidateInvitationResponse, offer_log_client}
use psr_pl.Application.Service.{State}
use psr_pl.Application.Handler.{Floats}
use psr_pl.Application.Server.{Settings, settings, Decoders, Encoders, Outside, server}

-- `dynamo` is the client for an endpoint, "" for the standard one, and a table.
module _ {D Item L W : Type 0} (dynamo : String → String → Dynamo D Item) (http : HttpClient L)
    (sfn : String → Sfn W) (applications : Codec Application Item)
    (sessions : Codec SessionRecord Item) (offers : String → Result ValidateInvitationResponse)
    (inputs : WorkflowInput → Result String) (floats : Floats) (decode : Decoders)
    (encode : Encoders) (unescape : String → String) where
  -- The server's handler, over the clients that are built from the settings.
  abbrev pub wired : Settings → Environment → String → Outside → Handler (State D L W)
  wired c env uuid o r =
      server (dynamo_repository (dynamo (env "DYNAMODB_ENDPOINT_URL") c.table_name) applications)
        (offer_log_client http offers c.offer_log_url (request_id o.request_id r))
        (dynamo_session_store (dynamo (env "DYNAMODB_ENDPOINT_URL") c.table_name) sessions)
        (sfn_workflow_starter (sfn (env "STEPFUNCTIONS_ENDPOINT_URL")) inputs c.state_machine_arn
          uuid)
        floats decode encode unescape env o r

  -- `main`, up to listening; `config` is what loading the AWS configuration answers.
  unfoldable pub main :
      Result (Unit {0}) → Environment → Startup (String → Outside → Handler (State D L W))
  main config env = do c ← settings env; load_config config; started (wired c env)
