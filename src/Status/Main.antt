-- ===== src/Status/Main.antt =====
-- `main` of workflow-status-service/cmd/server/main.go: the settings, and the server over its
-- clients. Step Functions and `net/http` are parameters.
use psr_pl.Base.{String}
use psr_pl.Go.{Error, Result}
use psr_pl.Http.{HttpClient}
use psr_pl.Web.{Handler, Environment, Startup, started, load_config, ◌>>=◌, ◌>>◌}
use psr_pl.Status.Model.{WorkflowStatus}
use psr_pl.Status.Reader.{SfnClient, sfn_reader}
use psr_pl.Status.Client.{Decoders}
use psr_pl.Status.Service.{State}
use psr_pl.Status.Server.{Settings, settings, server}

-- `sfn` is the client for an endpoint, "" for the standard one.
module _ {N E : Type 0} (http : HttpClient N) (sfn : String → SfnClient E)
    (decisions : String → Result String) (decode : Decoders) (encode : WorkflowStatus → String)
    (failure : Error → String) (unescape : String → String) where
  -- The server's handler, over the clients that are built from the settings.
  abbrev pub wired : Settings → Environment → String → Handler (State N E)
  wired c env =
      server http (sfn_reader (sfn (env "STEPFUNCTIONS_ENDPOINT_URL")) decisions) c.application_url
        decode encode failure unescape env

  -- `main`, up to listening; `config` is what loading the AWS configuration answers.
  unfoldable pub main : Result (Unit {0}) → Environment → Startup (String → Handler (State N E))
  main config env = do c ← settings env; load_config config; started (wired c env)
