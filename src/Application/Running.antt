-- ===== src/Application/Running.antt =====
-- application-management-service as it is started, over DynamoDB.
use psr_pl.Base.{String, ◌≡◌, ◌≢◌, inl, inr, arith, ℕ, ◌==◌, if◌then◌else◌}
use psr_pl.Go.{Result, ok, err}
use psr_pl.Dynamo.{Dynamo, Codec, IsDynamo, IsCodec, stored_record}
use psr_pl.Http.{HttpClient}
use psr_pl.Web.{request_id, Headers, Incoming, Handler, Environment, started, load_config, ◌>>◌}
use psr_pl.Application.Model.{Application}
use psr_pl.Application.Repository.{messages, applications-IsRepository}
use psr_pl.Application.Sessions
use psr_pl.Application.Sessions.{SessionRecord, dynamo_session_store, session_item_id, unix}
use psr_pl.Application.Workflow.{Sfn, WorkflowInput, sfn_workflow_starter}
use psr_pl.Application.OfferLog.{ValidateInvitationResponse, offer_log_client}
use psr_pl.Application.Service.{State}
use psr_pl.Application.Handler.{Floats}
use psr_pl.Application.Server.{Settings, Decoders, Encoders, Outside}
use psr_pl.Application.Configured.{settings_lem}
use psr_pl.Application.Reading.{server_reads}
use psr_pl.Application.Main.{wired, main}

module _ {D Item : Type 0} {d : Dynamo D Item} {codec : Codec Application Item}
    {key : Item → String} (law : IsDynamo d key)
    (codes : IsCodec codec key (λ (a : Application). a.id)) where
  -- Checking a session is one read of the table: it changes no application.
  pub validate_apart :
      (sessions : Codec SessionRecord Item) (now : ℕ) (token : String) (t : D) (j : String)
      → stored_record (messages "") law codes (Sessions.validate d sessions now token t).1 j
        ≡ stored_record (messages "") law codes t j
  unfolding Sessions.validate
  validate_apart sessions now token t j = grind (arith, law.get_keeps)

loaded :
    {A : Type 0} {a b : A} (config : Result (Unit {0}))
    → (load_config config >> started a) ≡ started b
    → a ≡ b
loaded (ok u) h = cc
loaded (err e) h = cc

module _ {D Item L W : Type 0} (dynamo : String → String → Dynamo D Item) (http : HttpClient L)
    (sfn : String → Sfn W) (applications : Codec Application Item)
    (sessions : Codec SessionRecord Item) (offers : String → Result ValidateInvitationResponse)
    (inputs : WorkflowInput → Result String) (floats : Floats) (decode : Decoders)
    (encode : Encoders) (unescape : String → String) {key : Item → String}
    (law : (endpoint table : String) → IsDynamo (dynamo endpoint table) key)
    (codes : IsCodec applications key (λ (a : Application). a.id)) where
  -- The program as it is started: over DynamoDB as documented, the server that `main` builds from an
  -- environment changes no application of its table in answer to any method but POST and PUT.
  pub main_reads :
      (config : Result (Unit {0})) (env : Environment)
      (serve : String → Outside → Handler (State D L W)) (uuid : String) (o : Outside)
      (r : Incoming) (headers : Headers) (s : State D L W) (j : String)
      → main dynamo http sfn applications sessions offers inputs floats decode encode unescape
          config env
        ≡ started serve
      → r.method ≢ "POST"
      → r.method ≢ "PUT"
      → let table = law (env "DYNAMODB_ENDPOINT_URL") (env "APPLICATION_TABLE_NAME") in
        stored_record (messages "") table codes (serve uuid o r headers s).1.table j
        ≡ stored_record (messages "") table codes s.table j
  unfolding main dynamo_session_store
  main_reads config env serve uuid o r headers s j e post put = elim (settings_lem env) [
    | inl (all_set, read) ↦
        let c : Settings = record {
          table_name = env "APPLICATION_TABLE_NAME";
          offer_log_url = env "OFFERLOG_BASE_URL";
          state_machine_arn = env "PRICING_STATE_MACHINE_ARN";
          port = if env "PORT" == "" then "8081" else env "PORT";
        } in
        let same : wired dynamo http sfn applications sessions offers inputs floats decode encode
              unescape c env
            ≡ serve =
          loaded config (rw read at e) in
        let endpoint = env "DYNAMODB_ENDPOINT_URL" in
        let table = law endpoint c.table_name in
        rw (← same) (
          server_reads (dynamo_session_store (dynamo endpoint c.table_name) sessions)
            (offer_log_client http offers c.offer_log_url (request_id o.request_id r))
            (sfn_workflow_starter (sfn (env "STEPFUNCTIONS_ENDPOINT_URL")) inputs
              c.state_machine_arn uuid)
            (applications-IsRepository table codes) (validate_apart table codes sessions) floats
            decode encode unescape env o r headers s j post put)
    | inr (before, absent, after, split, all_set, unset, exits) ↦ absurd (ground arith)
  ]
