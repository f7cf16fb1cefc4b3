-- ===== src/Platform/Tests/Serving.antt =====
-- Requests to single servers: their routes, their middlewares and what a read leaves.
use mathlib.Core.List.{map, tail}
use psr_pl.Base.{
  ℕ, ◌+◌, String, List, [], ◌∷◌, ◌==◌, if◌then◌else◌, ◌≡◌, ◌≢◌, ◌⊎◌, ◌↔◌, refl, ne_of_test,
}
use psr_pl.Dynamo.{Table, memory, memory-IsDynamo}
use psr_pl.Web.{
  clean_path, resolve_all, join_slash, split_slash, dispatch, found, Incoming, get_header,
  request_id, write_header, with_request_id, with_cors, with_request_id-with_cors, Handler, started,
  Startup, require_env, env_or_default, Environment,
}
use psr_pl.Application.Service.{State}
use psr_pl.Application.Server as ApplicationServer
use psr_pl.Application.Server.{Endpoint, Outside, execution_arn, cors, server, settings}
use psr_pl.Application.Main.{wired, main}
use psr_pl.Application.Running.{main_reads}
use psr_pl.Application.Workflow.{Sfn}
use psr_pl.Go.{Result, ok, err, text}
use psr_pl.Workflow.Tests.{web}
use psr_pl.Application.Tests.Fixtures.{
  Item, key, application_codec, session_codec, application_codec-IsCodec, stored, whole,
}
use psr_pl.Platform.Routes.{served_at, MatchesOne, dispatch_iff}
use psr_pl.Platform.Tests.Fixtures.{decode, encode, unescape, outside, systems}

canonical :
    clean_path "/internal/applications/app-1/execution" ≡ "/internal/applications/app-1/execution"
unfolding clean_path resolve_all join_slash split_slash
canonical = refl

dispatch_iff_example :
    (dispatch unescape ApplicationServer.routes "GET" "/internal/applications/app-1/execution"
      ≡ found execution_arn ("app-1" ∷ []))
    ↔ MatchesOne
        (served_at execution_arn)
        "GET"
        (map unescape (tail (split_slash "/internal/applications/app-1/execution")))
        ("app-1" ∷ [])
dispatch_iff_example =
    dispatch_iff unescape "GET" "/internal/applications/app-1/execution" execution_arn
      ("app-1" ∷ []) canonical

abbrev lookup : Incoming
lookup = record {
  method = "GET";
  path = "/internal/applications/app-1/execution";
  headers = ("X-Request-Id", "request-1") ∷ [];
  payload = "";
  request_id = "";
}

-- Every variable is set.
abbrev full : Environment
full key = "value"

abbrev accepting : Sfn ℕ
accepting = record { start_execution = λ arn name payload w. (ok "arn:1", w + 1) }

abbrev running :
    Result (Unit {0}) → Environment → Startup (String → Outside → Handler (State (Table Item) ℕ ℕ))
running =
    main (λ endpoint table. memory key) web (λ endpoint. accepting) application_codec session_codec
      (λ s. err (text "not an offer")) (λ input. ok "input") whole decode encode unescape

abbrev serving : String → Outside → Handler (State (Table Item) ℕ ℕ)
serving =
    wired (λ endpoint table. memory key) web (λ endpoint. accepting) application_codec session_codec
      (λ s. err (text "not an offer")) (λ input. ok "input") whole decode encode unescape
      (record {
        table_name = "value";
        offer_log_url = "value";
        state_machine_arn = "value";
        port = "value";
      })
      full

running_test : running (ok tt) full ≡ started serving
unfolding main settings require_env env_or_default
running_test = refl

abbrev held : State (Table Item) ℕ ℕ
held = record { table = systems.table; offers = 0; workflow = 0 }

main_reads_example :
    stored (serving "uuid-1" outside lookup [] held).1.table "app-1" ≡ stored held.table "app-1"
main_reads_example =
    main_reads (λ endpoint table. memory key) web (λ endpoint. accepting) application_codec
      session_codec (λ s. err (text "not an offer")) (λ input. ok "input") whole decode encode
      unescape (λ endpoint table. memory-IsDynamo key) application_codec-IsCodec (ok tt) full
      serving "uuid-1" outside lookup [] held "app-1" running_test (ne_of_test "GET" "POST" refl)
      (ne_of_test "GET" "PUT" refl)

-- A handler that answers with 200.
abbrev healthy : Handler ℕ
healthy r headers s = (write_header 200 headers, s)

with_request_id-with_cors_example :
    let (response, after) =
      with_request_id "request-9" (with_cors cors "http://ui" healthy) lookup [] 0 in
    (get_header "X-Request-Id" response.headers ≡ request_id "request-9" lookup)
    × (get_header "Access-Control-Allow-Origin" response.headers ≡ "http://ui")
    × ((lookup.method ≢ "OPTIONS") ⊎ ((response.status ≡ 204) × (after ≡ 0)))
with_request_id-with_cors_example =
    with_request_id-with_cors cors "http://ui" "request-9" healthy (λ key own r headers s. refl)
      lookup [] 0

-- Only the table's name is set.
abbrev partial : Environment
partial key = if key == "APPLICATION_TABLE_NAME" then "applications" else ""

abbrev partly : Startup (String → Outside → Handler (State (Table Item) ℕ ℕ))
partly = running (ok tt) partial
