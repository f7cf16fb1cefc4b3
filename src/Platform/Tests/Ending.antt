-- ===== src/Platform/Tests/Ending.antt =====
-- An execution over the server of application-management-service, which holds its application.
use psr_pl.Base.{true, String, List, refl}
use psr_pl.Dynamo.{Table, put_record, get_record}
use psr_pl.Web.{
  respond, get_header, set_header, route, split_slash, join_slash, resolve_all, clean_path,
  match_path, find_route, dispatch, serve_outcome, with_request_id, with_cors, env_or_default,
}
use psr_pl.Application.Repository.{dynamo_repository}
use psr_pl.Application.Service
use psr_pl.Application.Service.{State}
use psr_pl.Application.Handler
use psr_pl.Application.Server.{routes, multiplexer, server}
use psr_pl.Application.Tests.Fixtures.{Item, repo, sessions, offer_log, starter, whole}
use psr_pl.Workflow.Effects.{update_status}
use psr_pl.Workflow.Machine.{running, next}
use psr_pl.Workflow.Tests.{input}
use psr_pl.Platform.Network.{http_client, deliver}
use psr_pl.Platform.Calls.{network}
use psr_pl.Platform.Tests.Fixtures.{payloads, decode, encode, unescape, base_url, env, outside}
use psr_pl.Http.{HttpClient}
use psr_pl.Pricing.Bureau.{simulated_credit_pull}
use psr_pl.Workflow.Steps.{soft_pull, pricing_calculation}
use psr_pl.Workflow.Machine.{await_offer_selection, Reach, initial, here, soft_pulled, priced}
use psr_pl.Workflow.Invariant.{offers_for}
use psr_pl.Workflow.Progress.{Accepts, CanSucceed, running_succeeds}
use psr_pl.Workflow.Tests.{pulled, offered, chosen, chosen_found}
use psr_pl.Platform.Tests.Workflows.{systems}

abbrev Systems : Type 0
Systems = State (Table Item) (List String) (List String)

abbrev platform : HttpClient Systems
platform =
    network repo offer_log sessions starter whole decode encode unescape env base_url payloads
      outside

-- The stored application takes every decision.
accepting : Accepts platform base_url input
unfolding update_status http_client deliver server multiplexer with_request_id with_cors
    serve_outcome dispatch clean_path resolve_all join_slash split_slash routes route find_route
    match_path respond Handler.update_status Service.update_status dynamo_repository put_record
    get_record payloads decode encode get_header set_header env_or_default
accepting s d own e = (s, systems, rw (own, e) refl)

paused : Reach platform base_url (initial input) (running await_offer_selection offered)
unfolding soft_pull pricing_calculation
paused =
    next (next here (soft_pulled _ (simulated_credit_pull "app-2" "SOFT_PULL") refl))
      (priced pulled (offers_for input) refl)

running_succeeds_example : CanSucceed platform base_url (running await_offer_selection offered)
running_succeeds_example =
    running_succeeds platform base_url input accepting true "standard" chosen chosen_found
      await_offer_selection offered paused
