-- ===== src/Application/Reading.antt =====
-- Requests that only read: what a server of application-management-service does with any method but
-- POST and PUT.
use mathlib.Core.List.{map, tail}
use psr_pl.Base.{
  ℕ, String, Bool, true, false, List, Option, some, ◌≡◌, ◌≢◌, arith, refl, eq_iff, Option-cases,
  Bool-cases, ◌==◌, inl, inr,
}
use psr_pl.Go.{Result-cases}
use psr_pl.Http.{bearer_token}
use psr_pl.Web.{
  route, split_slash, find_route, dispatch, Outcome, found, moved, not_allowed, not_found, Headers,
  Incoming, serve_outcome, request_id, path_value, with_request_id, with_cors, Environment,
}
use psr_pl.Application.Model.{Application}
use psr_pl.Application.Repository.{Repository, IsRepository}
use psr_pl.Application.Sessions.{SessionStore}
use psr_pl.Application.Workflow.{WorkflowStarter}
use psr_pl.Application.OfferLog.{OfferLogAdapter}
use psr_pl.Application.Service
use psr_pl.Application.Serving.{common_headers}
use psr_pl.Application.Lifecycle.{get_keeps}
use psr_pl.Application.Service.{State}
use psr_pl.Application.Handler
use psr_pl.Application.Handler.{Floats}
use psr_pl.Application.Server.{
  Decoders, Encoders, Outside, Endpoint, validate_invitation, submit, login, status, update_status,
  current_status, execution_arn, validate_session, health, routes, serve, multiplexer, server,
}

-- The endpoints that are registered for GET.
abbrev pub is_read : Endpoint → Bool
is_read validate_invitation = false
is_read submit = false
is_read login = false
is_read status = true
is_read update_status = false
is_read current_status = true
is_read execution_arn = true
is_read validate_session = false
is_read health = true

find_route_read :
    (method : String) (parts : List String) (h : Endpoint) (values : List String)
    → method ≢ "POST"
    → method ≢ "PUT"
    → find_route routes method parts ≡ some (h, values)
    → is_read h ≡ true
unfolding find_route routes route split_slash
find_route_read method parts h values post put e =
    ground (arith, eq_iff "POST" method, eq_iff "PUT" method)

dispatch_read :
    (unescape : String → String) (method path : String) (h : Endpoint) (values : List String)
    → method ≢ "POST"
    → method ≢ "PUT"
    → dispatch unescape routes method path ≡ found h values
    → is_read h ≡ true
unfolding dispatch
dispatch_read unescape method path h values post put e =
    let parts = map unescape (tail (split_slash path)) in
    elim (Option-cases (find_route routes method parts)) [
      | inl none_found ↦ absurd (ground arith)
      | inr ((k, taken), there) ↦
          ground (arith, find_route_read method parts k taken post put there)
    ]

module _ {D L W : Type 0} {repo : Repository D} (sessions : SessionStore D)
    (offers : OfferLogAdapter L) (workflow : WorkflowStarter W)
    {stored : D → String → Option Application} (law : IsRepository repo stored)
    (apart : (now : ℕ) (token : String) (t : D) (j : String)
      → stored (sessions.validate now token t).1 j ≡ stored t j) where
  pub authenticate_keeps :
      (now : ℕ) (token id j : String) (s : State D L W)
      → stored (Service.authenticate repo offers sessions workflow now token id s).1.table j
        ≡ stored s.table j
  unfolding Service.authenticate
  authenticate_keeps now token id j s = ground (arith, apart now token s.table j)

  pub execution_arn_keeps :
      (id j : String) (s : State D L W)
      → stored (Service.execution_arn repo offers sessions workflow id s).1.table j
        ≡ stored s.table j
  unfolding Service.execution_arn
  execution_arn_keeps id j s = ground (arith, law.get_reads.keeps id s.table j)

  status_keeps :
      (now : ℕ) (auth id j : String) (s : State D L W)
      → stored (Handler.status repo offers sessions workflow now auth id s).1.table j
        ≡ stored s.table j
  unfolding Handler.status
  status_keeps now auth id j s =
      let token = bearer_token auth in
      let between = (Service.authenticate repo offers sessions workflow now token id s).1 in
      elim (Result-cases (Service.authenticate repo offers sessions workflow now token id s).0) [
        | inl (u, valid) ↦ ground (
          arith,
          authenticate_keeps now token id j s,
          get_keeps offers sessions workflow law id j between,
        )
        | inr (e, failed) ↦ ground (arith, authenticate_keeps now token id j s)
      ]

  current_status_keeps :
      (id j : String) (s : State D L W)
      → stored (Handler.current_status repo offers sessions workflow id s).1.table j
        ≡ stored s.table j
  unfolding Handler.current_status
  current_status_keeps id j s = ground (arith, get_keeps offers sessions workflow law id j s)

  arn_keeps :
      (id j : String) (s : State D L W)
      → stored (Handler.execution_arn repo offers sessions workflow id s).1.table j
        ≡ stored s.table j
  unfolding Handler.execution_arn
  arn_keeps id j s = ground (arith, execution_arn_keeps id j s)

  module _ (floats : Floats) (decode : Decoders) (encode : Encoders)
      (unescape : String → String) where
    serve_keeps :
        (o : Outside) (h : Endpoint) (values : List String) (r : Incoming) (headers : Headers)
        (s : State D L W) (j : String)
        → is_read h ≡ true
        → stored
            (serve repo offers sessions workflow floats decode encode unescape o h values r headers
              s).1.table
            j
          ≡ stored s.table j
    serve_keeps o status values r headers s j e = status_keeps o.now _ (path_value values) j s
    serve_keeps o current_status values r headers s j e =
        current_status_keeps (path_value values) j s
    serve_keeps o execution_arn values r headers s j e = arn_keeps (path_value values) j s
    serve_keeps o health values r headers s j e = refl
    serve_keeps o validate_invitation values r headers s j e = cc
    serve_keeps o submit values r headers s j e = cc
    serve_keeps o login values r headers s j e = cc
    serve_keeps o update_status values r headers s j e = cc
    serve_keeps o validate_session values r headers s j e = cc

    outcome_keeps :
        (o : Outside) (out : Outcome Endpoint) (r : Incoming) (headers : Headers) (s : State D L W)
        (j : String)
        → ((h : Endpoint) (values : List String) → out ≡ found h values → is_read h ≡ true)
        → stored
            (serve_outcome
              (serve repo offers sessions workflow floats decode encode unescape o)
              out
              r
              headers
              s).1.table
            j
          ≡ stored s.table j
    unfolding serve_outcome
    outcome_keeps o (found h values) r headers s j read =
        serve_keeps o h values r headers s j (read h values refl)
    outcome_keeps o (moved path) r headers s j read = refl
    outcome_keeps o (not_allowed methods) r headers s j read = refl
    outcome_keeps o not_found r headers s j read = refl

    -- The server changes no stored application in answer to any method but POST and PUT, whatever
    -- the path.
    pub server_reads :
        (env : Environment) (o : Outside) (r : Incoming) (headers : Headers) (s : State D L W)
        (j : String)
        → r.method ≢ "POST"
        → r.method ≢ "PUT"
        → stored
            (server repo offers sessions workflow floats decode encode unescape env o r headers
              s).1.table
            j
          ≡ stored s.table j
    unfolding server multiplexer with_request_id with_cors
    server_reads env o r headers s j post put = elim (Bool-cases (r.method == "OPTIONS")) [
      | inl preflight ↦ ground arith
      | inr other ↦ ground (
        arith,
        outcome_keeps o (dispatch unescape routes r.method r.path)
            (record r { request_id = request_id o.request_id r }) (common_headers env o r headers) s
            j
            (λ (h : Endpoint) (values : List String)
                (e : dispatch unescape routes r.method r.path ≡ found h values).
              dispatch_read unescape r.method r.path h values post put e),
      )
    ]
