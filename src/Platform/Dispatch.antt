-- ===== src/Platform/Dispatch.antt =====
-- The paths that the services call reach their handlers in application-management-service.
use Prim.Native.String
use text.Mathlib.TextLemmas.{append_assoc}
use psr_pl.Base.{All, All-imp, String, List, ◌≡◌, [], ◌∷◌, refl, sym, arith, eq_iff}
use psr_pl.Web.{
  Route, route, split_slash, match_path, find_route, dispatch, outcome, dispatch-join_slash,
  join_slash, found, IsPlain,
}
use psr_pl.Application.Server.{
  routes, update_status, current_status, execution_arn, validate_session,
}
use psr_pl.Platform.Network.{IsVerbatim, IsPathId}

-- `url.PathUnescape` leaves a text without escapes as it is.
abbrev pub Unescapes : (String → String) → Type 0
Unescapes unescape = (s : String) → IsVerbatim s → unescape s ≡ s

pub applications_path :
    (id rest : String)
    → String.◌++◌ "/internal/applications/" (String.◌++◌ id rest)
      ≡ String.◌++◌ "/" (
          String.◌++◌ "internal"
            (String.◌++◌ "/" (String.◌++◌ "applications" (String.◌++◌ "/" (String.◌++◌ id rest)))))
applications_path id rest =
    let t = String.◌++◌ id rest in
    rw
      (
        sym (
            append_assoc "/" "internal"
              (String.◌++◌ "/" (String.◌++◌ "applications" (String.◌++◌ "/" t)))),
        sym (append_assoc "/internal" "/" (String.◌++◌ "applications" (String.◌++◌ "/" t))),
        sym (append_assoc "/internal/" "applications" (String.◌++◌ "/" t)),
        sym (append_assoc "/internal/applications" "/" t),
      )
      refl

status_path :
    (id : String)
    → String.◌++◌ "/internal/applications/" (String.◌++◌ id "/status")
      ≡ join_slash ("internal" ∷ "applications" ∷ id ∷ "status" ∷ [])
unfolding join_slash
status_path id = applications_path id "/status"

execution_path :
    (id : String)
    → String.◌++◌ "/internal/applications/" (String.◌++◌ id "/execution")
      ≡ join_slash ("internal" ∷ "applications" ∷ id ∷ "execution" ∷ [])
unfolding join_slash
execution_path id = applications_path id "/execution"

pub internal-IsPathId : IsPathId "internal"
internal-IsPathId = record { plain = (omega arith, cc, cc, cc); verbatim = omega arith }

pub applications-IsPathId : IsPathId "applications"
applications-IsPathId = record { plain = (omega arith, cc, cc, cc); verbatim = omega arith }

pub status-IsPathId : IsPathId "status"
status-IsPathId = record { plain = (omega arith, cc, cc, cc); verbatim = omega arith }

execution-IsPathId : IsPathId "execution"
execution-IsPathId = record { plain = (omega arith, cc, cc, cc); verbatim = omega arith }

sessions-IsPathId : IsPathId "sessions"
sessions-IsPathId = record { plain = (omega arith, cc, cc, cc); verbatim = omega arith }

pub validate-IsPathId : IsPathId "validate"
validate-IsPathId = record { plain = (omega arith, cc, cc, cc); verbatim = omega arith }

module _ (unescape : String → String) (unescapes : Unescapes unescape) where
  -- A path of plain segments is matched by those segments.
  pub dispatch_path :
      {H : Type 0} (registered : List (Route H)) (method s : String) (ss : List String)
      → All IsPathId (s ∷ ss)
      → dispatch unescape registered method (join_slash (s ∷ ss))
        ≡ outcome registered (s ∷ ss) (find_route registered method (s ∷ ss))
  dispatch_path registered method s ss ids =
      dispatch-join_slash unescape registered method s ss
        (All-imp IsPathId IsPlain (s ∷ ss) (λ t p. p.plain) ids)
        (All-imp IsPathId (λ t. unescape t ≡ t) (s ∷ ss) (λ t p. unescapes t p.verbatim) ids)

  -- The path of the status update, and of the status lookup.
  pub dispatch_update_status :
      (id : String)
      → IsPathId id
      → dispatch unescape routes "PUT"
          (String.◌++◌ "/internal/applications/" (String.◌++◌ id "/status"))
        ≡ found update_status (id ∷ [])
  unfolding find_route routes route split_slash match_path
  dispatch_update_status id p =
      rw
        (
          status_path id,
          dispatch_path routes "PUT" "internal" ("applications" ∷ id ∷ "status" ∷ [])
              (internal-IsPathId, (applications-IsPathId, (p, (status-IsPathId, tt)))),
        )
        (ground (arith, eq_iff id "", p.plain))

  pub dispatch_current_status :
      (id : String)
      → IsPathId id
      → dispatch unescape routes "GET"
          (String.◌++◌ "/internal/applications/" (String.◌++◌ id "/status"))
        ≡ found current_status (id ∷ [])
  unfolding find_route routes route split_slash match_path
  dispatch_current_status id p =
      rw
        (
          status_path id,
          dispatch_path routes "GET" "internal" ("applications" ∷ id ∷ "status" ∷ [])
              (internal-IsPathId, (applications-IsPathId, (p, (status-IsPathId, tt)))),
        )
        (ground (arith, eq_iff id "", p.plain))

  -- The path of the execution lookup.
  pub dispatch_execution_arn :
      (id : String)
      → IsPathId id
      → dispatch unescape routes "GET"
          (String.◌++◌ "/internal/applications/" (String.◌++◌ id "/execution"))
        ≡ found execution_arn (id ∷ [])
  unfolding find_route routes route split_slash match_path
  dispatch_execution_arn id p =
      rw
        (
          execution_path id,
          dispatch_path routes "GET" "internal" ("applications" ∷ id ∷ "execution" ∷ [])
              (internal-IsPathId, (applications-IsPathId, (p, (execution-IsPathId, tt)))),
        )
        (ground (arith, eq_iff id "", p.plain))

  -- The path of the session validation.
  pub dispatch_validate_session :
      dispatch unescape routes "POST" "/internal/sessions/validate" ≡ found validate_session []
  unfolding find_route routes route split_slash match_path join_slash
  dispatch_validate_session =
      rw
        (dispatch_path routes "POST" "internal" ("sessions" ∷ "validate" ∷ [])
          (internal-IsPathId, (sessions-IsPathId, (validate-IsPathId, tt))))
        refl
