-- ===== src/Platform/Routes.antt =====
-- The routes of the five services do not overlap, and what is registered is reached.
use mathlib.Core.List.{map, tail}
use psr_pl.Base.{
  String, List, Option, some, none, ◌≡◌, refl, arith, sym, subst, ◌∙◌, ◌↔◌, ◌⊎◌, inl, inr, [], ◌∷◌,
  eq_refl,
}
use psr_pl.Web.{
  Route, route, split_slash, clean_path, match_route, find_route, dispatch, found, outcome,
  allowed_methods, without_route, find_route_registered, IsDisjoint, IsRoute, meet_path,
  find_route_lem,
}
use psr_pl.Application.Server as ApplicationServer
use psr_pl.Application.Server.{
  Endpoint, validate_invitation, submit, login, status, update_status, current_status,
  execution_arn, validate_session, health,
}
use psr_pl.Documents.Server as DocumentServer
use psr_pl.Acceptance.Server as AcceptanceServer
use psr_pl.OfferSelection.Server as OfferServer
use psr_pl.Status.Server as StatusServer

application-IsDisjoint : IsDisjoint ApplicationServer.routes
unfolding ApplicationServer.routes route split_slash meet_path
application-IsDisjoint = refl

documents-IsDisjoint : IsDisjoint DocumentServer.routes
unfolding DocumentServer.routes route split_slash meet_path
documents-IsDisjoint = refl

acceptance-IsDisjoint : IsDisjoint AcceptanceServer.routes
unfolding AcceptanceServer.routes route split_slash meet_path
acceptance-IsDisjoint = refl

offers-IsDisjoint : IsDisjoint OfferServer.routes
unfolding OfferServer.routes route split_slash meet_path
offers-IsDisjoint = refl

status-IsDisjoint : IsDisjoint StatusServer.routes
unfolding StatusServer.routes route split_slash meet_path
status-IsDisjoint = refl

dispatch_route :
    {H : Type 0} (unescape : String → String) (routes : List (Route H)) (method path : String)
    → clean_path path ≡ path
    → dispatch unescape routes method path
      ≡ outcome routes
          (map unescape (tail (split_slash path)))
          (find_route routes method (map unescape (tail (split_slash path))))
unfolding dispatch
dispatch_route unescape routes method path canonical = rw (canonical, eq_refl path) (ground arith)

outcome_found :
    {H : Type 0} (routes : List (Route H)) (parts : List String) (o : Option (H × List String))
    (h : H) (values : List String)
    → outcome routes parts o ≡ found h values
    → o ≡ some (h, values)
outcome_found routes parts none h values e = absurd (without (allowed_methods routes parts) e)
  where
    without : (ms : List String) → without_route ms ≡ found h values → ⊥
    without [] g = absurd (ground arith)
    without (m ∷ ms) g = absurd (ground arith)
outcome_found routes parts (some (k, taken)) h values e = cc

-- Where each handler of application-management-service is served: methods and patterns.
abbrev pub served_at : Endpoint → List (String × String)
served_at validate_invitation = ("POST", "/api/v1/application-management/invitations/validate") ∷ []
served_at submit = ("POST", "/api/v1/application-management/applications") ∷ []
served_at login = ("POST", "/api/v1/application-management/applications/login") ∷ []
served_at status = ("GET", "/api/v1/application-management/applications/{id}/status") ∷ []
served_at update_status = ("PUT", "/internal/applications/{id}/status") ∷ []
served_at current_status = ("GET", "/internal/applications/{id}/status") ∷ []
served_at execution_arn = ("GET", "/internal/applications/{id}/execution") ∷ []
served_at validate_session = ("POST", "/internal/sessions/validate") ∷ []
served_at health = ("GET", "/healthz") ∷ ("GET", "/readyz") ∷ []

-- One of the methods and patterns matches, and its wildcards take the values.
abbrev pub MatchesOne : List (String × String) → String → List String → List String → Type 0
MatchesOne [] method parts values = ⊥
MatchesOne ((m, pattern) ∷ more) method parts values =
    (match_route (route m pattern tt) method parts ≡ some values)
    ⊎ MatchesOne more method parts values

-- A route that is another one is served where that one is.
same_route :
    (q r : Route Endpoint) (method : String) (parts values : List String)
    → q ≡ r
    → (match_route q method parts ≡ some values
        → MatchesOne (served_at q.handler) method parts values)
    → match_route r method parts ≡ some values
    → MatchesOne (served_at r.handler) method parts values
same_route q r method parts values e there m =
    subst
      (λ (x : Route Endpoint).
        match_route x method parts ≡ some values
        → MatchesOne (served_at x.handler) method parts values)
      e there m

-- What is registered for a handler is what it is served at.
registered_at :
    (r : Route Endpoint) (method : String) (parts values : List String)
    → IsRoute r ApplicationServer.routes
    → match_route r method parts ≡ some values
    → MatchesOne (served_at r.handler) method parts values
unfolding ApplicationServer.routes route
registered_at r method parts values (inl e) m = same_route _ r method parts values e (λ t. inl t) m
registered_at r method parts values (inr (inl e)) m =
    same_route _ r method parts values e (λ t. inl t) m
registered_at r method parts values (inr (inr (inl e))) m =
    same_route _ r method parts values e (λ t. inl t) m
registered_at r method parts values (inr (inr (inr (inl e)))) m =
    same_route _ r method parts values e (λ t. inl t) m
registered_at r method parts values (inr (inr (inr (inr (inl e))))) m =
    same_route _ r method parts values e (λ t. inl t) m
registered_at r method parts values (inr (inr (inr (inr (inr (inl e)))))) m =
    same_route _ r method parts values e (λ t. inl t) m
registered_at r method parts values (inr (inr (inr (inr (inr (inr (inl e))))))) m =
    same_route _ r method parts values e (λ t. inl t) m
registered_at r method parts values (inr (inr (inr (inr (inr (inr (inr (inl e)))))))) m =
    same_route _ r method parts values e (λ t. inl t) m
registered_at r method parts values (inr (inr (inr (inr (inr (inr (inr (inr (inl e))))))))) m =
    same_route _ r method parts values e (λ t. inl t) m
registered_at r method parts values (inr (inr (inr (inr (inr (inr (inr (inr (inr (inl e))))))))))
      m =
    same_route _ r method parts values e (λ t. inr (inl t)) m
registered_at r method parts values (inr (inr (inr (inr (inr (inr (inr (inr (inr (inr (b)))))))))))
      m =
    absurd b

served_registered :
    (h : Endpoint) (method : String) (parts values : List String)
    → MatchesOne (served_at h) method parts values
    → (r : Route Endpoint) × IsRoute r ApplicationServer.routes
      × (r.handler ≡ h)
      × (match_route r method parts ≡ some values)
unfolding ApplicationServer.routes route
served_registered validate_invitation method parts values (inl m) = (_, inl refl, refl, m)
served_registered validate_invitation method parts values (inr b) = absurd b
served_registered submit method parts values (inl m) = (_, inr (inl refl), refl, m)
served_registered submit method parts values (inr b) = absurd b
served_registered login method parts values (inl m) = (_, inr (inr (inl refl)), refl, m)
served_registered login method parts values (inr b) = absurd b
served_registered status method parts values (inl m) = (_, inr (inr (inr (inl refl))), refl, m)
served_registered status method parts values (inr b) = absurd b
served_registered update_status method parts values (inl m) =
    (_, inr (inr (inr (inr (inl refl)))), refl, m)
served_registered update_status method parts values (inr b) = absurd b
served_registered current_status method parts values (inl m) =
    (_, inr (inr (inr (inr (inr (inl refl))))), refl, m)
served_registered current_status method parts values (inr b) = absurd b
served_registered execution_arn method parts values (inl m) =
    (_, inr (inr (inr (inr (inr (inr (inl refl)))))), refl, m)
served_registered execution_arn method parts values (inr b) = absurd b
served_registered validate_session method parts values (inl m) =
    (_, inr (inr (inr (inr (inr (inr (inr (inl refl))))))), refl, m)
served_registered validate_session method parts values (inr b) = absurd b
served_registered health method parts values (inl m) =
    (_, inr (inr (inr (inr (inr (inr (inr (inr (inl refl)))))))), refl, m)
served_registered health method parts values (inr (inl m)) =
    (_, inr (inr (inr (inr (inr (inr (inr (inr (inr (inl refl))))))))), refl, m)
served_registered health method parts values (inr (inr b)) = absurd b

-- On a canonical path a request to application-management-service reaches a handler, with the values
-- of the wildcards, exactly if one of the methods and patterns that the handler is served at
-- (`served_at`) matches with these values.
pub dispatch_iff :
    (unescape : String → String) (method path : String) (h : Endpoint) (values : List String)
    → clean_path path ≡ path
    → (dispatch unescape ApplicationServer.routes method path ≡ found h values)
      ↔ MatchesOne (served_at h) method (map unescape (tail (split_slash path))) values
dispatch_iff unescape method path h values canonical =
    let routes = ApplicationServer.routes in
    let parts = map unescape (tail (split_slash path)) in
    let step = dispatch_route unescape routes method path canonical in
    (
      λ e.
          let (r, there, own, m) =
            find_route_registered routes method parts h values (
              outcome_found routes parts (find_route routes method parts) h values
                (sym step ∙ e)) in
          rw own at (registered_at r method parts values there m),
      λ m.
          let (r, there, own, taken) = served_registered h method parts values m in
          let reached =
            find_route_lem routes r method parts values application-IsDisjoint there taken in
          step ∙ rw (reached, own) refl,
    )
