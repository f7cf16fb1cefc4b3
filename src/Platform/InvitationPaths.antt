-- ===== src/Platform/InvitationPaths.antt =====
-- The two paths of OfferLog reach their handlers in offerlog-mock.
use Prim.Native.String
use package.text.Mathlib.TextLemmas.{append_assoc}
use psr_pl.Base.{String, [], ◌∷◌, ◌≡◌, refl, sym, arith, eq_iff}
use psr_pl.Web.{route, split_slash, match_path, find_route, dispatch, found, join_slash}
use psr_pl.OfferLogMock.Server.{routes, validate, put_status}
use psr_pl.Platform.Network.{IsPathId}
use psr_pl.Platform.Dispatch.{Unescapes, dispatch_path, status-IsPathId, validate-IsPathId}

invitations-IsPathId : IsPathId "invitations"
invitations-IsPathId = record { plain = (omega arith, cc, cc, cc); verbatim = omega arith }

invitation_path :
    (id : String)
    → String.◌++◌ "/invitations/" (String.◌++◌ id "/status")
      ≡ join_slash ("invitations" ∷ id ∷ "status" ∷ [])
unfolding join_slash
invitation_path id =
    let t = String.◌++◌ id "/status" in
    rw
      (
        sym (append_assoc "/" "invitations" (String.◌++◌ "/" t)),
        sym (append_assoc "/invitations" "/" t),
      )
      refl

module _ (unescape : String → String) (unescapes : Unescapes unescape) where
  pub dispatch-put_status :
      (id : String)
      → IsPathId id
      → dispatch unescape routes "PUT" (String.◌++◌ "/invitations/" (String.◌++◌ id "/status"))
        ≡ found put_status (id ∷ [])
  unfolding find_route routes route split_slash match_path
  dispatch-put_status id p =
      rw
        (
          invitation_path id,
          dispatch_path unescape unescapes routes "PUT" "invitations" (id ∷ "status" ∷ [])
              (invitations-IsPathId, (p, (status-IsPathId, tt))),
        )
        (ground (arith, eq_iff id "", p.plain))

  pub dispatch-validate :
      dispatch unescape routes "POST" "/invitations/validate" ≡ found validate []
  unfolding find_route routes route split_slash match_path join_slash
  dispatch-validate =
      rw
        (dispatch_path unescape unescapes routes "POST" "invitations" ("validate" ∷ [])
          (invitations-IsPathId, (validate-IsPathId, tt)))
        refl
