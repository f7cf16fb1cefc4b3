-- ===== src/Http/Bearer.antt =====
-- The token of an Authorization header.

use Prim.Native.String.{String, ◌++◌}
use mathlib.Core.Path.{◌≡◌}
use text.Mathlib.TextPositions.{starts_with-append, len-append, slice-append_right}
use psr_pl.Http.Server.{bearer_token}

-- The header "Bearer t" carries the token t, whatever t is.
pub bearer_token-append : (token : String) → bearer_token ("Bearer " ++ token) ≡ token
unfolding bearer_token
bearer_token-append token =
    rw (starts_with-append "Bearer " token, len-append "Bearer " token)
      (slice-append_right "Bearer " token)
