-- ===== src/Http/Server.antt =====
-- What a handler writes: a status code, and a JSON value or an error's message.
use psr_pl.Base.{ℕ, String, if◌then◌else◌}
use Prim.Native.String.{len, slice}
use text.Mathlib.Text.{starts_with}
use psr_pl.Go.{Error}

pub data Body {ℓ} (A : Type ℓ) : Type ℓ where
  json : A → Body A
  message : Error → Body A

pub record Reply {ℓ} (A : Type ℓ) : Type ℓ where
  pub status : ℕ
  pub body : Body A

abbrev pub write_json {ℓ} : {A : Type ℓ} → ℕ → A → Reply A
write_json status a = record { status = status; body = json a }

abbrev pub write_error {ℓ} : {A : Type ℓ} → ℕ → Error → Reply A
write_error status e = record { status = status; body = message e }

-- The token behind "Bearer " in the Authorization header, and "" if the header has another form.
unfoldable pub bearer_token : String → String
bearer_token auth = if starts_with auth "Bearer " then slice auth (len "Bearer ") (len auth) else ""
