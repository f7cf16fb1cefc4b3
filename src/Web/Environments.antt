-- ===== src/Web/Environments.antt =====
-- The settings that `main` of cmd/server/main.go reads before it builds its clients: `requireEnv`
-- and `envOrDefault`. An environment gives "" for a variable that is not set, as `os.Getenv` does.
use psr_pl.Go.{Error, Result, ok, err}
use psr_pl.Base.{String, ◌==◌, if◌then◌else◌}

abbrev pub Environment : Type 0
Environment = String → String

-- A value, or `os.Exit(1)` after a variable's name or an error was logged.
pub data Startup (A : Type 0) : Type 0 where
  started : A → Startup A
  missing : String → Startup A
  failed : Error → Startup A

unfoldable pub require_env : Environment → String → Startup String
require_env env key = let value = env key in if value == "" then missing key else started value

unfoldable pub env_or_default : Environment → String → String → String
env_or_default env key fallback = let value = env key in if value == "" then fallback else value

infixl 5 ◌>>=◌ ◌>>◌
abbrev pub ◌>>=◌ : {A B : Type 0} → Startup A → (A → Startup B) → Startup B
started a >>= k = k a
missing key >>= k = missing key
failed e >>= k = failed e

abbrev pub ◌>>◌ : {A B : Type 0} → Startup A → Startup B → Startup B
m >> n = m >>= λ _. n

-- `awsconfig.LoadDefaultConfig`, by its answer.
abbrev pub load_config : Result (Unit {0}) → Startup (Unit {0})
load_config (ok u) = started tt
load_config (err e) = failed e
