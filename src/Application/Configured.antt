-- ===== src/Application/Configured.antt =====
-- When application-management-service starts, and with which settings.
use psr_pl.Base.{
  String, List, [], ◌∷◌, ◌==◌, if◌then◌else◌, ◌≡◌, ◌≢◌, ◌⊎◌, inl, inr, refl, arith, eq_iff, ◌++◌,
  All, Bool-cases,
}
use psr_pl.Web.{Environment, missing, started, require_env, env_or_default}
use psr_pl.Application.Server.{settings}

-- The variables that must be set.
abbrev pub required_variables : List String
required_variables =
    "APPLICATION_TABLE_NAME" ∷ "OFFERLOG_BASE_URL" ∷ "PRICING_STATE_MACHINE_ARN" ∷ []

-- Either every required variable is set, and the service starts with their values and with the port
-- of `PORT` or 8081; or it exits and names a required variable that is not set, all before which in
-- the order of the list are set.
pub settings_lem :
    (env : Environment)
    → (All (λ key. env key ≢ "") required_variables
        × (settings env
            ≡ started (record {
              table_name = env "APPLICATION_TABLE_NAME";
              offer_log_url = env "OFFERLOG_BASE_URL";
              state_machine_arn = env "PRICING_STATE_MACHINE_ARN";
              port = if env "PORT" == "" then "8081" else env "PORT";
            })))
      ⊎ ((before : List String) × (key : String) × (after : List String) × (required_variables
            ≡ before ++ key ∷ after)
          × All (λ k. env k ≢ "") before
          × (env key ≡ "")
          × (settings env ≡ missing key))
unfolding settings require_env env_or_default
settings_lem env = elim (Bool-cases (env "APPLICATION_TABLE_NAME" == "")) [
  | inl none ↦ inr (
    [],
    "APPLICATION_TABLE_NAME",
    _,
    refl,
    tt,
    ground (arith, eq_iff (env "APPLICATION_TABLE_NAME") ""),
    ground arith,
  )
  | inr table ↦ elim (Bool-cases (env "OFFERLOG_BASE_URL" == "")) [
    | inl none ↦ inr (
      "APPLICATION_TABLE_NAME" ∷ [],
      "OFFERLOG_BASE_URL",
      _,
      refl,
      (ground (arith, eq_iff (env "APPLICATION_TABLE_NAME") ""), tt),
      ground (arith, eq_iff (env "OFFERLOG_BASE_URL") ""),
      ground arith,
    )
    | inr log ↦ elim (Bool-cases (env "PRICING_STATE_MACHINE_ARN" == "")) [
      | inl none ↦ inr (
        "APPLICATION_TABLE_NAME" ∷ "OFFERLOG_BASE_URL" ∷ [],
        "PRICING_STATE_MACHINE_ARN",
        _,
        refl,
        (
          ground (arith, eq_iff (env "APPLICATION_TABLE_NAME") ""),
          (ground (arith, eq_iff (env "OFFERLOG_BASE_URL") ""), tt),
        ),
        ground (arith, eq_iff (env "PRICING_STATE_MACHINE_ARN") ""),
        ground arith,
      )
      | inr machine ↦ inl (
        (
          ground (arith, eq_iff (env "APPLICATION_TABLE_NAME") ""),
          (
            ground (arith, eq_iff (env "OFFERLOG_BASE_URL") ""),
            (ground (arith, eq_iff (env "PRICING_STATE_MACHINE_ARN") ""), tt),
          ),
        ),
        ground arith,
      )
    ]
  ]
]
