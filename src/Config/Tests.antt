-- ===== src/Config/Tests.antt =====
-- Runs of the environments of src/config.rs.
use litellm_relay.Common.{String, ◌≡◌, refl, arith, none, some, [], ◌∷◌, string_eq, ==_iff, find}
use litellm_relay.Common.Sorted.{lookup, insert}
use litellm_relay.Json.{null}
use litellm_relay.Mcp.Verdict.Tests.{ascii}
use litellm_relay.AiTools.Idp.{trim}
use litellm_relay.Config.Settings.{EnvironmentEntry, ToolSection, RelaySettings}
use litellm_relay.Config.Environments.{
  bare, tidy, non_empty, environment_with_url, current_environment, move_gateway_to,
  on_the_default_gateway, managed_team, environment_named,
}
use litellm_relay.Config.Carrying.{carrying_install_picks}
use litellm_relay.Config.Trimming.{IsTrimmed}
use litellm_relay.Config.Moving.{move_gateway_to-back, managed_team-IsTrimmed}
use litellm_relay.Config.Picks.{IsParked, IsCarried, carrying_install_picks-IsCarried}

abbrev pub production : EnvironmentEntry
production = record { name = "production"; url = "https://gateway.example/"; team = none }

abbrev pub staging : EnvironmentEntry
staging = record { name = "staging"; url = "https://staging.example"; team = some "qa" }

abbrev pub no_team : ToolSection
no_team = record { team = none; rest = null }

abbrev pub settings : RelaySettings
settings = record {
  gateway = record {
    url = "https://gateway.example";
    api_key = none;
    enrolled_at = none;
    expires_at = none;
    team = some "core";
    team_by_environment = [];
  };
  idp = record {
    issuer = "https://idp.example";
    client_id = "relay";
    scopes = none;
    redirect_port = none;
    authorize_url = "";
  };
  claude = record { team = some "claude"; rest = null };
  codex = no_team;
  credential = record { allowed_callers = none; rest = null };
  mcp = record { allow = none; max_concurrent_calls = none; tool_prefix_separator = none };
  environments = production ∷ staging ∷ [];
  rest = null;
}

abbrev on_staging : RelaySettings
on_staging = record settings {
  gateway = record settings.gateway { url = "https://staging.example"; team = none };
}

environments : Unit {0}
unfolding bare tidy trim non_empty environment_with_url current_environment move_gateway_to
    on_the_default_gateway managed_team environment_named find lookup insert
environments = tt

moving_test :
    ((move_gateway_to ascii " https://staging.example// " settings).gateway.team_by_environment
      ≡ ("production", "core") ∷ [])
    × (managed_team ascii settings ≡ some "core")
    × (managed_team ascii on_staging ≡ some "qa")
unfolding environments
moving_test = (refl, refl, refl)

move_gateway_to-back_example :
    let moved =
      move_gateway_to ascii "https://gateway.example"
        (move_gateway_to ascii "https://staging.example" settings) in
    (moved.gateway.team ≡ some "core")
    × (lookup "old" moved.gateway.team_by_environment
        ≡ lookup "old" settings.gateway.team_by_environment)
unfolding environments
move_gateway_to-back_example =
    move_gateway_to-back ascii "https://staging.example" "https://gateway.example" settings
      production staging "core" refl refl refl refl refl
      (λ e. ground (arith, ==_iff {A = String} "production" "staging")) refl "old"
      (λ e. ground (arith, ==_iff {A = String} "old" "production"))
      (λ e. ground (arith, ==_iff {A = String} "old" "staging"))

managed_team-IsTrimmed_example : IsTrimmed ascii "core"
unfolding environments
managed_team-IsTrimmed_example = managed_team-IsTrimmed ascii settings "core" refl

settings-IsParked : IsParked ascii settings
unfolding environments
settings-IsParked name team e = ground arith

carrying_install_picks-IsCarried_example :
    IsCarried ascii settings (carrying_install_picks ascii settings on_staging (some settings))
carrying_install_picks-IsCarried_example =
    carrying_install_picks-IsCarried ascii settings on_staging (some settings) settings-IsParked
