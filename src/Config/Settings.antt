-- ===== src/Config/Settings.antt =====
-- The settings of src/config.rs that the daemon decides by. The sections that the code here only carries
-- along are one JSON document.
use litellm_relay.Common.{
  String, ℕ, Bool, true, ◌&&◌, ◌≡◌, ◌↔◌, Option, List, Eq, ◌==◌, ==_iff, string_eq, option_eq,
  arith,
}
use litellm_relay.Common.Sorted.{BTreeMap}
use litellm_relay.Json.{Value}
use litellm_relay.AiTools.Idp.{IdpSection}
use litellm_relay.Broker.Caller.{AllowedCaller}
use litellm_relay.Mcp.Service.Types.{McpSection}

pub record EnvironmentEntry : Type 0 where
  pub name : String
  pub url : String
  pub team : Option String

abbrev pub same_entry : EnvironmentEntry → EnvironmentEntry → Bool
same_entry a b = a.name == b.name && a.url == b.url && a.team == b.team

pub same_entry_iff : (a b : EnvironmentEntry) → (same_entry a b ≡ true) ↔ (a ≡ b)
same_entry_iff a b = ground (arith, ==_iff a.name b.name, ==_iff a.url b.url, ==_iff a.team b.team)

instance abbrev pub entry_eq : Eq EnvironmentEntry
entry_eq = record { eq = same_entry; decides = same_entry_iff }

pub record GatewaySection : Type 0 where
  pub url : String
  pub api_key : Option String
  pub enrolled_at : Option ℕ
  pub expires_at : Option ℕ
  pub team : Option String
  pub team_by_environment : BTreeMap String

-- `ClaudeSection` and `CodexSection`, of which the team is read.
pub record ToolSection : Type 0 where
  pub team : Option String
  pub rest : Value

pub record CredentialSection : Type 0 where
  pub allowed_callers : Option (List AllowedCaller)
  pub rest : Value

pub record RelaySettings : Type 0 where
  pub gateway : GatewaySection
  pub idp : IdpSection
  pub claude : ToolSection
  pub codex : ToolSection
  pub credential : CredentialSection
  pub mcp : McpSection
  pub environments : List EnvironmentEntry
  pub rest : Value

-- `GatewaySection { team, ..gateway }`, and the same with the URL and the parked teams.
abbrev pub with_team : Option String → RelaySettings → RelaySettings
with_team team s = record s { gateway = record s.gateway { team = team } }

abbrev pub with_parked : BTreeMap String → RelaySettings → RelaySettings
with_parked parked s = record s { gateway = record s.gateway { team_by_environment = parked } }

abbrev pub with_gateway : String → Option String → BTreeMap String → RelaySettings → RelaySettings
with_gateway url team parked s = record s {
  gateway = record s.gateway { url = url; team = team; team_by_environment = parked };
}
