-- ===== src/Broker/Types.antt =====
-- The data of the broker: what it serves for whom, what it holds, and what it answers (src/broker/mod.rs and
-- src/broker/key.rs). The texts of refusals and of log lines are left out. Times are seconds since the epoch.
use litellm_relay.Common.{
  String, ℕ, Bool, true, false, ◌&&◌, Option, none, some, List, ◌==◌, string_eq, nat_eq, option_eq,
  if◌then◌else◌,
}
use litellm_relay.Common.Sorted.{BTreeMap}
use litellm_relay.Mcp.Verdict.Words.{CharClasses, chars}
use litellm_relay.AiTools.Idp.{IdpSection, is_configured, trim, of_chars, skip_end}
use litellm_relay.AiTools.Token.{CachedSession, SignIn, allowed, cached_only}
use litellm_relay.AiTools.Credential.Types.{CachedCredential}
use litellm_relay.Broker.Caller.{AllowedCaller, effective_callers, unanchored_callers}
use litellm_relay.Config.Settings.{RelaySettings, with_team, with_gateway}
use litellm_relay.Config.Environments.{
  is_slash, non_empty, managed_team, current_environment, name_of,
}

abbrev pub key_lifetime_seconds : ℕ
key_lifetime_seconds = 3600

abbrev pub key_half_life_seconds : ℕ
key_half_life_seconds = 1800

pub data Context : Type 0 where
  interactive non_interactive : Context

-- `Context::sign_in`
abbrev pub sign_in_of : Context → SignIn
sign_in_of interactive = allowed
sign_in_of non_interactive = cached_only

pub data Request : Type 0 where
  credential : Context → Request
  proxy_credential : Context → Request
  sign_in : Request
  sign_out : Request
  status : Request
  switch_team : String → Request
  switch_environment : String → Request
  recheck : Request

pub data Source : Type 0 where
  minted_key session_credential identity_token static_key proxy_token : Source

-- Why a bearer is not the one that was asked for.
pub data Notice : Type 0 where
  no_exchange : (gateway_url : String) → Notice
  team_permission_missing : (team : String) → Notice
  mint_failed : (team : String) → Notice

pub record Issued : Type 0 where
  pub token : String
  pub expires_at : Option ℕ
  pub source : Source
  pub notice : Option Notice

pub data Refusal : Type 0 where
  caller_refused signed_out sign_in_failed gateway_error bad_request unknown_environment
        unknown_team switch_failed static_key :
      Refusal

pub record ProxyBearer : Type 0 where
  pub token : String
  pub gateway_url : String

pub record BrokerStatus : Type 0 where
  pub signed_in : Bool
  pub user_id : Option String
  pub display_name : Option String
  pub team : Option String
  pub environment : Option String
  pub gateway_url : String
  pub key_expires_at : Option ℕ
  pub key_extended_at : Option ℕ
  pub source : Option Source
  pub refused_callers : ℕ

pub record Switched : Type 0 where
  pub team : Option String
  pub environment : Option String
  pub gateway_url : String
  pub key_expires_at : Option ℕ
  pub source : Option Source

-- `Reply`, without `Refused`, which the operations here fail with.
pub data Reply : Type 0 where
  credential : Issued → Reply
  signed_in : (user_id : Option String) → Reply
  signed_out : Reply
  status : BrokerStatus → Reply
  switched : Switched → Reply

-- `Unconfigured` keeps its hint, which depends on an authorize_url that is not used any more.
pub data Mode : Type 0 where
  idp : IdpSection → Mode
  static_key : String → Mode
  unconfigured : (blank_authorize_url : Bool) → Mode

abbrev pub is_idp : Mode → Bool
is_idp (idp _) = true
is_idp (static_key _) = false
is_idp (unconfigured _) = false

abbrev pub same_idp : IdpSection → IdpSection → Bool
same_idp a b =
    a.issuer == b.issuer
    && a.client_id == b.client_id
    && a.scopes == b.scopes
    && a.redirect_port == b.redirect_port
    && a.authorize_url == b.authorize_url

abbrev pub same_bool : Bool → Bool → Bool
same_bool true b = b
same_bool false b = if b then false else true

-- `==` on modes
abbrev pub same_mode : Mode → Mode → Bool
same_mode (idp a) (idp b) = same_idp a b
same_mode (static_key a) (static_key b) = a == b
same_mode (unconfigured a) (unconfigured b) = same_bool a b
same_mode (idp _) _ = false
same_mode (static_key _) _ = false
same_mode (unconfigured _) _ = false

abbrev pub mode_of_key : Bool → Option String → Mode
mode_of_key blank none = unconfigured blank
mode_of_key blank (some key) = static_key key

abbrev pub no_chars : String → Bool
no_chars text = text == ""

-- `Mode::from_settings`
unfoldable pub mode_from_settings : CharClasses → RelaySettings → Mode
mode_from_settings classes settings =
    if is_configured classes settings.idp
    then idp (record settings.idp { authorize_url = "" })
    else mode_of_key (no_chars (of_chars (trim classes settings.idp.authorize_url)))
        (non_empty classes settings.gateway.api_key)

pub record Target : Type 0 where
  pub version : Option ℕ
  pub mode : Mode
  pub gateway_url : String
  pub team : Option String
  pub environment : Option String
  pub callers : List AllowedCaller
  pub unanchored : List AllowedCaller

-- `Target::from_settings`
unfoldable pub target_from_settings : CharClasses → RelaySettings → Option ℕ → Target
target_from_settings classes settings version = record {
  version = version;
  mode = mode_from_settings classes settings;
  gateway_url = of_chars (skip_end is_slash (chars settings.gateway.url));
  team = managed_team classes settings;
  environment = name_of (current_environment classes settings);
  callers = effective_callers settings.credential.allowed_callers;
  unanchored = unanchored_callers settings.credential.allowed_callers;
}

pub data GatewayPatch : Type 0 where
  team : Option String → GatewayPatch
  environment :
      (url : String) (team : Option String) (team_by_environment : BTreeMap String) → GatewayPatch

-- `GatewayPatch::applied_to`
abbrev pub applied_to : GatewayPatch → RelaySettings → RelaySettings
applied_to (GatewayPatch.team t) settings = with_team t settings
applied_to (GatewayPatch.environment url t parked) settings = with_gateway url t parked settings

abbrev pub switch_refusal : Refusal → Refusal
switch_refusal Refusal.signed_out = Refusal.signed_out
switch_refusal _ = switch_failed

pub record MintedKey : Type 0 where
  pub token : String
  pub gateway_url : String
  pub alias : String
  pub expires_at : ℕ
  pub extended_at : Option ℕ
  pub extension_failed : Bool

pub record StickyRefusal : Type 0 where
  pub credential_issued_at : ℕ
  pub notice : Notice

pub record State : Type 0 where
  pub session : Option CachedSession
  pub credential : Option CachedCredential
  pub key : Option MintedKey
  pub mint_refusal : Option StickyRefusal
  pub last_source : Option Source
  pub refused_callers : ℕ
  pub proxy_token : Option String
  pub completed_sign_ins : ℕ
  pub pending_sign_in_page : Option String
  pub explicit_sign_in_running : Bool

pub record GatewayHold : Type 0 where
  pub key : Option MintedKey
  pub credential : Option CachedCredential
  pub mint_refusal : Option StickyRefusal
  pub last_source : Option Source

pub data Bearer : Type 0 where
  credential : CachedCredential → Bearer
  identity_token : (token : String) (expires_at : ℕ) → Bearer

pub record MintRequest : Type 0 where
  pub team_id : String
  pub alias : String
  pub hostname : String

pub record Minted : Type 0 where
  pub token : String
  pub expires_at : Option ℕ

pub data MintRefusal : Type 0 where
  team_permission unauthorized other : MintRefusal

pub data MintOutcome : Type 0 where
  minted : Minted → MintOutcome
  refused : MintRefusal → MintOutcome

pub data ExtendOutcome : Type 0 where
  extended : (expires_at : Option ℕ) → ExtendOutcome
  unauthorized : ExtendOutcome

pub data KeyOutcome : Type 0 where
  issued : Issued → KeyOutcome
  dead_bearer : KeyOutcome
