-- ===== src/AiTools/Credential/Types.antt =====
-- The data of src/ai_tools/gateway_credential.rs. Times are seconds since the epoch.
use Prim.Native.Nat.{◌/◌}
use litellm_relay.Common.{
  String, ℕ, ◌+◌, ◌-◌, Bool, ◌&&◌, Option, if◌then◌else◌, leb, ltb, ◌==◌, string_eq, option_eq,
  unwrap_or, or_option,
}
use litellm_relay.Common.Action.{Action}
use litellm_relay.AiTools.Token.{Failure}

abbrev pub credential_refresh_skew_seconds : ℕ
credential_refresh_skew_seconds = 600

abbrev pub assumed_credential_lifetime_seconds : ℕ
assumed_credential_lifetime_seconds = 3600

pub data Renewal : Type 0 where
  near_expiry half_life : Renewal

pub record CredentialRequest : Type 0 where
  pub gateway_url : String
  pub team : Option String
  pub renewal : Renewal

pub record AuthorizationServerDocument : Type 0 where
  pub token_endpoint : String
  pub registration_endpoint : String
  pub resource : Option String

pub data Discovery : Type 0 where
  supported : AuthorizationServerDocument → Discovery
  unsupported : Discovery

pub record IssuedTokens : Type 0 where
  pub access_token : String
  pub refresh_token : Option String
  pub expires_in : Option ℕ
  pub user_id : Option String
  pub team_id : Option String

-- `OAuthError`
pub record OauthError : Type 0 where
  pub error : String
  pub error_description : String

pub data TokenReply : Type 0 where
  issued : IssuedTokens → TokenReply
  refused : (status : ℕ) (error : OauthError) → TokenReply

pub data Grant : Type 0 where
  exchange : (client_id subject_token : String) (team : Option String) → Grant
  refresh : (client_id refresh_token : String) → Grant

-- The errors that the callers tell apart: `ExchangeRefused`, `SignInFailed` with its cause, any other.
pub data Error : Type 0 where
  exchange_refused : Error
  sign_in_failed : Failure → Error
  other : String → Error

pub record CachedCredential : Type 0 where
  pub gateway_url : String
  pub team : Option String
  pub client_id : String
  pub access_token : String
  pub refresh_token : Option String
  pub expires_at : ℕ
  pub issued_at : ℕ
  pub user_id : Option String
  pub team_id : Option String

pub data Resolved : Type 0 where
  issued : (credential : CachedCredential) (changed : Bool) → Resolved
  unsupported : Resolved

abbrev pub matches : CachedCredential → CredentialRequest → Bool
matches c request = c.gateway_url == request.gateway_url && c.team == request.team

-- expires_at - now > (expires_at - issued_at) / 2, on i64, whose division rounds towards zero
abbrev pub half_is_left : CachedCredential → ℕ → Bool
half_is_left c now =
    if leb c.issued_at c.expires_at
    then ltb (now + (c.expires_at - c.issued_at) / 2) c.expires_at
    else ltb now (c.expires_at + (c.issued_at - c.expires_at) / 2)

unfoldable pub is_fresh : CachedCredential → ℕ → Renewal → Bool
is_fresh c now near_expiry = ltb (now + credential_refresh_skew_seconds) c.expires_at
is_fresh c now half_life = half_is_left c now

abbrev pub is_valid : CachedCredential → ℕ → Bool
is_valid c now = ltb now c.expires_at

abbrev pub dead : CachedCredential → ℕ → CachedCredential
dead c now = record c { expires_at = now }

abbrev pub expires_at : Option ℕ → ℕ → ℕ
expires_at expires_in now = now + unwrap_or assumed_credential_lifetime_seconds expires_in

abbrev pub issued_credential : CredentialRequest → String → IssuedTokens → ℕ → CachedCredential
issued_credential request client_id tokens now = record {
  gateway_url = request.gateway_url;
  team = request.team;
  client_id = client_id;
  access_token = tokens.access_token;
  refresh_token = tokens.refresh_token;
  expires_at = expires_at tokens.expires_in now;
  issued_at = now;
  user_id = tokens.user_id;
  team_id = tokens.team_id;
}

abbrev pub renewed_credential : CachedCredential → IssuedTokens → ℕ → CachedCredential
renewed_credential c tokens now = record {
  gateway_url = c.gateway_url;
  team = c.team;
  client_id = c.client_id;
  access_token = tokens.access_token;
  refresh_token = or_option tokens.refresh_token c.refresh_token;
  expires_at = expires_at tokens.expires_in now;
  issued_at = now;
  user_id = or_option tokens.user_id c.user_id;
  team_id = or_option tokens.team_id c.team_id;
}

-- `AuthorizationServer`, with the state that its calls move on.
pub record AuthorizationServer (S : Type 0) : Type 0 where
  pub discover : String → Action S Error Discovery
  pub register : String → Action S Error String
  pub token : AuthorizationServerDocument → Grant → Action S Error TokenReply
