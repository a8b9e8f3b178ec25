-- ===== src/AiTools/Credential/Store.antt =====
-- The store of credentials and the bearer of a token hook (`upsert`, `ensure_gateway_credential` and
-- `helper_bearer` in src/ai_tools/gateway_credential.rs).
use litellm_relay.Common.{
  String, ℕ, Bool, true, false, ◌&&◌, not, Option, none, some, List, [], ◌∷◌, ◌++◌, ◌==◌, string_eq,
  option_eq, filter,
}
use litellm_relay.Common.Action.{Result, ok, err, Action, pure, fail, ◌>>=◌, ◌>>◌}
use litellm_relay.AiTools.Token.{Failure}
use litellm_relay.AiTools.Credential.Types.{
  CredentialRequest, Error, exchange_refused, sign_in_failed, other, CachedCredential, Resolved,
  AuthorizationServer,
}
use litellm_relay.AiTools.Credential.Resolve.{fresh, resolve}

-- (gateway_url, team) == replaced
abbrev pub same_place : CachedCredential → CachedCredential → Bool
same_place a b = a.gateway_url == b.gateway_url && a.team == b.team

unfoldable pub upsert : List CachedCredential → CachedCredential → List CachedCredential
upsert store c = filter (λ existing. not (same_place existing c)) store ++ c ∷ []

pub data GatewayCredential : Type 0 where
  issued : String → GatewayCredential
  unsupported : GatewayCredential

pub data HelperBearer : Type 0 where
  credential : String → HelperBearer
  identity_token : String → HelperBearer

-- The cache file and its lock, for which other processes are waited for, and the clock.
pub record StoreFile (S : Type 0) : Type 0 where
  pub load_store : Action S Error (List CachedCredential)
  pub save_store : List CachedCredential → Action S Error (Unit {0})
  pub lock_store : Action S Error (Unit {0})
  pub now : Action S Error ℕ

module _ {S : Type 0} (server : AuthorizationServer S) (token : Action S Failure String)
    (file : StoreFile S) where
  unfoldable pub save_changed : List CachedCredential → Resolved → Action S Error GatewayCredential
  save_changed store Resolved.unsupported = pure GatewayCredential.unsupported
  save_changed store (Resolved.issued c true) = do
    file.save_store (upsert store c)
    pure (issued c.access_token)
  save_changed store (Resolved.issued c false) = pure (issued c.access_token)

  unfoldable pub renewed_under_lock : CredentialRequest → Action S Error GatewayCredential
  renewed_under_lock request = do
    file.lock_store
    store ← file.load_store
    now ← file.now
    resolved ← resolve server token store request now
    save_changed store resolved

  unfoldable pub fresh_or_renewed :
      CredentialRequest → Option CachedCredential → Action S Error GatewayCredential
  fresh_or_renewed request (some c) = pure (issued c.access_token)
  fresh_or_renewed request none = renewed_under_lock request

  unfoldable pub ensure_gateway_credential : CredentialRequest → Action S Error GatewayCredential
  ensure_gateway_credential request = do
    unlocked ← file.load_store
    now ← file.now
    fresh_or_renewed request (fresh unlocked request now)

  abbrev pub token_as_bearer : Action S Failure String → Action S Error HelperBearer
  token_as_bearer m s = let (r, s') = m s in (as_bearer r, s')
    where
      as_bearer : Result Failure String → Result Error HelperBearer
      as_bearer (ok t) = ok (identity_token t)
      as_bearer (err e) = err (sign_in_failed e)

  abbrev pub helper_bearer : Result Error GatewayCredential → Action S Error HelperBearer
  helper_bearer (ok (issued t)) = pure (credential t)
  helper_bearer (ok GatewayCredential.unsupported) = token_as_bearer token
  helper_bearer (err exchange_refused) = fail exchange_refused
  helper_bearer (err (sign_in_failed e)) = fail (sign_in_failed e)
  helper_bearer (err (other e)) = token_as_bearer token
