-- ===== src/AiTools/Credential/Resolve.antt =====
-- `resolve`: a cached credential, or one that is renewed (src/ai_tools/gateway_credential.rs).
use litellm_relay.Common.{
  String, ℕ, true, false, Option, none, some, List, if◌then◌else◌, ◌==◌, string_eq, find,
  filter_option, map_option,
}
use litellm_relay.Common.Action.{Result, ok, err, map_error, Action, pure, lift, attempt, ◌>>=◌}
use litellm_relay.AiTools.Token.{Failure}
use litellm_relay.AiTools.Credential.Types.{
  CredentialRequest, AuthorizationServerDocument, Discovery, IssuedTokens, TokenReply, refused,
  exchange, refresh, Error, exchange_refused, sign_in_failed, other, CachedCredential, Resolved,
  matches, is_fresh, is_valid, issued_credential, renewed_credential, AuthorizationServer,
}

pub data ExchangeReply : Type 0 where
  issued : IssuedTokens → ExchangeReply
  unknown_client : ExchangeReply

unfoldable pub cached_for : List CachedCredential → CredentialRequest → Option CachedCredential
cached_for store request = find (λ c. matches c request) store

unfoldable pub fresh : List CachedCredential → CredentialRequest → ℕ → Option CachedCredential
fresh store request now =
    filter_option (λ c. is_fresh c now request.renewal) (cached_for store request)

module _ {S : Type 0} (server : AuthorizationServer S)
    (identity_token : Action S Failure String) where
  abbrev pub refresh_reply : TokenReply → Option IssuedTokens
  refresh_reply (TokenReply.issued tokens) = some tokens
  refresh_reply (refused _ _) = none

  unfoldable pub refresh_with :
      AuthorizationServerDocument
      → CachedCredential
      → Option String
      → Action S Error (Option IssuedTokens)
  refresh_with document c none = pure none
  refresh_with document c (some refresh_token) = do
    reply ← server.token document (refresh c.client_id refresh_token)
    pure (refresh_reply reply)

  -- `refresh`
  abbrev pub refreshed :
      AuthorizationServerDocument → CachedCredential → Action S Error (Option IssuedTokens)
  refreshed document c = refresh_with document c c.refresh_token

  abbrev pub exchange_reply : TokenReply → Result Error ExchangeReply
  exchange_reply (TokenReply.issued tokens) = ok (issued tokens)
  exchange_reply (refused status error) =
      if error.error == "invalid_client" then ok unknown_client else err exchange_refused

  unfoldable pub attempt_exchange :
      AuthorizationServerDocument → String → String → Option String → Action S Error ExchangeReply
  attempt_exchange document client_id subject_token team = do
    reply ← server.token document (exchange client_id subject_token team)
    lift (exchange_reply reply)

  abbrev pub recognized : String → ExchangeReply → Result Error (String × IssuedTokens)
  recognized client_id (issued tokens) = ok (client_id, tokens)
  recognized client_id unknown_client =
      err (other "the gateway does not recognize the client it just registered")

  -- A client is registered, and the exchange tried once more.
  unfoldable pub exchange_anew :
      AuthorizationServerDocument
      → String
      → CredentialRequest
      → Action S Error (String × IssuedTokens)
  exchange_anew document subject_token request = do
    client_id ← server.register document.registration_endpoint
    reply ← attempt_exchange document client_id subject_token request.team
    lift (recognized client_id reply)

  unfoldable pub exchanged_or_anew :
      AuthorizationServerDocument
      → String
      → CredentialRequest
      → String
      → ExchangeReply
      → Action S Error (String × IssuedTokens)
  exchanged_or_anew document subject_token request client_id (issued tokens) =
      pure (client_id, tokens)
  exchanged_or_anew document subject_token request client_id unknown_client =
      exchange_anew document subject_token request

  -- `exchange`
  unfoldable pub exchange_for :
      AuthorizationServerDocument
      → String
      → CredentialRequest
      → Option String
      → Action S Error (String × IssuedTokens)
  exchange_for document subject_token request none = exchange_anew document subject_token request
  exchange_for document subject_token request (some client_id) = do
    reply ← attempt_exchange document client_id subject_token request.team
    exchanged_or_anew document subject_token request client_id reply

  abbrev pub wrapped : Result Failure String → Result Error String
  wrapped r = map_error sign_in_failed r

  unfoldable pub sign_in_and_exchange :
      AuthorizationServerDocument
      → Option CachedCredential
      → CredentialRequest
      → ℕ
      → Action S Error Resolved
  sign_in_and_exchange document cached request now = do
    r ← attempt identity_token
    subject_token ← lift (wrapped r)
    (client_id, tokens) ←
        exchange_for document subject_token request
          (map_option (λ (c : CachedCredential). c.client_id) cached)
    pure (Resolved.issued (issued_credential request client_id tokens now) true)

  unfoldable pub refreshed_or_exchanged :
      AuthorizationServerDocument
      → CachedCredential
      → CredentialRequest
      → ℕ
      → Option IssuedTokens
      → Action S Error Resolved
  refreshed_or_exchanged document c request now (some tokens) =
      pure (Resolved.issued (renewed_credential c tokens now) true)
  refreshed_or_exchanged document c request now none =
      sign_in_and_exchange document (some c) request now

  unfoldable pub renew_with :
      Option CachedCredential → CredentialRequest → ℕ → Discovery → Action S Error Resolved
  renew_with cached request now Discovery.unsupported = pure Resolved.unsupported
  renew_with none request now (Discovery.supported document) =
      sign_in_and_exchange document none request now
  renew_with (some c) request now (Discovery.supported document) = do
    tokens ← refreshed document c
    refreshed_or_exchanged document c request now tokens

  unfoldable pub renew : Option CachedCredential → CredentialRequest → ℕ → Action S Error Resolved
  renew cached request now = do
    discovery ← server.discover request.gateway_url
    renew_with cached request now discovery

  abbrev pub reused : Option CachedCredential → Error → Result Error Resolved
  reused (some c) error = ok (Resolved.issued c false)
  reused none error = err error

  -- A renewal that failed leaves the cached credential in use while it is valid.
  abbrev pub reuse_while_valid :
      Option CachedCredential → ℕ → Result Error Resolved → Result Error Resolved
  reuse_while_valid cached now (ok resolved) = ok resolved
  reuse_while_valid cached now (err error) =
      reused (filter_option (λ c. is_valid c now) cached) error

  unfoldable pub resolve_stale :
      Option CachedCredential → CredentialRequest → ℕ → Action S Error Resolved
  resolve_stale cached request now = do
    r ← attempt (renew cached request now)
    lift (reuse_while_valid cached now r)

  unfoldable pub fresh_or_stale :
      Option CachedCredential
      → List CachedCredential
      → CredentialRequest
      → ℕ
      → Action S Error Resolved
  fresh_or_stale (some c) store request now = pure (Resolved.issued c false)
  fresh_or_stale none store request now = resolve_stale (cached_for store request) request now

  unfoldable pub resolve : List CachedCredential → CredentialRequest → ℕ → Action S Error Resolved
  unfolding fresh_or_stale
  resolve store request now = fresh_or_stale (fresh store request now) store request now
