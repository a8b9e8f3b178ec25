-- ===== src/AiTools/Credential/Keeping.antt =====
-- `resolve` asks the server and the identity provider, and touches nothing else
-- (src/ai_tools/gateway_credential.rs).
use litellm_relay.Common.{String, ℕ, Option, none, some, List}
use litellm_relay.Common.Action.{Action, Keeps, Keeps-pure, Keeps-lift, Keeps-bind, Keeps-attempt}
use litellm_relay.AiTools.Token.{Failure}
use litellm_relay.AiTools.Credential.Types.{
  AuthorizationServerDocument, Discovery, IssuedTokens, Grant, CredentialRequest, CachedCredential,
  AuthorizationServer,
}
use litellm_relay.AiTools.Credential.Resolve.{
  ExchangeReply, unknown_client, refresh_with, attempt_exchange, exchange_anew, exchanged_or_anew,
  exchange_for, sign_in_and_exchange, refreshed_or_exchanged, renew_with, renew, resolve_stale,
  fresh, cached_for, fresh_or_stale, resolve,
}

module _ {S : Type 0} {P : S → Type 0} (server : AuthorizationServer S)
    (token : Action S Failure String) (discovers : (url : String) → Keeps P (server.discover url))
    (registers : (endpoint : String) → Keeps P (server.register endpoint))
    (grants : (document : AuthorizationServerDocument) (grant : Grant)
      → Keeps P (server.token document grant))
    (signs_in : Keeps P token) where
  attempt_exchange-Keeps :
      (document : AuthorizationServerDocument) (client_id subject_token : String)
      (team : Option String)
      → Keeps P (attempt_exchange server token document client_id subject_token team)
  unfolding attempt_exchange
  attempt_exchange-Keeps document client_id subject_token team =
      Keeps-bind _ _ (grants document _) (λ r. Keeps-lift _)

  exchange_anew-Keeps :
      (document : AuthorizationServerDocument) (subject_token : String)
      (request : CredentialRequest)
      → Keeps P (exchange_anew server token document subject_token request)
  unfolding exchange_anew
  exchange_anew-Keeps document subject_token request = Keeps-bind _ _ (registers _) (λ client_id.
      Keeps-bind _ _ (attempt_exchange-Keeps document client_id subject_token request.team)
        (λ r. Keeps-lift _))

  exchanged_or_anew-Keeps :
      (document : AuthorizationServerDocument) (subject_token : String)
      (request : CredentialRequest) (client_id : String) (reply : ExchangeReply)
      → Keeps P (exchanged_or_anew server token document subject_token request client_id reply)
  unfolding exchanged_or_anew
  exchanged_or_anew-Keeps document subject_token request client_id (ExchangeReply.issued tokens) =
      Keeps-pure _
  exchanged_or_anew-Keeps document subject_token request client_id unknown_client =
      exchange_anew-Keeps document subject_token request

  exchange_for-Keeps :
      (document : AuthorizationServerDocument) (subject_token : String)
      (request : CredentialRequest) (client_id : Option String)
      → Keeps P (exchange_for server token document subject_token request client_id)
  unfolding exchange_for
  exchange_for-Keeps document subject_token request none =
      exchange_anew-Keeps document subject_token request
  exchange_for-Keeps document subject_token request (some client_id) =
      Keeps-bind _ _ (attempt_exchange-Keeps document client_id subject_token request.team)
        (λ reply. exchanged_or_anew-Keeps document subject_token request client_id reply)

  sign_in_and_exchange-Keeps :
      (document : AuthorizationServerDocument) (cached : Option CachedCredential)
      (request : CredentialRequest) (now : ℕ)
      → Keeps P (sign_in_and_exchange server token document cached request now)
  unfolding sign_in_and_exchange
  sign_in_and_exchange-Keeps document cached request now =
      Keeps-bind _ _ (Keeps-attempt _ signs_in) (λ r.
        Keeps-bind _ _ (Keeps-lift _) (λ subject_token.
          Keeps-bind _ _ (exchange_for-Keeps document subject_token request _) (λ x. Keeps-pure _)))

  refresh_with-Keeps :
      (document : AuthorizationServerDocument) (c : CachedCredential)
      (refresh_token : Option String)
      → Keeps P (refresh_with server token document c refresh_token)
  unfolding refresh_with
  refresh_with-Keeps document c none = Keeps-pure _
  refresh_with-Keeps document c (some refresh_token) =
      Keeps-bind _ _ (grants document _) (λ r. Keeps-pure _)

  refreshed_or_exchanged-Keeps :
      (document : AuthorizationServerDocument) (c : CachedCredential) (request : CredentialRequest)
      (now : ℕ) (tokens : Option IssuedTokens)
      → Keeps P (refreshed_or_exchanged server token document c request now tokens)
  unfolding refreshed_or_exchanged
  refreshed_or_exchanged-Keeps document c request now (some tokens) = Keeps-pure _
  refreshed_or_exchanged-Keeps document c request now none =
      sign_in_and_exchange-Keeps document (some c) request now

  renew_with-Keeps :
      (cached : Option CachedCredential) (request : CredentialRequest) (now : ℕ)
      (discovery : Discovery)
      → Keeps P (renew_with server token cached request now discovery)
  unfolding renew_with
  renew_with-Keeps cached request now Discovery.unsupported = Keeps-pure _
  renew_with-Keeps none request now (Discovery.supported document) =
      sign_in_and_exchange-Keeps document none request now
  renew_with-Keeps (some c) request now (Discovery.supported document) =
      Keeps-bind _ _ (refresh_with-Keeps document c c.refresh_token)
        (λ tokens. refreshed_or_exchanged-Keeps document c request now tokens)

  renew-Keeps :
      (cached : Option CachedCredential) (request : CredentialRequest) (now : ℕ)
      → Keeps P (renew server token cached request now)
  unfolding renew
  renew-Keeps cached request now =
      Keeps-bind _ _ (discovers _) (λ discovery. renew_with-Keeps cached request now discovery)

  fresh_or_stale-Keeps :
      (found : Option CachedCredential) (store : List CachedCredential)
      (request : CredentialRequest) (now : ℕ)
      → Keeps P (fresh_or_stale server token found store request now)
  unfolding fresh_or_stale resolve_stale
  fresh_or_stale-Keeps (some c) store request now = Keeps-pure _
  fresh_or_stale-Keeps none store request now =
      Keeps-bind _ _ (Keeps-attempt _ (renew-Keeps (cached_for store request) request now))
        (λ r. Keeps-lift _)

  pub resolve-Keeps :
      (store : List CachedCredential) (request : CredentialRequest) (now : ℕ)
      → Keeps P (resolve server token store request now)
  unfolding resolve
  resolve-Keeps store request now = fresh_or_stale-Keeps (fresh store request now) store request now
