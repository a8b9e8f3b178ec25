-- ===== src/AiTools/Credential/Issuing.antt =====
-- A credential that is issued now carries what the authorization server gave
-- (src/ai_tools/gateway_credential.rs).
use litellm_relay.Common.{
  String, ℕ, ◌+◌, unwrap_or, Bool-cases, ◌==◌, ◌≡◌, inl, inr, refl, Option, none, some, string_eq,
  option_eq,
}
use litellm_relay.Common.Action.{Result, ok, err, Action}
use litellm_relay.Common.Action.Outcomes.{
  Yields, Yields-pure, Yields-lift, Yields-bind, Yields-bind-Yields,
}
use litellm_relay.AiTools.Token.{Failure}
use litellm_relay.AiTools.Credential.Types.{
  CredentialRequest, AuthorizationServerDocument, IssuedTokens, Error, CachedCredential, TokenReply,
  refused, Grant, issued_credential, renewed_credential, AuthorizationServer,
}
use litellm_relay.AiTools.Credential.Resolve.{
  ExchangeReply, issued, unknown_client, refresh_reply, refresh_with, exchange_reply,
  attempt_exchange, recognized, exchange_anew, exchanged_or_anew, exchange_for,
}

module _ {S : Type 0} (server : AuthorizationServer S) where
  -- The authorization server issued these tokens in reply to a grant.
  abbrev pub FromServer : IssuedTokens → Type 0
  FromServer tokens =
      (document : AuthorizationServerDocument) × (grant : Grant) × (s : S) × ((server.token document
          grant s).0
        ≡ ok (TokenReply.issued tokens))

  -- The credential carries tokens that the server issued: the access token, the refresh token if one came,
  -- and the lifetime from now on, which is an hour where the server names none.
  pub record IssuedNow (c : CachedCredential) (now : ℕ) : Type 0 where
    pub tokens : IssuedTokens
    pub from_server : FromServer tokens
    pub access_token : c.access_token ≡ tokens.access_token
    pub refresh_token :
        (token : String) → tokens.refresh_token ≡ some token → c.refresh_token ≡ some token
    pub expires_at : c.expires_at ≡ now + unwrap_or 3600 tokens.expires_in
    pub issued_at : c.issued_at ≡ now

  abbrev Replied : Result Error TokenReply → Type 0
  Replied r =
      (document : AuthorizationServerDocument) × (grant : Grant) × (s : S) × ((server.token document
          grant s).0
        ≡ r)

  Yields-token :
      (document : AuthorizationServerDocument) (grant : Grant)
      → Yields Replied (server.token document grant)
  Yields-token document grant = record { result = λ s. (document, grant, s, refl) }

  -- Tokens that are given came from the server.
  abbrev pub GivenTokens : Result Error (Option IssuedTokens) → Type 0
  GivenTokens (ok (some tokens)) = FromServer tokens
  GivenTokens (ok none) = Unit
  GivenTokens (err e) = Unit

  abbrev GivenReply : Result Error ExchangeReply → Type 0
  GivenReply (ok (issued tokens)) = FromServer tokens
  GivenReply (ok unknown_client) = Unit
  GivenReply (err e) = Unit

  abbrev pub GivenExchange : Result Error (String × IssuedTokens) → Type 0
  GivenExchange (ok (client_id, tokens)) = FromServer tokens
  GivenExchange (err e) = Unit

  pub issued-IssuedNow :
      (request : CredentialRequest) (client_id : String) (tokens : IssuedTokens) (now : ℕ)
      → FromServer tokens
      → IssuedNow (issued_credential request client_id tokens now) now
  issued-IssuedNow request client_id tokens now from = record {
    tokens = tokens;
    from_server = from;
    access_token = refl;
    refresh_token = λ token e. e;
    expires_at = refl;
    issued_at = refl;
  }

  pub renewed-IssuedNow :
      (c : CachedCredential) (tokens : IssuedTokens) (now : ℕ)
      → FromServer tokens
      → IssuedNow (renewed_credential c tokens now) now
  renewed-IssuedNow c tokens now from = record {
    tokens = tokens;
    from_server = from;
    access_token = refl;
    refresh_token = λ token e. rw e refl;
    expires_at = refl;
    issued_at = refl;
  }

module _ {S : Type 0} (server : AuthorizationServer S)
    (identity_token : Action S Failure String) where
  refresh_reply-GivenTokens :
      (reply : TokenReply)
      → Replied server (ok reply)
      → GivenTokens server (ok (refresh_reply server identity_token reply))
  refresh_reply-GivenTokens (TokenReply.issued tokens) from = from
  refresh_reply-GivenTokens (refused status error) from = tt

  pub refresh_with-GivenTokens :
      (document : AuthorizationServerDocument) (c : CachedCredential) (token : Option String)
      → Yields (GivenTokens server) (refresh_with server identity_token document c token)
  unfolding refresh_with
  refresh_with-GivenTokens document c none = Yields-pure _ tt
  refresh_with-GivenTokens document c (some token) =
      Yields-bind-Yields {Y = Replied server} _ _ (Yields-token server document _) (λ e. tt)
        (λ reply from. Yields-pure _ (refresh_reply-GivenTokens reply from))

  exchange_reply-GivenReply :
      (reply : TokenReply)
      → Replied server (ok reply)
      → GivenReply server (exchange_reply server identity_token reply)
  exchange_reply-GivenReply (TokenReply.issued tokens) from = from
  exchange_reply-GivenReply (refused status error) from =
      elim (Bool-cases (error.error == "invalid_client")) [ inl e ↦ rw e tt | inr e ↦ rw e tt ]

  attempt_exchange-GivenReply :
      (document : AuthorizationServerDocument) (client_id subject_token : String)
      (team : Option String)
      → Yields
          (GivenReply server)
          (attempt_exchange server identity_token document client_id subject_token team)
  unfolding attempt_exchange
  attempt_exchange-GivenReply document client_id subject_token team =
      Yields-bind-Yields {Y = Replied server} _ _ (Yields-token server document _) (λ e. tt)
        (λ reply from. Yields-lift _ (exchange_reply-GivenReply reply from))

  recognized-GivenExchange :
      (client_id : String) (reply : ExchangeReply)
      → GivenReply server (ok reply)
      → GivenExchange server (recognized server identity_token client_id reply)
  recognized-GivenExchange client_id (issued tokens) from = from
  recognized-GivenExchange client_id unknown_client from = tt

  exchange_anew-GivenExchange :
      (document : AuthorizationServerDocument) (subject_token : String)
      (request : CredentialRequest)
      → Yields
          (GivenExchange server)
          (exchange_anew server identity_token document subject_token request)
  unfolding exchange_anew
  exchange_anew-GivenExchange document subject_token request =
      Yields-bind _ _ (λ e. tt)
        (λ client_id.
          Yields-bind-Yields {Y = GivenReply server} _ _
            (attempt_exchange-GivenReply document client_id subject_token request.team) (λ e. tt)
            (λ reply from. Yields-lift _ (recognized-GivenExchange client_id reply from)))

  exchanged_or_anew-GivenExchange :
      (document : AuthorizationServerDocument) (subject_token : String)
      (request : CredentialRequest) (client_id : String) (reply : ExchangeReply)
      → GivenReply server (ok reply)
      → Yields
          (GivenExchange server)
          (exchanged_or_anew server identity_token document subject_token request client_id reply)
  unfolding exchanged_or_anew
  exchanged_or_anew-GivenExchange document subject_token request client_id (issued tokens) from =
      Yields-pure _ from
  exchanged_or_anew-GivenExchange document subject_token request client_id unknown_client from =
      exchange_anew-GivenExchange document subject_token request

  pub exchange_for-GivenExchange :
      (document : AuthorizationServerDocument) (subject_token : String)
      (request : CredentialRequest) (client_id : Option String)
      → Yields
          (GivenExchange server)
          (exchange_for server identity_token document subject_token request client_id)
  unfolding exchange_for
  exchange_for-GivenExchange document subject_token request none =
      exchange_anew-GivenExchange document subject_token request
  exchange_for-GivenExchange document subject_token request (some client_id) =
      Yields-bind-Yields {Y = GivenReply server} _ _
        (attempt_exchange-GivenReply document client_id subject_token request.team) (λ e. tt)
        (λ reply from.
          exchanged_or_anew-GivenExchange document subject_token request client_id reply from)
