-- ===== src/AiTools/Credential/Resolved.antt =====
-- What `resolve` answers, with which credential and for whom (src/ai_tools/gateway_credential.rs).
use litellm_relay.Common.{
  String, ℕ, ◌≡◌, ◌⊎◌, inl, inr, refl, true, false, Option, none, some, List, ==_iff, string_eq,
  option_eq, filter_option, find-eq-some, filter_option-eq-some, arith,
}
use litellm_relay.Common.Action.{Result, ok, err, Action, pure, attempt, lift, ◌>>=◌}
use litellm_relay.Common.Action.Outcomes.{Yields, Yields-pure, Yields-bind, Yields-bind-Yields}
use litellm_relay.AiTools.Token.{Failure}
use litellm_relay.AiTools.Credential.Types.{
  CredentialRequest, AuthorizationServerDocument, Discovery, IssuedTokens, Error, CachedCredential,
  Resolved, unsupported, matches, is_fresh, is_valid, AuthorizationServer,
}
use litellm_relay.AiTools.Credential.Issuing.{
  IssuedNow, GivenTokens, GivenExchange, issued-IssuedNow, renewed-IssuedNow,
  refresh_with-GivenTokens, exchange_for-GivenExchange,
}
use litellm_relay.AiTools.Credential.Resolve.{
  cached_for, fresh, sign_in_and_exchange, refreshed_or_exchanged, renew_with, renew, reused,
  reuse_while_valid, fresh_or_stale, resolve_stale, resolve,
}

pub record IsFor (c : CachedCredential) (request : CredentialRequest) : Type 0 where
  pub gateway : c.gateway_url ≡ request.gateway_url
  pub team : c.team ≡ request.team

pub IsFor-cached :
    (store : List CachedCredential) (request : CredentialRequest) (c : CachedCredential)
    → cached_for store request ≡ some c
    → IsFor c request
unfolding cached_for
IsFor-cached store request c e =
    let m : matches c request ≡ true = find-eq-some (λ c. matches c request) store c e in
    ground (arith, ==_iff c.gateway_url request.gateway_url, ==_iff c.team request.team)

module _ {S : Type 0} (server : AuthorizationServer S) where
  -- What a renewal may answer.
  abbrev Renewed : CredentialRequest → ℕ → Result Error Resolved → Type 0
  Renewed request now (ok (Resolved.issued c true)) = IsFor c request × IssuedNow server c now
  Renewed request now (ok (Resolved.issued c false)) = ⊥
  Renewed request now (ok unsupported) = Unit
  Renewed request now (err e) = Unit

  -- What `resolve` may answer.
  abbrev pub Answer : List CachedCredential → CredentialRequest → ℕ → Result Error Resolved → Type 0
  Answer store request now (ok (Resolved.issued c true)) =
      (fresh store request now ≡ none) × IsFor c request × IssuedNow server c now
  Answer store request now (ok (Resolved.issued c false)) =
      (cached_for store request ≡ some c)
      × IsFor c request
      × ((is_fresh c now request.renewal ≡ true) ⊎ (is_valid c now ≡ true))
  Answer store request now (ok unsupported) = fresh store request now ≡ none
  Answer store request now (err e) =
      (fresh store request now ≡ none)
      × (filter_option (λ c. is_valid c now) (cached_for store request) ≡ none)

module _ {S : Type 0} (server : AuthorizationServer S)
    (identity_token : Action S Failure String) where
  sign_in_and_exchange-Renewed :
      (document : AuthorizationServerDocument) (cached : Option CachedCredential)
      (request : CredentialRequest) (now : ℕ)
      → Yields
          (Renewed server request now)
          (sign_in_and_exchange server identity_token document cached request now)
  unfolding sign_in_and_exchange
  sign_in_and_exchange-Renewed document cached request now =
      Yields-bind _ _ (λ e. tt)
        (λ r.
          Yields-bind _ _ (λ e. tt)
            (λ t.
              Yields-bind-Yields {Y = GivenExchange server} _ _
                (exchange_for-GivenExchange server identity_token document t request _) (λ e. tt)
                (λ x from. Yields-pure _ (
                  record { gateway = refl; team = refl },
                  issued-IssuedNow server request x.0 x.1 now from,
                ))))

  refreshed_or_exchanged-Renewed :
      (document : AuthorizationServerDocument) (c : CachedCredential) (request : CredentialRequest)
      (now : ℕ) (tokens : Option IssuedTokens)
      → IsFor c request
      → GivenTokens server (ok tokens)
      → Yields
          (Renewed server request now)
          (refreshed_or_exchanged server identity_token document c request now tokens)
  unfolding refreshed_or_exchanged
  refreshed_or_exchanged-Renewed document c request now (some tokens) m from =
      Yields-pure _
        (record { gateway = m.gateway; team = m.team }, renewed-IssuedNow server c tokens now from)
  refreshed_or_exchanged-Renewed document c request now none m from =
      sign_in_and_exchange-Renewed document (some c) request now

  renew_with-Renewed :
      (cached : Option CachedCredential) (request : CredentialRequest) (now : ℕ)
      (discovery : Discovery)
      → ((c : CachedCredential) → cached ≡ some c → IsFor c request)
      → Yields
          (Renewed server request now)
          (renew_with server identity_token cached request now discovery)
  unfolding renew_with
  renew_with-Renewed cached request now Discovery.unsupported m = Yields-pure _ tt
  renew_with-Renewed none request now (Discovery.supported document) m =
      sign_in_and_exchange-Renewed document none request now
  renew_with-Renewed (some c) request now (Discovery.supported document) m =
      Yields-bind-Yields {Y = GivenTokens server} _ _
        (refresh_with-GivenTokens server identity_token document c c.refresh_token) (λ e. tt)
        (λ t from. refreshed_or_exchanged-Renewed document c request now t (m c refl) from)

  renew-Renewed :
      (cached : Option CachedCredential) (request : CredentialRequest) (now : ℕ)
      → ((c : CachedCredential) → cached ≡ some c → IsFor c request)
      → Yields (Renewed server request now) (renew server identity_token cached request now)
  unfolding renew
  renew-Renewed cached request now m =
      Yields-bind _ _ (λ e. tt) (λ d. renew_with-Renewed cached request now d m)

  reused-Answer :
      (store : List CachedCredential) (request : CredentialRequest) (now : ℕ) (error : Error)
      (valid : Option CachedCredential)
      → fresh store request now ≡ none
      → filter_option (λ c. is_valid c now) (cached_for store request) ≡ valid
      → Answer server store request now (reused server identity_token valid error)
  reused-Answer store request now error none stale e = (stale, e)
  reused-Answer store request now error (some c) stale e =
      let (held, valid) =
        filter_option-eq-some (λ (c : CachedCredential). is_valid c now) (cached_for store request)
          c e in
      (held, IsFor-cached store request c held, inr valid)

  reuse-Answer :
      (store : List CachedCredential) (request : CredentialRequest) (now : ℕ)
      (r : Result Error Resolved)
      → fresh store request now ≡ none
      → Renewed server request now r
      → Answer server store request now
          (reuse_while_valid server identity_token (cached_for store request) now r)
  reuse-Answer store request now (ok (Resolved.issued c true)) stale v = (stale, v.0, v.1)
  reuse-Answer store request now (ok (Resolved.issued c false)) stale v = elim v [ ]
  reuse-Answer store request now (ok unsupported) stale v = stale
  reuse-Answer store request now (err error) stale v =
      reused-Answer store request now error _ stale refl

  fresh_or_stale-Answer :
      (found : Option CachedCredential) (store : List CachedCredential)
      (request : CredentialRequest) (now : ℕ) (s : S)
      → fresh store request now ≡ found
      → Answer server store request now
          (fresh_or_stale server identity_token found store request now s).0
  unfolding fresh_or_stale resolve_stale pure ◌>>=◌ attempt lift
  fresh_or_stale-Answer none store request now s e = reuse-Answer store request now _ e (
      (renew-Renewed (cached_for store request) request now
          (λ c m. IsFor-cached store request c m)).result
        s)
  fresh_or_stale-Answer (some c) store request now s e =
      let (held, is_new) =
        filter_option-eq-some (λ (c : CachedCredential). is_fresh c now request.renewal)
          (cached_for store request) c (unfold fresh in e) in
      (held, IsFor-cached store request c held, inl is_new)

  -- `resolve` gives a credential of the requested Gateway and team: the first that the store has for them,
  -- unchanged, if that one is fresh or still valid, or one that it issued now, which it only does if that one
  -- is missing or not fresh. What is issued now carries the access token that the authorization server gave
  -- in reply to a grant, its refresh token if one came with it, and its lifetime from now on, an hour where
  -- the server gave none. `resolve` fails only if the first credential of the store for the Gateway and team
  -- is missing or not valid any more.
  pub resolve-Answer :
      (store : List CachedCredential) (request : CredentialRequest) (now : ℕ) (s : S)
      → Answer server store request now (resolve server identity_token store request now s).0
  unfolding resolve
  resolve-Answer store request now s =
      fresh_or_stale-Answer (fresh store request now) store request now s refl
