-- ===== src/Broker/Bearers.antt =====
-- The bearer that the broker renews under its lock: `identity_token`, `session_credential` and
-- `key_or_credential` (src/broker/mod.rs).
use Prim.Native.String.{◌++◌}
use litellm_relay.Common.{
  String, ℕ, ◌+◌, false, Option, none, some, List, [], ◌∷◌, eq_ℕ, unwrap_or, map_option,
  filter_option,
}
use litellm_relay.Common.Action.{Result, ok, err, Action, pure, fail, lift, ◌>>=◌, ◌>>◌}
use litellm_relay.AiTools.Idp.{IdpSection}
use litellm_relay.AiTools.Token.{
  Failure, sign_in_required, CachedSession, Advanced, reused, renewed, SignIn, Env, advance,
}
use litellm_relay.AiTools.Credential.Types.{
  CredentialRequest, half_life, Error, exchange_refused, sign_in_failed, other, CachedCredential,
  Resolved, AuthorizationServer,
}
use litellm_relay.AiTools.Credential.Resolve.{resolve}
use litellm_relay.Broker.Types.{
  Context, sign_in_of, Source, Notice, team_permission_missing, mint_failed, Refusal, Target,
  MintedKey, StickyRefusal, State, Bearer, MintRequest, Minted, MintRefusal, team_permission,
  unauthorized, MintOutcome, minted, refused, KeyOutcome, dead_bearer, key_lifetime_seconds,
}
use litellm_relay.Broker.Host.{
  Host, Broker, Threads, Act, on_state, modify_state, current_state, outside, set_world, passing,
}

-- The broker with the session that `session_credential` works on.
pub record Renewing (h : Host) : Type 0 where
  pub broker : Broker h
  pub session : Option CachedSession

abbrev pub classify : Error → Refusal
classify (sign_in_failed sign_in_required) = Refusal.signed_out
classify (sign_in_failed _) = Refusal.sign_in_failed
classify exchange_refused = Refusal.gateway_error
classify (other _) = Refusal.gateway_error

abbrev pub store_of : Option CachedCredential → List CachedCredential
store_of none = []
store_of (some c) = c ∷ []

abbrev pub with_session : Option CachedSession → State → State
with_session session s = record s { session = session }

abbrev pub with_credential : CachedCredential → State → State
with_credential c s = record s { credential = some c }

abbrev pub without_page : State → State
without_page s = record s { pending_sign_in_page = none }

abbrev pub with_key : MintedKey → State → State
with_key key s = record s { key = some key; mint_refusal = none }

abbrev pub with_refusal : StickyRefusal → State → State
with_refusal refusal s = record s { mint_refusal = some refusal }

abbrev pub from_credential : CachedCredential → Option Notice → KeyOutcome
from_credential c notice = KeyOutcome.issued (record {
  token = c.access_token;
  expires_at = some c.expires_at;
  source = Source.session_credential;
  notice = notice;
})

abbrev pub mint_notice : String → MintRefusal → Notice
mint_notice team team_permission = team_permission_missing team
mint_notice team unauthorized = mint_failed team
mint_notice team MintRefusal.other = mint_failed team

module _ {h : Host} (t : Threads h) where
  -- A call of the authorization server.
  unfoldable pub calling :
      {A : Type 0} → Action h.device.World Error A → Action (Renewing h) Error A
  calling m r =
      let (a, w) = m r.broker.env.world in
      (a, record r { broker = passing t (set_world w r.broker) })

  abbrev pub gateway : AuthorizationServer (Renewing h)
  gateway = record {
    discover = λ url. calling (h.auth.discover url);
    register = λ endpoint. calling (h.auth.register endpoint);
    token = λ document grant. calling (h.auth.token document grant);
  }

  abbrev pub after_advance : Env h.device → Renewing h → Renewing h
  after_advance env r = record r {
    broker = on_state without_page (passing t (record r.broker { env = env }));
  }

  abbrev pub established : Result Failure Advanced → Renewing h → Result Failure String × Renewing h
  established (ok (reused token)) r = (ok token, r)
  established (ok (renewed session)) r = (ok session.token, record r { session = some session })
  established (err e) r = (err e, r)

  -- `Broker::identity_token`; the page that it opens is pending only while it runs.
  unfoldable pub identity_token : IdpSection → ℕ → SignIn → Action (Renewing h) Failure String
  identity_token idp now sign_in r =
      let (advanced, env) = advance h.device idp r.session now sign_in r.broker.env in
      established advanced (after_advance env r)

  abbrev pub request_of : Target → CredentialRequest
  request_of target = record {
    gateway_url = target.gateway_url;
    team = target.team;
    renewal = half_life;
  }

  abbrev pub resolve_on :
      Target
      → IdpSection
      → Context
      → ℕ
      → Option CachedCredential
      → Action (Renewing h) Error Resolved
  resolve_on target idp context now credential =
      resolve gateway (identity_token idp now (sign_in_of context)) (store_of credential)
        (request_of target) now

  -- The session is a copy that is put back at the end.
  unfoldable pub resolved :
      Target
      → IdpSection
      → Context
      → ℕ
      → State
      → Act h (Result Error Resolved × Option CachedSession)
  resolved target idp context now s b =
      let (r, after) =
        resolve_on target idp context now s.credential
          (record { broker = b; session = s.session }) in
      (ok (r, after.session), after.broker)

  unfoldable pub identity :
      IdpSection
      → Context
      → ℕ
      → Option CachedSession
      → Act h (Result Failure String × Option CachedSession)
  identity idp context now session b =
      let (r, after) =
        identity_token idp now (sign_in_of context) (record { broker = b; session = session }) in
      (ok (r, after.session), after.broker)

  abbrev pub expiry_of : Option CachedSession → ℕ → ℕ
  expiry_of session now = unwrap_or now (map_option (λ (s : CachedSession). s.exp) session)

  abbrev pub from_identity : Result Failure String → ℕ → Result Refusal Bearer
  from_identity (ok token) expiry = ok (Bearer.identity_token token expiry)
  from_identity (err e) expiry = err (classify (sign_in_failed e))

  unfoldable pub keep_resolved :
      IdpSection → Context → ℕ → Result Error Resolved → Option CachedSession → Act h Bearer
  keep_resolved idp context now (ok (Resolved.issued c changed)) session = do
    modify_state (with_session session)
    modify_state (with_credential c)
    pure (Bearer.credential c)
  keep_resolved idp context now (ok Resolved.unsupported) session = do
    (token, session') ← identity idp context now session
    modify_state (with_session session')
    lift (from_identity token (expiry_of session' now))
  keep_resolved idp context now (err e) session = do
    modify_state (with_session session)
    fail (classify e)

  unfoldable pub session_credential : Target → IdpSection → Context → ℕ → Act h Bearer
  session_credential target idp context now = do
    s ← current_state
    (r, session) ← resolved target idp context now s
    keep_resolved idp context now r session

  abbrev pub mint_request : String → ℕ → MintRequest
  mint_request team now = record {
    team_id = team;
    alias = "relay-" ++ h.hostname ++ "-" ++ h.stamp now;
    hostname = h.hostname;
  }

  abbrev pub minted_key : Target → String → ℕ → Minted → MintedKey
  minted_key target team now m = record {
    token = m.token;
    gateway_url = target.gateway_url;
    alias = (mint_request team now).alias;
    expires_at = unwrap_or (now + key_lifetime_seconds) m.expires_at;
    extended_at = none;
    extension_failed = false;
  }

  unfoldable pub keep_minted :
      Target → String → CachedCredential → ℕ → Result String MintOutcome → Act h KeyOutcome
  keep_minted target team c now (ok (minted m)) = do
    modify_state (with_key (minted_key target team now m))
    pure (
        KeyOutcome.issued (record {
          token = m.token;
          expires_at = some (unwrap_or (now + key_lifetime_seconds) m.expires_at);
          source = Source.minted_key;
          notice = none;
        }))
  keep_minted target team c now (ok (refused unauthorized)) = pure dead_bearer
  keep_minted target team c now (ok (refused team_permission)) = do
    modify_state (
        with_refusal (record {
          credential_issued_at = c.issued_at;
          notice = mint_notice team team_permission;
        }))
    pure (from_credential c (some (mint_notice team team_permission)))
  keep_minted target team c now (ok (refused MintRefusal.other)) =
      pure (from_credential c (some (mint_notice team MintRefusal.other)))
  keep_minted target team c now (err e) = pure (from_credential c (some (mint_failed team)))

  unfoldable pub mint_unless_refused :
      Target → String → CachedCredential → ℕ → Option StickyRefusal → Act h KeyOutcome
  mint_unless_refused target team c now (some refusal) =
      pure (from_credential c (some refusal.notice))
  mint_unless_refused target team c now none = do
    r ← outside t (h.mint target.gateway_url c.access_token (mint_request team now))
    keep_minted target team c now r

  abbrev pub sticky : CachedCredential → State → Option StickyRefusal
  sticky c s =
      filter_option (λ (r : StickyRefusal). eq_ℕ r.credential_issued_at c.issued_at) s.mint_refusal

  unfoldable pub key_for : Target → Option String → CachedCredential → ℕ → Act h KeyOutcome
  key_for target none c now = pure (from_credential c none)
  key_for target (some team) c now = do
    s ← current_state
    mint_unless_refused target team c now (sticky c s)

  abbrev pub key_or_credential : Target → CachedCredential → ℕ → Act h KeyOutcome
  key_or_credential target c now = key_for target target.team c now
