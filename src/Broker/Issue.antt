-- ===== src/Broker/Issue.antt =====
-- How a request for a bearer is answered (`issue` to `fresh_key`, `extend_key` and `tick` in
-- src/broker/mod.rs).
use litellm_relay.Common.{
  String, ℕ, ◌+◌, Bool, true, false, ◌&&◌, Option, none, some, if◌then◌else◌, ltb, leb, ◌==◌,
  string_eq, unwrap_or, map_option, filter_option,
}
use litellm_relay.Common.Action.{Result, ok, err, pure, fail, attempt, ◌>>=◌, ◌>>◌}
use litellm_relay.AiTools.Idp.{IdpSection}
use litellm_relay.AiTools.Credential.Types.{CachedCredential, is_fresh, half_life}
use litellm_relay.Broker.Types.{
  Context, interactive, non_interactive, Source, no_exchange, Issued, Refusal, Mode, idp,
  static_key, unconfigured, Target, MintedKey, State, Bearer, KeyOutcome, dead_bearer,
  ExtendOutcome, extended, key_lifetime_seconds, key_half_life_seconds,
}
use litellm_relay.Broker.Host.{
  Host, Threads, Act, modify_state, current_target, current_state, free, outside, read_state,
}
use litellm_relay.Broker.Hold.{mark_dead, refresh}
use litellm_relay.Broker.Bearers.{session_credential, key_or_credential}

abbrev pub issued_key : MintedKey → Issued
issued_key key = record {
  token = key.token;
  expires_at = some key.expires_at;
  source = Source.minted_key;
  notice = none;
}

abbrev pub live_key : State → ℕ → Option MintedKey
live_key s now = filter_option (λ (key : MintedKey). ltb now key.expires_at) s.key

-- `fresh_key`
abbrev pub fresh_key : State → ℕ → Option Issued
fresh_key s now = map_option issued_key (live_key s now)

abbrev pub configured_key : String → Issued
configured_key key = record {
  token = key;
  expires_at = none;
  source = Source.static_key;
  notice = none;
}

abbrev pub raw_identity : Target → String → ℕ → Issued
raw_identity target token expires_at = record {
  token = token;
  expires_at = some expires_at;
  source = Source.identity_token;
  notice = some (no_exchange target.gateway_url);
}

abbrev pub count_sign_in : State → State
count_sign_in s = record s { completed_sign_ins = s.completed_sign_ins + 1 }

abbrev pub on_key : String → (MintedKey → MintedKey) → State → State
on_key token f s = record s {
  key = map_option (λ (key : MintedKey). if key.token == token then f key else key) s.key;
}

module _ {h : Host} (t : Threads h) where
  unfoldable pub serve : Issued → Act h Issued
  serve issued = do modify_state (λ s. record s { last_source = some issued.source }); pure issued

  unfoldable pub issue_second : KeyOutcome → Act h Issued
  issue_second (KeyOutcome.issued issued) = serve issued
  issue_second dead_bearer = fail Refusal.gateway_error

  unfoldable pub issue_again : Target → ℕ → Bearer → Act h Issued
  issue_again target now (Bearer.credential c) = do
    outcome ← key_or_credential t target c now
    issue_second outcome
  issue_again target now (Bearer.identity_token token expires_at) = fail Refusal.gateway_error

  unfoldable pub issue_after_dead_bearer :
      Target → IdpSection → Context → CachedCredential → Act h Issued
  issue_after_dead_bearer target section context c = do
    now ← outside t h.now
    mark_dead t c now
    bearer ← session_credential t target section context now
    issue_again target now bearer

  unfoldable pub issue_first :
      Target → IdpSection → Context → CachedCredential → KeyOutcome → Act h Issued
  issue_first target section context c (KeyOutcome.issued issued) = serve issued
  issue_first target section context c dead_bearer =
      issue_after_dead_bearer target section context c

  unfoldable pub issue_with : Target → IdpSection → Context → ℕ → Bearer → Act h Issued
  issue_with target section context now (Bearer.credential c) = do
    outcome ← key_or_credential t target c now
    issue_first target section context c outcome
  issue_with target section context now (Bearer.identity_token token expires_at) =
      serve (raw_identity target token expires_at)

  unfoldable pub issue_unless_held :
      Target → IdpSection → Context → ℕ → Option Issued → Act h Issued
  issue_unless_held target section context now (some issued) = serve issued
  issue_unless_held target section context now none = do
    bearer ← session_credential t target section context now
    issue_with target section context now bearer

  -- `issue` and `issue_from_session`, for a mode that needs no session.
  unfoldable pub issue_configured : Mode → Act h Issued
  issue_configured (static_key key) = serve (configured_key key)
  issue_configured _ = fail Refusal.gateway_error

  unfoldable pub issue_from_session : Mode → Target → Context → Act h Issued
  issue_from_session (idp section) target context = do
    now ← outside t h.now
    s ← current_state
    issue_unless_held target section context now (fresh_key s now)
  issue_from_session (static_key key) target context = issue_configured (static_key key)
  issue_from_session (unconfigured hint) target context = issue_configured (unconfigured hint)

  unfoldable pub count_completed : Context → Issued → Act h Issued
  count_completed interactive issued = do modify_state count_sign_in; pure issued
  count_completed non_interactive issued = pure issued

  unfoldable pub issue_under_renewal_lock : Target → Context → Act h Issued
  issue_under_renewal_lock target context = do
    issued ← issue_from_session target.mode target context
    count_completed context issued

  unfoldable pub issue_waiting : Context → Option Issued → Act h Issued
  issue_waiting context (some issued) = serve issued
  issue_waiting context none = do
    free t
    current ← current_target
    issue_under_renewal_lock current context

  unfoldable pub issue_from_idp : Context → Act h Issued
  issue_from_idp context = do
    now ← outside t h.now
    s ← read_state t
    issue_waiting context (fresh_key s now)

  unfoldable pub issue : Mode → Context → Act h Issued
  issue (idp section) context = issue_from_idp context
  issue (static_key key) context = issue_configured (static_key key)
  issue (unconfigured hint) context = issue_configured (unconfigured hint)

  abbrev pub is_due : ℕ → MintedKey → Bool
  is_due now key = ltb now key.expires_at && leb key.expires_at (now + key_half_life_seconds)

  unfoldable pub mint_again : Target → ℕ → Result Refusal Bearer → Act h (Unit {0})
  mint_again target now (ok (Bearer.credential c)) = do key_or_credential t target c now; pure tt
  mint_again target now (ok (Bearer.identity_token token expires_at)) = pure tt
  mint_again target now (err refusal) = pure tt

  unfoldable pub keep_extended :
      Target
      → IdpSection
      → CachedCredential
      → ℕ
      → MintedKey
      → Result String ExtendOutcome
      → Act h (Unit {0})
  keep_extended target section bearer now key (ok (extended expires_at)) = modify_state (
      on_key key.token (λ current. record current {
        expires_at = unwrap_or (now + key_lifetime_seconds) expires_at;
        extended_at = some now;
        extension_failed = false;
      }))
  keep_extended target section bearer now key (ok ExtendOutcome.unauthorized) = do
    mark_dead t bearer now
    r ← attempt (session_credential t target section non_interactive now)
    mint_again target now r
  keep_extended target section bearer now key (err e) =
      modify_state (on_key key.token (λ current. record current { extension_failed = true }))

  unfoldable pub extend_due :
      Target → IdpSection → CachedCredential → ℕ → Option MintedKey → Act h (Unit {0})
  extend_due target section bearer now none = pure tt
  extend_due target section bearer now (some key) = do
    r ← outside t (h.extend target.gateway_url bearer.access_token key.token)
    keep_extended target section bearer now key r

  unfoldable pub extend_key : Target → IdpSection → CachedCredential → ℕ → Act h (Unit {0})
  extend_key target section bearer now = do
    s ← current_state
    extend_due target section bearer now (filter_option (is_due now) s.key)

  unfoldable pub extend_with :
      Target → IdpSection → CachedCredential → ℕ → Result Refusal Bearer → Act h (Unit {0})
  extend_with target section held now (ok (Bearer.credential c)) = extend_key target section c now
  extend_with target section held now (ok (Bearer.identity_token token expires_at)) = pure tt
  extend_with target section held now (err refusal) = extend_key target section held now

  unfoldable pub tick_held : Target → IdpSection → ℕ → Option CachedCredential → Act h (Unit {0})
  tick_held target section now none = pure tt
  tick_held target section now (some c) =
      if is_fresh c now half_life then extend_key target section c now else (do
        r ← attempt (session_credential t target section non_interactive now)
        extend_with target section c now r)

  unfoldable pub tick_for : Mode → Target → Act h (Unit {0})
  tick_for (idp section) target = do
    now ← outside t h.now
    s ← current_state
    tick_held target section now s.credential
  tick_for (static_key key) target = pure tt
  tick_for (unconfigured hint) target = pure tt

  unfoldable pub tick : Act h (Unit {0})
  tick = do refresh t; free t; current ← current_target; tick_for current.mode current
