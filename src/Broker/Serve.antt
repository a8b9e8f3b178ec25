-- ===== src/Broker/Serve.antt =====
-- The requests for a bearer, signing in and out, and the status (`credential` to `sign_out` and `status` in
-- src/broker/mod.rs).
use litellm_relay.Common.{
  String, ℕ, ◌+◌, Bool, true, false, ◌&&◌, ◌||◌, not, Option, none, some, if◌then◌else◌, eq_ℕ, ◌==◌,
  string_eq, map_option, filter_option, is_some, and_then,
}
use litellm_relay.Common.Action.{Result, ok, err, pure, fail, attempt, ◌>>=◌, ◌>>◌}
use litellm_relay.AiTools.Token.{CachedSession}
use litellm_relay.AiTools.Credential.Types.{CachedCredential, is_valid}
use litellm_relay.Broker.Caller.{Peer}
use litellm_relay.Broker.Types.{
  Context, interactive, non_interactive, Source, Issued, Refusal, Reply, ProxyBearer, BrokerStatus,
  Mode, idp, static_key, unconfigured, Target, MintedKey, State,
}
use litellm_relay.Broker.Host.{
  Host, Threads, Act, modify_state, current_target, current_state, free, outside, locally,
  read_target, read_state,
}
use litellm_relay.Broker.Hold.{forget, refresh, refresh_unless_renewing}
use litellm_relay.Broker.Issue.{live_key, issue, issue_under_renewal_lock}

abbrev pub user_of : State → Option String
user_of s = and_then s.credential (λ (c : CachedCredential). c.user_id)

abbrev pub count_refused : State → State
count_refused s = record s { refused_callers = s.refused_callers + 1 }

abbrev pub running : Bool → State → State
running b s = record s { explicit_sign_in_running = b }

abbrev pub is_static : Mode → Bool
is_static (idp _) = false
is_static (static_key _) = true
is_static (unconfigured _) = false

abbrev pub source_of : Mode → Option Source → Option Source
source_of (static_key _) _ = some Source.static_key
source_of (idp _) last = last
source_of (unconfigured _) last = last

abbrev pub key_bearer : MintedKey → ProxyBearer
key_bearer key = record { token = key.token; gateway_url = key.gateway_url }

abbrev pub serve_key : State → State
serve_key s = record s { last_source = some Source.minted_key }

module _ {h : Host} (t : Threads h) where
  unfoldable pub admitted : Target → Bool → Act h Target
  admitted target true = pure target
  admitted target false = do free t; modify_state count_refused; fail Refusal.caller_refused

  unfoldable pub admit : Peer → Act h Target
  admit peer = do
    refresh t
    target ← read_target t
    fine ← outside t (h.check target.callers peer)
    admitted target fine

  unfoldable pub credential : Context → Peer → Act h Issued
  credential context peer = do target ← admit peer; issue t target.mode context

  -- proxy_token.get_or_insert_with(new_proxy_token)
  unfoldable pub known_or_new : Option String → Act h String
  known_or_new (some token) = pure token
  known_or_new none = do
    token ← locally h.new_proxy_token
    modify_state (λ s. record s { proxy_token = some token })
    pure token

  unfoldable pub proxy_credential : Context → Peer → Act h Issued
  proxy_credential context peer = do
    target ← admit peer
    issued ← issue t target.mode context
    s ← read_state t
    token ← known_or_new s.proxy_token
    pure (record {
      token = token;
      expires_at = none;
      source = Source.proxy_token;
      notice = issued.notice;
    })

  -- A bearer for a request of the proxy, with the Gateway that it is sent to.
  unfoldable pub proxy_bearer_held : Option MintedKey → Act h ProxyBearer
  proxy_bearer_held (some key) = do modify_state serve_key; pure (key_bearer key)
  proxy_bearer_held none = do
    free t
    target ← current_target
    issued ← issue_under_renewal_lock t target non_interactive
    pure (record { token = issued.token; gateway_url = target.gateway_url })

  abbrev pub is_known : String → State → Bool
  is_known presented s = elim s.proxy_token [ some token ↦ token == presented | none ↦ false ]

  unfoldable pub bearer_for_known : Bool → Act h ProxyBearer
  bearer_for_known false = fail Refusal.caller_refused
  bearer_for_known true = do
    now ← outside t h.now
    s ← read_state t
    proxy_bearer_held (live_key s now)

  unfoldable pub bearer_for_proxy : String → Act h ProxyBearer
  bearer_for_proxy presented = do
    refresh t
    s ← read_state t
    bearer_for_known (is_known presented s)

  unfoldable pub open_pending : Option String → Act h (Unit {0})
  open_pending none = pure tt
  open_pending (some page) = outside t (h.open_page page)

  abbrev pub joined : State → Bool
  joined at_start = is_some at_start.pending_sign_in_page || at_start.explicit_sign_in_running

  -- `signed_in_since`
  abbrev pub signed_in_since : State → State → Bool
  signed_in_since at_start s =
      not (eq_ℕ s.completed_sign_ins at_start.completed_sign_ins) && is_some s.session

  unfoldable pub signed_in_as : Result Refusal Issued → State → Act h Reply
  signed_in_as (ok issued) s = pure (Reply.signed_in (user_of s))
  signed_in_as (err refusal) s = fail refusal

  unfoldable pub sign_in_anew : Target → Act h Reply
  sign_in_anew target = do
    forget t target.gateway_url true
    modify_state (running true)
    r ← attempt (issue_under_renewal_lock t target interactive)
    modify_state (running false)
    s ← current_state
    signed_in_as r s

  unfoldable pub sign_in_with : Target → State → State → Act h Reply
  sign_in_with target at_start s =
      if joined at_start && signed_in_since at_start s
      then pure (Reply.signed_in (user_of s))
      else if is_some at_start.pending_sign_in_page
      then fail Refusal.sign_in_failed
      else sign_in_anew target

  unfoldable pub sign_in_on : Mode → Target → State → Act h Reply
  sign_in_on (idp section) target at_start = do s ← current_state; sign_in_with target at_start s
  sign_in_on (static_key key) target at_start = fail Refusal.gateway_error
  sign_in_on (unconfigured hint) target at_start = fail Refusal.gateway_error

  unfoldable pub sign_in : Act h Reply
  sign_in = do
    at_start ← read_state t
    open_pending at_start.pending_sign_in_page
    refresh t
    free t
    target ← current_target
    sign_in_on target.mode target at_start

  unfoldable pub sign_out_of : Target → Act h Reply
  sign_out_of target =
      if is_static target.mode
      then fail Refusal.static_key
      else (do forget t target.gateway_url true; pure Reply.signed_out)

  unfoldable pub sign_out : Act h Reply
  sign_out = do refresh t; free t; target ← current_target; sign_out_of target

  -- `Broker::shutdown`
  unfoldable pub shutdown : Act h (Unit {0})
  shutdown = do free t; target ← current_target; forget t target.gateway_url false

  abbrev pub is_signed_in : Mode → State → ℕ → Bool
  is_signed_in mode s now =
      is_static mode || is_some (filter_option (λ c. is_valid c now) s.credential)

  abbrev pub shown_name : State → Bool → Option String
  shown_name s signed_in =
      and_then (filter_option (λ _. signed_in) s.session)
        (λ (session : CachedSession). h.display_name session.token)

  abbrev pub status_of : Target → State → ℕ → BrokerStatus
  status_of target s now = record {
    signed_in = is_signed_in target.mode s now;
    user_id = user_of s;
    display_name = shown_name s (is_signed_in target.mode s now);
    team = target.team;
    environment = target.environment;
    gateway_url = target.gateway_url;
    key_expires_at = map_option (λ (key : MintedKey). key.expires_at) s.key;
    key_extended_at = and_then s.key (λ (key : MintedKey). key.extended_at);
    source = source_of target.mode s.last_source;
    refused_callers = s.refused_callers;
  }

  unfoldable pub status : Act h BrokerStatus
  status = do
    refresh_unless_renewing t
    target ← read_target t
    now ← outside t h.now
    s ← read_state t
    pure (status_of target s now)
