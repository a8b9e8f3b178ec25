-- ===== src/Broker/Session.antt =====
-- The bearer and the identity that the broker's session gives to the MCP service (src/broker/session.rs).
use litellm_relay.Common.{◌||◌, Option, none, some, if◌then◌else◌, is_some}
use litellm_relay.Common.Action.{pure, ◌>>=◌, ◌>>◌}
use litellm_relay.Mcp.Service.Types.{SessionIdentity, SessionBearer}
use litellm_relay.Broker.Caller.{Peer}
use litellm_relay.Broker.Types.{Context, non_interactive, Target, State}
use litellm_relay.Broker.Host.{Host, Threads, Act, read_target, read_state}
use litellm_relay.Broker.Hold.{refresh, refresh_unless_renewing}
use litellm_relay.Broker.Issue.{issue}
use litellm_relay.Broker.Serve.{user_of, is_static, admit}

abbrev pub identity_in : Target → State → SessionIdentity
identity_in target s = record {
  gateway_url = target.gateway_url;
  user_id = user_of s;
  team = target.team;
}

abbrev pub held_in : Target → State → Option SessionIdentity
held_in target s =
    if is_static target.mode || is_some s.credential then some (identity_in target s) else none

module _ {h : Host} (t : Threads h) where
  unfoldable pub held_identity : Act h (Option SessionIdentity)
  held_identity = do target ← read_target t; s ← read_state t; pure (held_in target s)

  unfoldable pub session_identity : Act h (Option SessionIdentity)
  session_identity = do refresh t; held_identity

  unfoldable pub session_identity_unless_renewing : Act h (Option SessionIdentity)
  session_identity_unless_renewing = do refresh_unless_renewing t; held_identity

  -- `session_bearer` and `bearer_from`
  unfoldable pub session_bearer : Target → Context → Act h SessionBearer
  session_bearer target context = do
    issued ← issue t target.mode context
    s ← read_state t
    pure (record { token = issued.token; identity = identity_in target s })

  unfoldable pub session_bearer_for_peer : Peer → Context → Act h SessionBearer
  session_bearer_for_peer peer context = do target ← admit t peer; session_bearer target context

  unfoldable pub session_bearer_for_daemon : Act h SessionBearer
  session_bearer_for_daemon = do
    refresh t
    target ← read_target t
    session_bearer target non_interactive
