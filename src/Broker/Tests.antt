-- ===== src/Broker/Tests.antt =====
-- Runs of src/broker/mod.rs on a device that holds a key for its team.
use litellm_relay.Common.{◌==◌, string_eq, ◌≡◌, refl, true, false, none, some, []}
use litellm_relay.Common.Action.{ok, err, pure, gets, ◌>>=◌}
use litellm_relay.AiTools.Token.{Device}
use litellm_relay.AiTools.Credential.Types.{CachedCredential, Discovery}
use litellm_relay.Mcp.Verdict.Tests.{ascii}
use litellm_relay.Config.Tests.{settings}
use litellm_relay.Broker.Caller.{Peer}
use litellm_relay.Broker.Types.{GatewayPatch, Request, idp, Target, MintedKey, minted, extended}
use litellm_relay.Broker.Host.{
  Host, Broker, Threads, modify_state, free, outside, read_target, read_state,
}
use litellm_relay.Broker.Hold.{hold_of, refresh, refresh_version, refresh_newer}
use litellm_relay.Broker.Issue.{tick}
use litellm_relay.Broker.Serve.{sign_out, bearer_for_proxy, bearer_for_known, proxy_bearer_held}
use litellm_relay.Broker.Switch.{apply_switch, handle}
use litellm_relay.Broker.Held.{Held}
use litellm_relay.Broker.Held.Issuing.{tick-Held}
use litellm_relay.Broker.Held.Switching.{handle-Held}
use litellm_relay.Broker.Held.Leaving.{LeftBy, sign_out-SignedOut}
use litellm_relay.Broker.Key.{Readers, KeyRouteReply}
use litellm_relay.Broker.Held.Undoing.{Undone, apply_switch-Undone}
use litellm_relay.Broker.Held.Proxy.{ForGateway, bearer_for_proxy-ForGateway}

abbrev device : Device
device = record {
  World = Unit;
  classes = ascii;
  decoder = record { claims_of = λ _. none; as_i64 = λ _. none; as_f64_floor = λ _. none };
  sign_in = λ _ w. (err "no browser", w);
  refresh = λ _ _ w. (err "no session", w);
  read_file = λ w. (ok none, w);
  write_file = λ _ w. (ok tt, w);
  lock_file = λ w. (ok tt, w);
  parse = λ _. none;
  print = λ _. "";
}

abbrev host : Host
host = record {
  device = device;
  auth = record {
    discover = λ _ w. (ok Discovery.unsupported, w);
    register = λ _ w. (ok "relay", w);
    token = λ _ _ w. (err (litellm_relay.AiTools.Credential.Types.Error.other "offline"), w);
  };
  mint = λ _ _ _ w. (ok (minted (record { token = "sk-2"; expires_at = none })), w);
  extend = λ _ _ _ w. (ok (extended (some 5400)), w);
  delete = λ _ _ _ w. (ok tt, w);
  version = λ w. (some 1, w);
  load = λ w. (some settings, w);
  store = λ _ w. (ok tt, w);
  now = λ w. (1000, w);
  check = λ _ _ w. (true, w);
  open_page = λ _ w. (tt, w);
  new_proxy_token = λ w. ("relay-proxy-1", w);
  hostname = "laptop";
  stamp = λ _. "t";
  display_name = λ _. none;
}

abbrev target : Target
target = record {
  version = some 1;
  mode = idp settings.idp;
  gateway_url = "https://gateway.example";
  team = some "core";
  environment = some "production";
  callers = [];
  unanchored = [];
}

abbrev key : MintedKey
key = record {
  token = "sk-1";
  gateway_url = "https://gateway.example";
  alias = "relay-laptop-t";
  expires_at = 2000;
  extended_at = none;
  extension_failed = false;
}

abbrev credential : CachedCredential
credential = record {
  gateway_url = "https://gateway.example";
  team = some "core";
  client_id = "relay";
  access_token = "session";
  refresh_token = none;
  expires_at = 9000;
  issued_at = 900;
  user_id = some "ada";
  team_id = none;
}

abbrev holding : Broker host
holding = record {
  target = target;
  state = record {
    session = none;
    credential = some credential;
    key = some key;
    mint_refusal = none;
    last_source = none;
    refused_callers = 0;
    proxy_token = some "relay-proxy-0";
    completed_sign_ins = 1;
    pending_sign_in_page = none;
    explicit_sign_in_running = false;
  };
  env = record { world = tt; events = [] };
}

-- No other thread runs.
abbrev alone : Threads host
alone = record {
  free = λ b. b;
  busy = λ b. record {
    last_source = b.state.last_source;
    refused_callers = b.state.refused_callers;
    proxy_token = b.state.proxy_token;
  };
  renewing = λ _. false;
}

abbrev peer : Peer
peer = record { process = 7; token = none }

holding-Held : Held host holding
holding-Held = record { of_key = (refl, refl, refl); of_credential = (refl, refl, refl) }

proxy_test :
    (bearer_for_proxy alone "relay-proxy-0" holding).0
    ≡ ok (record { token = "sk-1"; gateway_url = "https://gateway.example" })
unfolding bearer_for_proxy bearer_for_known proxy_bearer_held refresh refresh_version refresh_newer
    free outside read_state read_target gets ◌>>=◌ pure modify_state
proxy_test = refl

handle-Held_example : Held host (handle alone (Request.switch_environment "staging") peer holding).1
handle-Held_example =
    handle-Held alone (λ b v. v) (Request.switch_environment "staging") peer holding holding-Held

tick-Held_example : Held host (tick alone holding).1
tick-Held_example = tick-Held alone (λ b v. v) holding holding-Held

bearer_for_proxy-ForGateway_example :
    ForGateway
      (bearer_for_proxy alone "relay-proxy-0" holding).0
      (bearer_for_proxy alone "relay-proxy-0" holding).1
bearer_for_proxy-ForGateway_example =
    bearer_for_proxy-ForGateway alone (λ b v. v) "relay-proxy-0" holding holding-Held

sign_out-SignedOut_example : LeftBy (sign_out alone holding).0 (sign_out alone holding).1
sign_out-SignedOut_example = sign_out-SignedOut alone holding

abbrev readers : Readers
readers = record {
  key_reply = λ _. some (record { key = "sk-1"; expires = none });
  update_reply = λ _. none;
  parse_from_rfc3339 = λ _. none;
  parse_naive = λ _. none;
  contains = λ body marker. body == marker;
}

abbrev unauthorized_reply : KeyRouteReply
unauthorized_reply = record { status = 401; body = "expired" }

abbrev to_staging : GatewayPatch
to_staging = GatewayPatch.environment "https://staging.example" none []

abbrev back_to_production : GatewayPatch
back_to_production = GatewayPatch.environment "https://gateway.example" (some "core") []

apply_switch-Undone_example :
    Undone target
      (hold_of holding.state)
      (apply_switch alone settings to_staging back_to_production holding).0
      (apply_switch alone settings to_staging back_to_production holding).1
apply_switch-Undone_example =
    apply_switch-Undone alone settings to_staging back_to_production holding
