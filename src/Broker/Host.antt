-- ===== src/Broker/Host.antt =====
-- What the broker calls and what runs beside it (`Dependencies`, `Broker` and its locks in
-- src/broker/mod.rs).
--
-- The Gateway, the identity provider, the config file, the clock, the check of a caller and the browser
-- are a `Host`. Other threads are `Threads`: while this one waits for a lock or holds none, they take any
-- steps, and while it holds the renewal lock they only touch what the code writes without that lock.
use litellm_relay.Common.{String, ℕ, Bool, Option, List}
use litellm_relay.Common.Action.{Result, ok, Action, gets, ◌>>◌}
use litellm_relay.AiTools.Token.{Device, Env}
use litellm_relay.AiTools.Credential.Types.{AuthorizationServer}
use litellm_relay.Broker.Caller.{AllowedCaller, Peer}
use litellm_relay.Config.Settings.{RelaySettings}
use litellm_relay.Broker.Types.{
  Target, State, Source, Refusal, MintRequest, MintOutcome, ExtendOutcome,
}

pub record Host : Type 1 where
  pub device : Device
  pub auth : AuthorizationServer device.World
  pub mint :
      (gateway_url bearer : String)
      → MintRequest
      → device.World
      → Result String MintOutcome × device.World
  pub extend :
      (gateway_url bearer key : String) → device.World → Result String ExtendOutcome × device.World
  pub delete :
      (gateway_url bearer key : String) → device.World → Result String (Unit {0}) × device.World
  -- the config file
  pub version : device.World → Option ℕ × device.World
  pub load : device.World → Option RelaySettings × device.World
  pub store : RelaySettings → device.World → Result String (Unit {0}) × device.World
  pub now : device.World → ℕ × device.World
  -- whether the verdict on the caller has no message of refusal
  pub check : List AllowedCaller → Peer → device.World → Bool × device.World
  pub open_page : String → device.World → Unit {0} × device.World
  pub new_proxy_token : device.World → String × device.World
  pub hostname : String
  -- chrono's text of the time in a key's alias, and `display_name` of an ID token
  pub stamp : ℕ → String
  pub display_name : String → Option String

pub record Broker (h : Host) : Type 0 where
  pub target : Target
  pub state : State
  pub env : Env h.device

-- What other threads write without the renewal lock.
pub record Shared : Type 0 where
  pub last_source : Option Source
  pub refused_callers : ℕ
  pub proxy_token : Option String

pub record Threads (h : Host) : Type 0 where
  pub free : Broker h → Broker h
  pub busy : Broker h → Shared
  -- whether try_lock finds the renewal lock taken
  pub renewing : Broker h → Bool

abbrev pub Act : Host → Type 0 → Type 0
Act h A = Action (Broker h) Refusal A

abbrev pub with_shared : Shared → State → State
with_shared shared s = record s {
  last_source = shared.last_source;
  refused_callers = shared.refused_callers;
  proxy_token = shared.proxy_token;
}

module _ {h : Host} where
  abbrev pub set_world : h.device.World → Broker h → Broker h
  set_world w b = record b { env = record b.env { world = w } }

  abbrev pub on_state : (State → State) → Broker h → Broker h
  on_state f b = record b { state = f b.state }

  unfoldable pub modify_state : (State → State) → Act h (Unit {0})
  modify_state f b = (ok tt, on_state f b)

  unfoldable pub set_target : Target → Act h (Unit {0})
  set_target t b = (ok tt, record b { target = t })

  -- `lock_target().clone()` and a read of the state, under the renewal lock.
  abbrev pub current_target : Act h Target
  current_target = gets (λ (b : Broker h). b.target)

  abbrev pub current_state : Act h State
  current_state = gets (λ (b : Broker h). b.state)

  -- A call of the host under the lock of the state.
  unfoldable pub locally : {A : Type 0} → (h.device.World → A × h.device.World) → Act h A
  locally f b = let (a, w) = f b.env.world in (ok a, set_world w b)

  module _ (t : Threads h) where
    -- Other threads run: for a lock that has to be waited for, and between locks.
    unfoldable pub free : Act h (Unit {0})
    free b = (ok tt, t.free b)

    abbrev pub passing : Broker h → Broker h
    passing b = record b { state = with_shared (t.busy b) b.state }

    -- A call of the host, during which other threads find the renewal lock taken.
    unfoldable pub outside : {A : Type 0} → (h.device.World → A × h.device.World) → Act h A
    outside f b = let (a, w) = f b.env.world in (ok a, passing (set_world w b))

    -- A read of the target, of the state, by a thread that holds no lock.
    unfoldable pub read_target : Act h Target
    read_target = do free; current_target

    unfoldable pub read_state : Act h State
    read_state = do free; current_state
