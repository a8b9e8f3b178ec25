-- ===== src/Mcp/Service/Host.antt =====
-- What src/mcp/service.rs calls, and the actions that its methods are.
use litellm_relay.Common.{String, ℕ, Option, List, ◌∷◌}
use litellm_relay.Common.Action.{Result, ok, err}
use litellm_relay.Json.{Value, Fields}
use litellm_relay.Mcp.Verdict.Words.{CharClasses}
use litellm_relay.Mcp.Catalog.{UpstreamTool}
use litellm_relay.Mcp.Service.Types.{
  SessionIdentity, SessionBearer, GatewayTarget, McpSection, Refusal, SwitchReply, Question, Answer,
  McpRefusal, State, Timed, Event,
}

-- The traits `Asker`, `Switcher`, `Upstream`, `SettingsSource` and `Clock` and the broker's methods that
-- the service calls. A peer is only handed on. Times are seconds since the epoch.
pub record Host : Type 1 where
  pub World : Type 0
  pub Peer : Type 0
  pub classes : CharClasses
  -- other tasks, while the service awaits
  pub meanwhile : World → State → State × World
  -- the broker
  pub session_bearer_for_peer : Peer → String → World → Result Refusal SessionBearer × World
  pub admit_caller : Peer → String → World → Result Refusal (Unit {0}) × World
  pub session_identity : World → Option SessionIdentity × World
  pub session_bearer_for_daemon : World → Result Refusal SessionBearer × World
  -- the settings and the clock
  pub settings_version : World → Option ℕ × World
  pub load_settings : World → Option McpSection × World
  pub now : World → ℕ × World
  -- the Gateway
  pub list_tools : GatewayTarget → World → Timed (List UpstreamTool) × World
  pub call_tool : GatewayTarget → String → Option Fields → World → Timed Value × World
  -- the user
  pub ask : Question → World → Answer × World
  -- the switcher
  pub team_refusal : String → World → Option Refusal × World
  pub environment_refusal : String → World → Option Refusal × World
  pub switch_team : String → World → SwitchReply × World
  pub switch_environment : String → World → SwitchReply × World
  pub selection : World → Value × World

module _ (h : Host) where
  open h use {World, meanwhile}

  pub record Env : Type 0 where
    pub state : State
    pub world : World
    pub events : List Event

  abbrev pub Exec : Type 0 → Type 0
  Exec A = Env → Result McpRefusal A × Env

module _ {h : Host} {A : Type 0} where
  unfoldable pub pure : A → Exec h A
  pure a env = (ok a, env)

  unfoldable pub refuse : McpRefusal → Exec h A
  refuse r env = (err r, env)

  unfoldable pub lift : Result McpRefusal A → Exec h A
  lift r env = (r, env)

  -- A look at the state under its lock.
  unfoldable pub gets : (State → A) → Exec h A
  gets f env = (ok (f env.state), env)

  -- A call of the world; the other tasks run meanwhile.
  unfoldable pub observe : (h.World → A × h.World) → Exec h A
  observe f env =
      let (a, w) = f env.world in
      let (s, w') = h.meanwhile w env.state in (ok a, record env { state = s; world = w' })

module _ {h : Host} where
  -- A change of the state under its lock.
  unfoldable pub modify : (State → State) → Exec h (Unit {0})
  modify f env = (ok tt, record env { state = f env.state })

  unfoldable pub note : Event → Exec h (Unit {0})
  note e env = (ok tt, record env { events = e ∷ env.events })

  -- The lock is free for the other tasks.
  unfoldable pub yields : Exec h (Unit {0})
  yields env =
      let (s, w) = h.meanwhile env.world env.state in (ok tt, record env { state = s; world = w })

module _ {h : Host} {A B : Type 0} where
  abbrev pub continue : Result McpRefusal A → (A → Exec h B) → Exec h B
  continue (ok a) f env = f a env
  continue (err r) f env = (err r, env)

  infixl 10 ◌>>=◌ ◌>>◌
  unfoldable pub ◌>>=◌ : Exec h A → (A → Exec h B) → Exec h B
  unfolding pure refuse lift gets observe modify note yields
  ◌>>=◌ m f env = let (r, env') = m env in continue r f env'

  abbrev pub ◌>>◌ : Exec h A → Exec h B → Exec h B
  m >> n = m >>= λ _. n
