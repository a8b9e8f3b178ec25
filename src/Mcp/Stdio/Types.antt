-- ===== src/Mcp/Stdio/Types.antt =====
-- The data of src/mcp/stdio.rs, with what is read of a daemon's line and of the client's result.
use litellm_relay.Common.{
  String, Bool, true, false, not, Option, none, some, List, [], ◌∷◌, if◌then◌else◌, ◌==◌, string_eq,
  is_some_and, is_some, filter,
}
use litellm_relay.Json.{Value, bool, Fields, get}
use litellm_relay.Mcp.Verdict.Words.{CharClasses}

abbrev pub tool_names : List String
tool_names =
    "search_tools" ∷ "describe_tool" ∷ "call_tool" ∷ "activate_server" ∷ "switch_team"
    ∷ "switch_environment" ∷ []

abbrev pub confirmation_key : String
confirmation_key = "confirm"

pub record DaemonLine : Type 0 where
  pub ask : Option String
  pub is_ok : Option Bool
  pub result : Option Value
  pub reason : Option String
  pub message : Option String

pub data Step : Type 0 where
  ask : (message : String) → Step
  done : (result : Value) → Step
  refused : (reason message : String) → Step
  unknown : Step

abbrev done_or_unknown : Option Value → Step
done_or_unknown (some result) = done result
done_or_unknown none = unknown

abbrev refused_or_unknown : Option String → Option String → Step
refused_or_unknown (some reason) (some message) = refused reason message
refused_or_unknown (some reason) none = unknown
refused_or_unknown none message = unknown

abbrev by_ok : DaemonLine → Option Bool → Step
by_ok line (some true) = done_or_unknown line.result
by_ok line (some false) = refused_or_unknown line.reason line.message
by_ok line none = unknown

-- Step::from(DaemonLine)
unfoldable pub step_of : DaemonLine → Step
step_of line = elim line.ask [ some message ↦ ask message | none ↦ by_ok line line.is_ok ]

-- The daemon at the other end: it closes, the connection breaks, or it writes a line, takes an answer or
-- not, and goes on according to the answer.
pub data Daemon : Type 0 where
  closes : Daemon
  breaks : Daemon
  says : (line : String) (takes : String → Bool) (answered : String → Daemon) → Daemon

pub record Conversation : Type 0 where
  pub op : String
  pub arguments : Option Fields
  -- the daemon, which waits for the answer to its question
  pub takes : String → Bool
  pub answered : String → Daemon

pub data ElicitationAction : Type 0 where
  accept decline cancel : ElicitationAction

pub record ElicitResult : Type 0 where
  pub action : ElicitationAction
  pub content : Option Value

pub record CallToolRequestParams : Type 0 where
  pub name : String
  pub arguments : Option Fields
  pub request_state : Option String
  pub input_responses : Option (List (String × Value))

pub record ClientCapabilities : Type 0 where
  pub elicitation : Option Value

pub record RequestContext : Type 0 where
  pub client_capabilities : Option ClientCapabilities
  pub protocol_version : Option String

-- A tool result that the Gateway gave, as rmcp reads it.
pub record Passed : Type 0 where
  pub result_type : Option String
  pub body : Value

pub data CallToolResult : Type 0 where
  structured : Value → CallToolResult
  passed : Passed → CallToolResult
  error : (reason : String) (message : Option String) → CallToolResult

pub data CallToolResponse : Type 0 where
  result : CallToolResult → CallToolResponse
  input_required : (message state : String) → CallToolResponse
  invalid_params : CallToolResponse

-- What the server exchanged with the daemon and the client, the latest first: a request, a question of the
-- daemon, an answer for a conversation, a question put to the client with the client's result, a question
-- handed to the client with the state it waits under, and a continued call with the result it carries.
pub data Event : Type 0 where
  requested : (op : String) (arguments : Option Fields) → Event
  asked : (op : String) (arguments : Option Fields) (message : String) → Event
  replied : (op : String) (arguments : Option Fields) (answer : String) → Event
  continued : (op : String) (arguments : Option Fields) (result : Option ElicitResult) → Event
  elicited : (message : String) (result : Option ElicitResult) → Event
  parked : (op : String) (arguments : Option Fields) (message state : String) → Event

abbrev pub Awaiting : Type 0
Awaiting = List (String × Conversation)

pub record Client : Type 1 where
  pub World : Type 0
  pub classes : CharClasses
  -- other calls, and the expiry of confirmations, while one call waits
  pub meanwhile : World → Awaiting → Awaiting × World
  pub connect : (op : String) (arguments : Option Fields) → World → Option Daemon × World
  pub create_elicitation : (message : String) → World → Option ElicitResult × World
  pub new_state : World → String × World
  pub has_initialize : (version : String) → Bool
  -- serde_json
  pub decode_line : String → Option DaemonLine
  pub decode_result : Value → Option Passed
  pub decode_elicit_result : Value → Option ElicitResult

-- HashMap::remove
unfoldable pub find_state : String → Awaiting → Option Conversation
find_state state [] = none
find_state state ((s, conversation) ∷ rest) =
    if s == state then some conversation else find_state state rest

unfoldable pub remove_state : String → Awaiting → Awaiting
remove_state state awaiting =
    filter (λ (entry : String × Conversation). not (entry.0 == state)) awaiting

module _ (c : Client) where
  open c use {World}

  pub record Env : Type 0 where
    pub awaiting : Awaiting
    pub world : World
    pub events : List Event

  abbrev pub Run : Type 0 → Type 0
  Run A = Env → A × Env

module _ {c : Client} where
  abbrev pub note : Event → Env c → Env c
  note e env = record env { events = e ∷ env.events }

  abbrev pub wait : Env c → Env c
  wait env =
      let (awaiting, w) = c.meanwhile env.world env.awaiting in
      record env { awaiting = awaiting; world = w }

abbrev pub is_true : Option Value → Bool
is_true (some (bool b)) = b
is_true _ = false

-- content["confirm"] is true
abbrev pub confirms : Option Value → Bool
confirms content = is_some_and (λ v. is_true (get confirmation_key v)) content

unfoldable pub answer_from : ElicitResult → String
answer_from r = elim r.action [
  | accept ↦ if confirms r.content then "accept" else "decline"
  | decline ↦ "decline"
  | cancel ↦ "cancel"
]

abbrev pub client_can_ask : RequestContext → Bool
client_can_ask context =
    is_some_and (λ (capabilities : ClientCapabilities). is_some capabilities.elicitation)
      context.client_capabilities

abbrev pub inline_lifecycle : Client → RequestContext → Bool
inline_lifecycle c context =
    is_some_and (λ version. not (c.has_initialize version)) context.protocol_version
