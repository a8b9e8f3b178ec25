-- ===== src/Mcp/Service/Types.antt =====
-- The data of src/mcp/service.rs and of the parts of src/broker, src/config.rs and src/mcp/upstream.rs
-- that it handles.
use litellm_relay.Common.{
  String, ℕ, ◌≡◌, ◌↔◌, Bool, true, ◌&&◌, Option, none, some, List, [], arith, if◌then◌else◌, Eq,
  ◌==◌, ==_iff, string_eq, option_eq, nat_eq, list_eq, unwrap_or,
}
use litellm_relay.Json.{Value, Fields}
use litellm_relay.Mcp.Catalog.{Catalog, ActiveServers}

-- src/broker/session.rs
pub record SessionIdentity : Type 0 where
  pub gateway_url : String
  pub user_id : Option String
  pub team : Option String

abbrev pub same_identity : SessionIdentity → SessionIdentity → Bool
same_identity a b = a.gateway_url == b.gateway_url && a.user_id == b.user_id && a.team == b.team

pub same_identity_iff : (a b : SessionIdentity) → (same_identity a b ≡ true) ↔ (a ≡ b)
same_identity_iff a b =
    ground
      (arith, ==_iff a.gateway_url b.gateway_url, ==_iff a.user_id b.user_id, ==_iff a.team b.team)

instance abbrev pub identity_eq : Eq SessionIdentity
identity_eq = record { eq = same_identity; decides = same_identity_iff }

pub record SessionBearer : Type 0 where
  pub token : String
  pub identity : SessionIdentity

-- src/mcp/upstream.rs
pub record GatewayTarget : Type 0 where
  pub url : String
  pub credential : String

abbrev pub gateway_target : SessionBearer → GatewayTarget
gateway_target bearer = record { url = bearer.identity.gateway_url; credential = bearer.token }

-- src/config.rs
pub record McpSection : Type 0 where
  pub allow : Option (List String)
  pub max_concurrent_calls : Option ℕ
  pub tool_prefix_separator : Option String

abbrev pub default_max_concurrent_calls : ℕ
default_max_concurrent_calls = 16

abbrev pub default_tool_prefix_separator : String
default_tool_prefix_separator = "-"

unfoldable pub allowed_tools : McpSection → List String
allowed_tools section = unwrap_or [] section.allow

unfoldable pub concurrent_call_cap : McpSection → ℕ
concurrent_call_cap section = elim section.max_concurrent_calls [
  | none ↦ default_max_concurrent_calls
  | some cap ↦ if cap == 0 then default_max_concurrent_calls else cap
]

unfoldable pub prefix_separator : McpSection → String
prefix_separator section = elim section.tool_prefix_separator [
  | none ↦ default_tool_prefix_separator
  | some separator ↦ if separator == "" then default_tool_prefix_separator else separator
]

abbrev pub same_section : McpSection → McpSection → Bool
same_section a b =
    a.allow == b.allow
    && a.max_concurrent_calls == b.max_concurrent_calls
    && a.tool_prefix_separator == b.tool_prefix_separator

pub same_section_iff : (a b : McpSection) → (same_section a b ≡ true) ↔ (a ≡ b)
same_section_iff a b = ground (
  arith,
  ==_iff a.allow b.allow,
  ==_iff a.max_concurrent_calls b.max_concurrent_calls,
  ==_iff a.tool_prefix_separator b.tool_prefix_separator,
)

instance abbrev pub section_eq : Eq McpSection
section_eq = record { eq = same_section; decides = same_section_iff }

-- src/broker/mod.rs
pub data Refusal : Type 0 where
  caller_refused signed_out sign_in_failed gateway_error : String → Refusal
  bad_request unknown_environment unknown_team switch_failed static_key : String → Refusal

-- What the broker's `switch_team` and `switch_environment` reply, as the service reads it: the switch
-- as a JSON value, a refusal, or any other reply.
pub data SwitchReply : Type 0 where
  switched : Value → SwitchReply
  refused : Refusal → SwitchReply
  other : SwitchReply

pub data McpRequest : Type 0 where
  search_tools : (query : String) → McpRequest
  describe_tool : (name : String) → McpRequest
  call_tool : (name : String) (arguments : Option Fields) → McpRequest
  activate_server : (server : String) → McpRequest
  switch_team : (team : Option String) → McpRequest
  switch_environment : (environment : Option String) → McpRequest

unfoldable pub label : McpRequest → String
label (search_tools _) = "mcp search_tools"
label (describe_tool _) = "mcp describe_tool"
label (call_tool _ _) = "mcp call_tool"
label (activate_server _) = "mcp activate_server"
label (switch_team _) = "mcp switch_team"
label (switch_environment _) = "mcp switch_environment"

-- The kind of the question and what its message names.
pub data Question : Type 0 where
  confirm_call : (name server : String) (arguments : Option Fields) → Question
  activate_server : (server : String) (tools : ℕ) → Question
  switch_team : (team : String) → Question
  switch_environment : (name : String) (url : Option String) → Question

pub data Answer : Type 0 where
  accept decline cancel unsupported : Answer

-- Why there is no catalog to answer from.
pub data Unavailable : Type 0 where
  not_listed : String → Unavailable
  listing_timed_out : Unavailable
  session_changed : Unavailable

pub data TeamProblem : Type 0 where
  empty : TeamProblem
  too_long : ℕ → TeamProblem

pub data McpRefusal : Type 0 where
  broker : Refusal → McpRefusal
  bad_request : TeamProblem → McpRefusal
  catalog_unavailable : Unavailable → McpRefusal
  unknown_tool unknown_server server_inactive : String → McpRefusal
  confirmation_required declined cancelled : McpRefusal
  upstream_error upstream_timeout : String → McpRefusal

pub record Session : Type 0 where
  pub identity : SessionIdentity
  pub catalog : Option Catalog
  pub active : ActiveServers
  pub fetch_attempted_at : Option ℕ

pub record State : Type 0 where
  pub settings_version : Option ℕ
  pub section : McpSection
  pub session : Option Session

-- An upstream call under `timeout`.
pub data Timed {ℓ} (A : Type ℓ) : Type ℓ where
  answered : A → Timed A
  failed : String → Timed A
  timed_out : Timed A

-- What the service did to the world, the latest first: a question and its answer, a listing, a change
-- of the call cap, a session found to be still the bearer's, a tool call, a switch.
pub data Event : Type 0 where
  asked : Question → Answer → Event
  listed : GatewayTarget → Event
  resized : ℕ → Event
  checked : SessionIdentity → Event
  called : GatewayTarget → String → Option Fields → Event
  switched_team : String → Event
  switched_environment : String → Event
