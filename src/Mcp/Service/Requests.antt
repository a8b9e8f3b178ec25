-- ===== src/Mcp/Service/Requests.antt =====
-- `McpService::handle` (src/mcp/service.rs).
use litellm_relay.Common.{String, Option}
use litellm_relay.Json.{Value, Fields}
use litellm_relay.Mcp.Catalog.{Catalog, SearchResult}
use litellm_relay.Mcp.Service.Types.{
  SessionBearer, SessionIdentity, McpRequest, search_tools, describe_tool, call_tool,
  activate_server, switch_team, switch_environment, label,
}
use litellm_relay.Mcp.Service.Host.{Host, Exec, pure, ◌>>=◌}
use litellm_relay.Mcp.Service.Session.{admitted_bearer, admitted_caller, catalog_for}
use litellm_relay.Mcp.Service.Tools.{Activated, search, describe, call, activate}
use litellm_relay.Mcp.Service.Switching.{switch_team_request, switch_environment_request}

-- What a request is answered with.
pub data Outcome : Type 0 where
  found : SearchResult → Outcome
  value : Value → Outcome
  activated : Activated → Outcome

module _ {h : Host} where
  -- The two steps with which the four requests for tools begin.
  unfoldable pub with_catalog :
      {A : Type 0} → h.Peer → String → (SessionBearer → Catalog → Exec h A) → Exec h A
  with_catalog peer what body = do
    bearer ← admitted_bearer peer what
    catalog ← catalog_for bearer
    body bearer catalog

  unfoldable pub handle_tools_call :
      String → Option Fields → SessionBearer → Catalog → Exec h Outcome
  handle_tools_call name arguments bearer catalog = do
    result ← call catalog bearer name arguments
    pure (value result)

  unfoldable pub handle_search : String → SessionBearer → Catalog → Exec h Outcome
  handle_search query bearer catalog = do result ← search catalog bearer query; pure (found result)

  unfoldable pub handle_describe : String → SessionBearer → Catalog → Exec h Outcome
  handle_describe name bearer catalog = do
    described ← describe catalog bearer name
    pure (value described)

  unfoldable pub handle_activate : String → SessionBearer → Catalog → Exec h Outcome
  handle_activate server bearer catalog = do
    done ← activate catalog bearer server
    pure (activated done)

  unfoldable pub handle_team : Option String → Option SessionIdentity → Exec h Outcome
  handle_team team identity = do selected ← switch_team_request identity team; pure (value selected)

  unfoldable pub handle_environment : Option String → Exec h Outcome
  handle_environment environment = do
    selected ← switch_environment_request environment
    pure (value selected)

  unfoldable pub handle : h.Peer → McpRequest → Exec h Outcome
  handle peer (search_tools query) =
      with_catalog peer (label (search_tools query)) (handle_search query)
  handle peer (describe_tool name) =
      with_catalog peer (label (describe_tool name)) (handle_describe name)
  handle peer (call_tool name arguments) =
      with_catalog peer (label (call_tool name arguments)) (handle_tools_call name arguments)
  handle peer (activate_server server) =
      with_catalog peer (label (activate_server server)) (handle_activate server)
  handle peer (switch_team team) = do
    identity ← admitted_caller peer (label (switch_team team))
    handle_team team identity
  handle peer (switch_environment environment) = do
    identity ← admitted_caller peer (label (switch_environment environment))
    handle_environment environment
