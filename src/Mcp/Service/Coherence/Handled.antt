-- ===== src/Mcp/Service/Coherence/Handled.antt =====
-- The requests of src/mcp/service.rs and the held catalog.
use litellm_relay.Common.{String, Option, none, some, option_eq}
use litellm_relay.Json.{Value, Fields}
use litellm_relay.Mcp.Verdict.{Verdict, allow, ask}
use litellm_relay.Mcp.Catalog.{Catalog, CatalogEntry}
use litellm_relay.Mcp.Service.Types.{
  SessionBearer, SessionIdentity, identity_eq, section_eq, McpRequest, search_tools, describe_tool,
  call_tool, activate_server, switch_team, switch_environment, Question,
}
use litellm_relay.Mcp.Service.Host.{Host, Env, pure, ◌>>=◌}
use litellm_relay.Mcp.Service.Keeps.{Keeps}
use litellm_relay.Mcp.Service.Session.{
  adopt, active_servers, admitted_bearer, admitted_caller, require_same_session,
}
use litellm_relay.Mcp.Service.Tools.{
  entry_named, confirm, confirm_unless_allowed, require_active, call,
}
use litellm_relay.Mcp.Service.Switching.{
  team_id_problem, forget_fetch_time, selection_after, switch_team_to, switch_environment_to,
  switch_team_request, switch_environment_request,
}
use litellm_relay.Mcp.Service.Requests.{
  with_catalog, handle_search, handle_describe, handle_activate, handle_tools_call, handle_team,
  handle_environment, handle,
}
use litellm_relay.Mcp.Service.Coherence.Runs.{
  IsCoherent, Rely, steps, search-Coherent, describe-Coherent, activate-Coherent,
  admitted_bearer-Coherent, admitted_caller-Coherent, catalog_for-Coherent, confirm-Coherent,
  require_active-Coherent,
}

module _ {h : Host} (rely : Rely h) where
  confirm_unless_allowed-Coherent :
      (e : CatalogEntry) (name : String) (arguments : Option Fields)
      → Keeps IsCoherent (confirm_unless_allowed {h = h} e name arguments)
  unfolding confirm_unless_allowed
  confirm_unless_allowed-Coherent e name arguments = asked e.verdict
    where
      asked :
          (v : Verdict)
          → Keeps IsCoherent (elim v [
            | allow ↦ pure {h = h} tt
            | ask ↦ confirm (Question.confirm_call name e.server arguments)
          ])
      asked allow = search steps
      asked ask = search (steps, confirm-Coherent)

  call-Coherent :
      (c : Catalog) (b : SessionBearer) (name : String) (arguments : Option Fields)
      → Keeps IsCoherent (call {h = h} c b name arguments)
  unfolding call ◌>>=◌ entry_named require_active active_servers confirm_unless_allowed
      require_same_session adopt
  call-Coherent c b name arguments =
      search (steps, require_active-Coherent, confirm_unless_allowed-Coherent) depth 20

  selection_after-Coherent : (v : Value) → Keeps IsCoherent (selection_after {h = h} v)
  unfolding selection_after
  selection_after-Coherent v = search steps

  forget_fetch_time-Coherent :
      (i : Option SessionIdentity) → Keeps IsCoherent (forget_fetch_time {h = h} i)
  forget_fetch_time-Coherent none = search steps
  forget_fetch_time-Coherent (some i) = search steps

  switch_team_to-Coherent :
      (i : Option SessionIdentity) (team : String)
      → Keeps IsCoherent (switch_team_to {h = h} i team)
  unfolding switch_team_to ◌>>=◌ team_id_problem confirm
  switch_team_to-Coherent i team =
      search (steps, confirm-Coherent, forget_fetch_time-Coherent, selection_after-Coherent) depth
        20

  switch_environment_to-Coherent :
      (name : String) → Keeps IsCoherent (switch_environment_to {h = h} name)
  unfolding switch_environment_to ◌>>=◌ confirm
  switch_environment_to-Coherent name =
      search (steps, confirm-Coherent, selection_after-Coherent) depth 20

  switch_team_request-Coherent :
      (i : Option SessionIdentity) (team : Option String)
      → Keeps IsCoherent (switch_team_request {h = h} i team)
  unfolding switch_team_request
  switch_team_request-Coherent i none = search steps
  switch_team_request-Coherent i (some team) = switch_team_to-Coherent i team

  switch_environment_request-Coherent :
      (name : Option String) → Keeps IsCoherent (switch_environment_request {h = h} name)
  unfolding switch_environment_request
  switch_environment_request-Coherent none = search steps
  switch_environment_request-Coherent (some name) = switch_environment_to-Coherent name

  handle-Coherent : (peer : h.Peer) (r : McpRequest) → Keeps IsCoherent (handle {h = h} peer r)
  unfolding handle with_catalog handle_search handle_describe handle_tools_call handle_activate
      handle_team handle_environment ◌>>=◌ admitted_bearer admitted_caller
  handle-Coherent peer (search_tools query) =
      search (steps, admitted_bearer-Coherent, catalog_for-Coherent, search-Coherent) depth 12
  handle-Coherent peer (describe_tool name) =
      search (steps, admitted_bearer-Coherent, catalog_for-Coherent, describe-Coherent) depth 12
  handle-Coherent peer (call_tool name arguments) =
      search (steps, admitted_bearer-Coherent, catalog_for-Coherent, call-Coherent) depth 12
  handle-Coherent peer (activate_server server) =
      search (steps, admitted_bearer-Coherent, catalog_for-Coherent, activate-Coherent) depth 12
  handle-Coherent peer (switch_team team) =
      search (steps, admitted_caller-Coherent, switch_team_request-Coherent) depth 12
  handle-Coherent peer (switch_environment name) =
      search (steps, admitted_caller-Coherent, switch_environment_request-Coherent) depth 12

-- If the catalog that the service holds is the one that its settings give, it still is after any request,
-- whatever the request comes to, as long as the other tasks that run meanwhile keep it so: a change of the
-- allow list or of the separator reaches the catalog that is already held.
pub handle-IsCoherent :
    {h : Host} (rely : Rely h) (peer : h.Peer) (request : McpRequest) (env : Env h)
    → IsCoherent env
    → IsCoherent (handle peer request env).1
handle-IsCoherent rely peer request env v = (handle-Coherent rely peer request).at env v
