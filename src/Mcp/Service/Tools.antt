-- ===== src/Mcp/Service/Tools.antt =====
-- Searching, describing, calling and activating tools (src/mcp/service.rs).
use litellm_relay.Common.{
  String, ℕ, Option, none, some, if◌then◌else◌, nat_eq, string_eq, option_eq,
}
use litellm_relay.Common.Sorted.{lookup}
use litellm_relay.Json.{Value, Fields}
use litellm_relay.Mcp.Verdict.{allow, ask}
use litellm_relay.Mcp.Catalog
use litellm_relay.Mcp.Catalog.{
  Catalog, CatalogEntry, SearchResult, is_active, tool_counts_by_server,
}
use litellm_relay.Mcp.Service.Types.{
  identity_eq, SessionBearer, gateway_target, McpRefusal, catalog_unavailable, session_changed,
  unknown_tool, unknown_server, server_inactive, confirmation_required, declined, cancelled,
  upstream_error, upstream_timeout, Timed, answered, failed, timed_out, Question, confirm_call,
  activate_server, Answer, accept, decline, cancel, unsupported, asked, called,
}
use litellm_relay.Common.Action.{Result, ok, err}
use litellm_relay.Mcp.Service.Host.{
  Host, Exec, pure, refuse, lift, gets, observe, modify, note, yields, ◌>>=◌, ◌>>◌,
}
use litellm_relay.Mcp.Service.Session.{
  active_servers, activate_for, is_session_of, require_same_session,
}

-- The activated server, as JSON {"server": server, "active": true}.
pub record Activated : Type 0 where
  pub server : String

abbrev pub consent : Answer → Result McpRefusal (Unit {0})
consent accept = ok tt
consent decline = err declined
consent cancel = err cancelled
consent unsupported = err confirmation_required

unfoldable pub entry_named : Catalog → String → Result McpRefusal CatalogEntry
entry_named catalog name = elim (Catalog.get catalog name) [
  | none ↦ err (unknown_tool name)
  | some entry ↦ ok entry
]

abbrev pub outcome : String → Timed Value → Result McpRefusal Value
outcome name (answered result) = ok result
outcome name (failed error) = err (upstream_error error)
outcome name timed_out = err (upstream_timeout name)

module _ {h : Host} where
  unfoldable pub confirm : Question → Exec h (Unit {0})
  confirm question = do
    answer ← observe (h.ask question)
    note (asked question answer)
    lift (consent answer)

  unfoldable pub require_active : SessionBearer → String → Exec h (Unit {0})
  require_active bearer server = do
    active ← gets (λ s. is_active (active_servers bearer s) server)
    if active then pure tt else refuse (server_inactive server)

  unfoldable pub search : Catalog → SessionBearer → String → Exec h SearchResult
  search catalog bearer query =
      gets (λ s. Catalog.search h.classes catalog query (active_servers bearer s))

  unfoldable pub describe : Catalog → SessionBearer → String → Exec h Value
  describe catalog bearer name = do
    entry ← lift (entry_named catalog name)
    require_active bearer entry.server
    pure (Catalog.describe entry)

  -- The user is asked unless the verdict lets the tool run.
  unfoldable pub confirm_unless_allowed : CatalogEntry → String → Option Fields → Exec h (Unit {0})
  confirm_unless_allowed entry name arguments = elim entry.verdict [
    | allow ↦ pure tt
    | ask ↦ confirm (confirm_call name entry.server arguments)
  ]

  -- `acquire` waits for a slot, which goes back when the action ends. Nothing closes the semaphore, so the
  -- wait does not fail.
  unfoldable pub call : Catalog → SessionBearer → String → Option Fields → Exec h Value
  call catalog bearer name arguments = do
    entry ← lift (entry_named catalog name)
    require_active bearer entry.server
    confirm_unless_allowed entry name arguments
    yields
    require_same_session bearer
    yields
    let target = gateway_target bearer
    note (called target name arguments)
    result ← observe (h.call_tool target name arguments)
    lift (outcome name result)

  -- The server is activated for the bearer's session, if that is still the one held.
  unfoldable pub activate_in_session : SessionBearer → String → Exec h Activated
  activate_in_session bearer server = do
    same ← gets (is_session_of bearer.identity)
    if same
        then (do modify (activate_for bearer.identity server); pure (record { server = server }))
        else refuse (catalog_unavailable session_changed)

  unfoldable pub activate_confirmed : SessionBearer → String → ℕ → Exec h Activated
  activate_confirmed bearer server tools = do
    confirm (activate_server server tools)
    require_same_session bearer
    yields
    activate_in_session bearer server

  unfoldable pub activate_tools : SessionBearer → String → ℕ → Exec h Activated
  activate_tools bearer server tools = do
    active ← gets (λ s. is_active (active_servers bearer s) server)
    if active then pure (record { server = server }) else activate_confirmed bearer server tools

  unfoldable pub activate_found : SessionBearer → String → Option ℕ → Exec h Activated
  activate_found bearer server none = refuse (unknown_server server)
  activate_found bearer server (some tools) = activate_tools bearer server tools

  unfoldable pub activate : Catalog → SessionBearer → String → Exec h Activated
  activate catalog bearer server =
      activate_found bearer server (lookup server (tool_counts_by_server catalog))
