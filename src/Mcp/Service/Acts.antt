-- ===== src/Mcp/Service/Acts.antt =====
-- What a request may do beyond the daemon (src/mcp/service.rs, `McpService::handle`).
use litellm_relay.Common.{String, ◌≡◌, Option, none, some, List, [], ◌∷◌}
use litellm_relay.Common.Sorted.{lookup}
use litellm_relay.Mcp.Catalog.{Catalog, tool_counts_by_server, UpstreamTool}
use litellm_relay.Mcp.Service.Types.{
  SessionBearer, SessionIdentity, McpSection, Event, asked, listed, resized, checked, called,
  switched_team, switched_environment, State, Timed, answered, failed, timed_out, Question,
}
use litellm_relay.Mcp.Service.Host.{Host, Env, observe, modify, note, yields}
use litellm_relay.Mcp.Service.Keeps.{Keeps, keeps_rules}
use litellm_relay.Mcp.Service.Session.{
  reload_with, reload_at, reload_settings, adopt, note_fetch_attempt, take_listing, fetch_catalog,
  held_or_fetched, catalog_for, admitted_bearer, admitted_caller, require_same_session,
}
use litellm_relay.Mcp.Service.Tools.{
  confirm, require_active, search as search_catalog, describe, activate_in_session,
  activate_confirmed, activate_tools, activate_found, activate,
}

-- The tool calls and the switches among the events.
abbrev pub acts : List Event → List Event
acts [] = []
acts (called target name arguments ∷ rest) = called target name arguments ∷ acts rest
acts (switched_team team ∷ rest) = switched_team team ∷ acts rest
acts (switched_environment name ∷ rest) = switched_environment name ∷ acts rest
acts (asked _ _ ∷ rest) = acts rest
acts (listed _ ∷ rest) = acts rest
acts (resized _ ∷ rest) = acts rest
acts (checked _ ∷ rest) = acts rest

abbrev pub SameActs : {h : Host} → List Event → Env h → Type 0
SameActs l env = acts env.events ≡ l

module _ {h : Host} {l : List Event} where
  pub observe-SameActs :
      {A : Type 0} (f : h.World → A × h.World) → Keeps (SameActs l) (observe {h = h} f)
  unfolding observe
  observe-SameActs f = record { at = λ env v. v }

  modify-SameActs : (f : State → State) → Keeps (SameActs l) (modify {h = h} f)
  unfolding modify
  modify-SameActs f = record { at = λ env v. v }

  yields-SameActs : Keeps (SameActs l) (yields {h = h})
  unfolding yields
  yields-SameActs = record { at = λ env v. v }

  asked-SameActs : (q : Question) (a : _) → Keeps (SameActs l) (note {h = h} (asked q a))
  unfolding note
  asked-SameActs q a = record { at = λ env v. v }

  listed-SameActs : (t : _) → Keeps (SameActs l) (note {h = h} (listed t))
  unfolding note
  listed-SameActs t = record { at = λ env v. v }

  resized-SameActs : (n : _) → Keeps (SameActs l) (note {h = h} (resized n))
  unfolding note
  resized-SameActs n = record { at = λ env v. v }

  checked-SameActs : (i : SessionIdentity) → Keeps (SameActs l) (note {h = h} (checked i))
  unfolding note
  checked-SameActs i = record { at = λ env v. v }

ruleset quiet = (
  keeps_rules, observe-SameActs, modify-SameActs, yields-SameActs, asked-SameActs, listed-SameActs,
  resized-SameActs, checked-SameActs,
)

module _ {h : Host} {l : List Event} where
  reload_with-SameActs :
      (version : _) (s : Option McpSection) → Keeps (SameActs l) (reload_with {h = h} version s)
  unfolding reload_with
  reload_with-SameActs version none = search quiet
  reload_with-SameActs version (some s) = search quiet

  reload_at-SameActs : (version : _) → Keeps (SameActs l) (reload_at {h = h} version)
  unfolding reload_at
  reload_at-SameActs none = search quiet
  reload_at-SameActs (some version) = search (quiet, reload_with-SameActs)

  reload_settings-SameActs : Keeps (SameActs l) (reload_settings {h = h})
  unfolding reload_settings
  reload_settings-SameActs = search (quiet, reload_at-SameActs)

  adopt-SameActs : (i : _) → Keeps (SameActs l) (adopt {h = h} i)
  unfolding adopt
  adopt-SameActs i = search quiet

  note_fetch_attempt-SameActs : (i : _) → Keeps (SameActs l) (note_fetch_attempt {h = h} i)
  unfolding note_fetch_attempt
  note_fetch_attempt-SameActs i = search quiet

  take_listing-SameActs :
      (b : SessionBearer) (t : Timed (List UpstreamTool))
      → Keeps (SameActs l) (take_listing {h = h} b t)
  unfolding take_listing
  take_listing-SameActs b (answered tools) = search quiet
  take_listing-SameActs b (failed error) = search quiet
  take_listing-SameActs b timed_out = search quiet

  fetch_catalog-SameActs : (b : SessionBearer) → Keeps (SameActs l) (fetch_catalog {h = h} b)
  unfolding fetch_catalog
  fetch_catalog-SameActs b = search (quiet, note_fetch_attempt-SameActs, take_listing-SameActs)

  held_or_fetched-SameActs :
      (b : SessionBearer) (c : Option Catalog) → Keeps (SameActs l) (held_or_fetched {h = h} b c)
  unfolding held_or_fetched
  held_or_fetched-SameActs b none = fetch_catalog-SameActs b
  held_or_fetched-SameActs b (some c) = search quiet

  pub catalog_for-SameActs : (b : SessionBearer) → Keeps (SameActs l) (catalog_for {h = h} b)
  unfolding catalog_for
  catalog_for-SameActs b = search (quiet, held_or_fetched-SameActs)

  pub admitted_bearer-SameActs :
      (p : h.Peer) (label : String) → Keeps (SameActs l) (admitted_bearer {h = h} p label)
  unfolding admitted_bearer
  admitted_bearer-SameActs p label =
      search (quiet, reload_settings-SameActs, adopt-SameActs) depth 12

  pub admitted_caller-SameActs :
      (p : h.Peer) (label : String) → Keeps (SameActs l) (admitted_caller {h = h} p label)
  unfolding admitted_caller
  admitted_caller-SameActs p label =
      search (quiet, reload_settings-SameActs, adopt-SameActs) depth 12

  require_active-SameActs :
      (b : SessionBearer) (server : String) → Keeps (SameActs l) (require_active {h = h} b server)
  unfolding require_active
  require_active-SameActs b server = search quiet

  pub search-SameActs :
      (c : Catalog) (b : SessionBearer) (q : String)
      → Keeps (SameActs l) (search_catalog {h = h} c b q)
  unfolding search_catalog
  search-SameActs c b q = search quiet

  pub describe-SameActs :
      (c : Catalog) (b : SessionBearer) (name : String)
      → Keeps (SameActs l) (describe {h = h} c b name)
  unfolding describe
  describe-SameActs c b name = search (quiet, require_active-SameActs)

  confirm-SameActs : (q : Question) → Keeps (SameActs l) (confirm {h = h} q)
  unfolding confirm
  confirm-SameActs q = search quiet

  require_same_session-SameActs :
      (b : SessionBearer) → Keeps (SameActs l) (require_same_session {h = h} b)
  unfolding require_same_session
  require_same_session-SameActs b = search (quiet, adopt-SameActs) depth 12

  activate_in_session-SameActs :
      (b : SessionBearer) (s : String) → Keeps (SameActs l) (activate_in_session {h = h} b s)
  unfolding activate_in_session
  activate_in_session-SameActs b s = search quiet depth 8

  activate_confirmed-SameActs :
      (b : SessionBearer) (s : String) (n : _)
      → Keeps (SameActs l) (activate_confirmed {h = h} b s n)
  unfolding activate_confirmed
  activate_confirmed-SameActs b s n =
      search (quiet, confirm-SameActs, require_same_session-SameActs, activate_in_session-SameActs)
        depth 8

  activate_tools-SameActs :
      (b : SessionBearer) (s : String) (n : _) → Keeps (SameActs l) (activate_tools {h = h} b s n)
  unfolding activate_tools
  activate_tools-SameActs b s n = search (quiet, activate_confirmed-SameActs)

  activate_found-SameActs :
      (b : SessionBearer) (s : String) (o : Option _)
      → Keeps (SameActs l) (activate_found {h = h} b s o)
  unfolding activate_found
  activate_found-SameActs b s none = search quiet
  activate_found-SameActs b s (some n) = activate_tools-SameActs b s n

  pub activate-SameActs :
      (c : Catalog) (b : SessionBearer) (s : String) → Keeps (SameActs l) (activate {h = h} c b s)
  unfolding activate
  activate-SameActs c b s = activate_found-SameActs b s (lookup s (tool_counts_by_server c))
