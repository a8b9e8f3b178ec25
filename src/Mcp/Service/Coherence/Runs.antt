-- ===== src/Mcp/Service/Coherence/Runs.antt =====
-- The steps of src/mcp/service.rs and the held catalog.
use litellm_relay.Common.{String, ℕ, Option, none, some, List, option_eq}
use litellm_relay.Common.Sorted.{lookup}
use litellm_relay.Mcp.Catalog.{Catalog, tool_counts_by_server, UpstreamTool, build}
use litellm_relay.Mcp.Catalog.Reload.{with_settings-build}
use litellm_relay.Mcp.Service.Types.{
  SessionBearer, SessionIdentity, identity_eq, section_eq, McpSection, allowed_tools,
  prefix_separator, Event, State, Timed, answered, failed, timed_out, Question,
}
use litellm_relay.Mcp.Service.Host.{Host, Env, pure, observe, modify, note, yields, gets, ◌>>=◌}
use litellm_relay.Mcp.Service.Keeps.{Keeps, Keeps-pure, Keeps-bind, keeps_rules}
use litellm_relay.Mcp.Service.Session.{
  apply_section, adopt_identity, note_attempt, forget_attempt, activate_for, reload_with, reload_at,
  reload_settings, adopt, note_fetch_attempt, take_listing, fetch_catalog, held_or_fetched,
  catalog_for, admitted_bearer, admitted_caller, require_same_session,
}
use litellm_relay.Mcp.Service.Tools.{
  confirm, require_active, search as search_catalog, describe, activate_in_session,
  activate_confirmed, activate_tools, activate_found, activate,
}
use litellm_relay.Mcp.Service.Coherence.{
  StateFits, apply_section-StateFits, adopt_identity-StateFits, note_attempt-StateFits,
  forget_attempt-StateFits, activate_for-StateFits, store_catalog-StateFits,
}

abbrev pub IsCoherent : {h : Host} → Env h → Type 0
IsCoherent {h} env = StateFits h.classes env.state

-- The other tasks keep the catalog that way.
abbrev pub Rely : Host → Type 0
Rely h = (w : h.World) (s : State) → StateFits h.classes s → StateFits h.classes (h.meanwhile w s).0

module _ {h : Host} (rely : Rely h) where
  pub observe-Coherent :
      {A : Type 0} (f : h.World → A × h.World) → Keeps IsCoherent (observe {h = h} f)
  unfolding observe
  observe-Coherent f = record { at = λ env v. rely (f env.world).1 env.state v }

  pub yields-Coherent : Keeps IsCoherent (yields {h = h})
  unfolding yields
  yields-Coherent = record { at = λ env v. rely env.world env.state v }

module _ {h : Host} where
  pub note-Coherent : (e : Event) → Keeps IsCoherent (note {h = h} e)
  unfolding note
  note-Coherent e = record { at = λ env v. v }

  pub apply-Coherent :
      (version : ℕ) (s : McpSection)
      → Keeps IsCoherent (modify {h = h} (apply_section h.classes version s))
  unfolding modify
  apply-Coherent version s = record {
    at = λ env v. apply_section-StateFits h.classes version s env.state v;
  }

  pub adopt_identity-Coherent :
      (i : Option SessionIdentity) → Keeps IsCoherent (modify {h = h} (adopt_identity i))
  unfolding modify
  adopt_identity-Coherent i = record {
    at = λ env v. adopt_identity-StateFits h.classes i env.state v;
  }

  pub note_attempt-Coherent :
      (i : Option SessionIdentity) (now : ℕ)
      → Keeps IsCoherent (modify {h = h} (note_attempt i now))
  unfolding modify
  note_attempt-Coherent i now = record {
    at = λ env v. note_attempt-StateFits h.classes i now env.state v;
  }

  pub forget_attempt-Coherent :
      (i : SessionIdentity) → Keeps IsCoherent (modify {h = h} (forget_attempt i))
  unfolding modify
  forget_attempt-Coherent i = record {
    at = λ env v. forget_attempt-StateFits h.classes i env.state v;
  }

  pub activate_for-Coherent :
      (i : SessionIdentity) (server : String)
      → Keeps IsCoherent (modify {h = h} (activate_for i server))
  unfolding modify
  activate_for-Coherent i server = record {
    at = λ env v. activate_for-StateFits h.classes i server env.state v;
  }

pub ruleset steps = (
  keeps_rules, observe-Coherent, yields-Coherent, note-Coherent, apply-Coherent,
  adopt_identity-Coherent, note_attempt-Coherent, forget_attempt-Coherent, activate_for-Coherent,
)

module _ {h : Host} (rely : Rely h) where
  reload_with-Coherent :
      (version : _) (s : Option McpSection) → Keeps IsCoherent (reload_with {h = h} version s)
  unfolding reload_with
  reload_with-Coherent version none = search steps
  reload_with-Coherent version (some s) = search steps

  reload_at-Coherent : (version : _) → Keeps IsCoherent (reload_at {h = h} version)
  unfolding reload_at
  reload_at-Coherent none = search steps
  reload_at-Coherent (some version) = search (steps, reload_with-Coherent)

  reload_settings-Coherent : Keeps IsCoherent (reload_settings {h = h})
  unfolding reload_settings
  reload_settings-Coherent = search (steps, reload_at-Coherent)

  adopt-Coherent : (i : _) → Keeps IsCoherent (adopt {h = h} i)
  unfolding adopt
  adopt-Coherent i = search steps

  note_fetch_attempt-Coherent : (i : _) → Keeps IsCoherent (note_fetch_attempt {h = h} i)
  unfolding note_fetch_attempt
  note_fetch_attempt-Coherent i = search steps

  take_listing-Coherent :
      (b : SessionBearer) (t : Timed (List UpstreamTool))
      → Keeps IsCoherent (take_listing {h = h} b t)
  unfolding take_listing gets modify pure ◌>>=◌
  take_listing-Coherent b (answered tools) = record {
    at = λ env v.
        let section = env.state.section in
        let tools_fit =
          with_settings-build h.classes tools (prefix_separator section) (prefix_separator section)
            (allowed_tools section) (allowed_tools section) in
        store_catalog-StateFits h.classes b.identity
          (build h.classes tools (prefix_separator section) (allowed_tools section)) env.state
          tools_fit v;
  }
  take_listing-Coherent b (failed error) = search steps
  take_listing-Coherent b timed_out = search steps

  fetch_catalog-Coherent : (b : SessionBearer) → Keeps IsCoherent (fetch_catalog {h = h} b)
  unfolding fetch_catalog
  fetch_catalog-Coherent b = search (steps, note_fetch_attempt-Coherent, take_listing-Coherent)

  held_or_fetched-Coherent :
      (b : SessionBearer) (c : Option Catalog) → Keeps IsCoherent (held_or_fetched {h = h} b c)
  unfolding held_or_fetched
  held_or_fetched-Coherent b none = fetch_catalog-Coherent b
  held_or_fetched-Coherent b (some c) = search steps

  pub catalog_for-Coherent : (b : SessionBearer) → Keeps IsCoherent (catalog_for {h = h} b)
  unfolding catalog_for
  catalog_for-Coherent b = search (steps, held_or_fetched-Coherent)

  pub admitted_bearer-Coherent :
      (p : h.Peer) (label : String) → Keeps IsCoherent (admitted_bearer {h = h} p label)
  unfolding admitted_bearer
  admitted_bearer-Coherent p label =
      search (steps, reload_settings-Coherent, adopt-Coherent) depth 12

  pub admitted_caller-Coherent :
      (p : h.Peer) (label : String) → Keeps IsCoherent (admitted_caller {h = h} p label)
  unfolding admitted_caller
  admitted_caller-Coherent p label =
      search (steps, reload_settings-Coherent, adopt-Coherent) depth 12

  pub require_active-Coherent :
      (b : SessionBearer) (server : String) → Keeps IsCoherent (require_active {h = h} b server)
  unfolding require_active
  require_active-Coherent b server = search steps

  pub search-Coherent :
      (c : Catalog) (b : SessionBearer) (q : String)
      → Keeps IsCoherent (search_catalog {h = h} c b q)
  unfolding search_catalog
  search-Coherent c b q = search steps

  pub describe-Coherent :
      (c : Catalog) (b : SessionBearer) (name : String)
      → Keeps IsCoherent (describe {h = h} c b name)
  unfolding describe
  describe-Coherent c b name = search (steps, require_active-Coherent)

  pub confirm-Coherent : (q : Question) → Keeps IsCoherent (confirm {h = h} q)
  unfolding confirm
  confirm-Coherent q = search steps

  require_same_session-Coherent :
      (b : SessionBearer) → Keeps IsCoherent (require_same_session {h = h} b)
  unfolding require_same_session
  require_same_session-Coherent b = search (steps, adopt-Coherent) depth 12

  activate_in_session-Coherent :
      (b : SessionBearer) (s : String) → Keeps IsCoherent (activate_in_session {h = h} b s)
  unfolding activate_in_session
  activate_in_session-Coherent b s = search steps depth 8

  activate_confirmed-Coherent :
      (b : SessionBearer) (s : String) (n : _) → Keeps IsCoherent (activate_confirmed {h = h} b s n)
  unfolding activate_confirmed
  activate_confirmed-Coherent b s n =
      search (steps, confirm-Coherent, require_same_session-Coherent, activate_in_session-Coherent)
        depth 8

  activate_tools-Coherent :
      (b : SessionBearer) (s : String) (n : _) → Keeps IsCoherent (activate_tools {h = h} b s n)
  unfolding activate_tools
  activate_tools-Coherent b s n = search (steps, activate_confirmed-Coherent)

  activate_found-Coherent :
      (b : SessionBearer) (s : String) (o : Option _)
      → Keeps IsCoherent (activate_found {h = h} b s o)
  unfolding activate_found
  activate_found-Coherent b s none = search steps
  activate_found-Coherent b s (some n) = activate_tools-Coherent b s n

  pub activate-Coherent :
      (c : Catalog) (b : SessionBearer) (s : String) → Keeps IsCoherent (activate {h = h} c b s)
  unfolding activate
  activate-Coherent c b s = activate_found-Coherent b s (lookup s (tool_counts_by_server c))
