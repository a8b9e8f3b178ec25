-- ===== src/Mcp/Service/Coherence.antt =====
-- The held catalog is the one of the settings in force (src/mcp/service.rs).
pub mod Runs
pub mod Handled
use litellm_relay.Common.{
  String, ℕ, ◌≡◌, inl, inr, refl, ap, Bool, true, false, Bool-cases, Option-cases, Option, none,
  some, List, [], ◌∷◌, arith, if◌then◌else◌, ◌==◌, ==_iff, map_option, unwrap_or, option_eq,
}
use litellm_relay.Common.Sorted.{lookup}
use litellm_relay.Json.{Value, Fields}
use litellm_relay.Mcp.Verdict.Words.{CharClasses}
use litellm_relay.Mcp.Verdict.{allow, ask}
use litellm_relay.Mcp.Catalog.{
  Catalog, CatalogEntry, tool_counts_by_server, UpstreamTool, with_settings, build, no_servers,
}
use litellm_relay.Mcp.Catalog.Reload.{with_settings-build, with_settings-with_settings}
use litellm_relay.Mcp.Service.Types.{
  SessionBearer, SessionIdentity, identity_eq, section_eq, McpRefusal, McpRequest, McpSection,
  allowed_tools, prefix_separator, search_tools, describe_tool, call_tool, activate_server,
  switch_team, switch_environment, Event, State, Session, Timed, answered, failed, timed_out,
  Question,
}
use litellm_relay.Common.Action.{Result, ok, err}
use litellm_relay.Mcp.Service.Host.{
  Host, Env, Exec, pure, observe, modify, note, yields, gets, ◌>>=◌, ◌>>◌,
}
use litellm_relay.Mcp.Service.Keeps.{Keeps, Keeps-pure, Keeps-bind, keeps_rules}
use litellm_relay.Mcp.Service.Session.{
  identity_of, apply_section, adopt_identity, note_attempt, store_catalog, forget_attempt,
  activate_for, reload_with, reload_at, reload_settings, adopt, note_fetch_attempt, take_listing,
  fetch_catalog, held_or_fetched, catalog_for, admitted_bearer, admitted_caller,
  require_same_session, due_bearer, bearer_when_a_fetch_is_due, logged, check_session,
}
use litellm_relay.Mcp.Service.Tools.{
  confirm, confirm_unless_allowed, require_active, search as search_catalog, describe, call,
  activate_in_session, activate_confirmed, activate_tools, activate_found, activate,
}
use litellm_relay.Mcp.Service.Switching.{
  forget_fetch_time, selection_after, switch_team_to, switch_environment_to, switch_team_request,
  switch_environment_request,
}
use litellm_relay.Mcp.Service.Requests.{
  with_catalog, handle_search, handle_describe, handle_activate, handle_tools_call, handle_team,
  handle_environment, handle,
}

-- Applying the section to the catalog changes nothing.
abbrev pub CatalogFits : CharClasses → McpSection → Option Catalog → Type 0
CatalogFits classes section none = Unit
CatalogFits classes section (some c) =
    with_settings classes c (prefix_separator section) (allowed_tools section) ≡ c

abbrev pub SessionFits : CharClasses → McpSection → Option Session → Type 0
SessionFits classes section none = Unit
SessionFits classes section (some session) = CatalogFits classes section session.catalog

abbrev pub StateFits : CharClasses → State → Type 0
StateFits classes s = SessionFits classes s.section s.session

module _ (classes : CharClasses) where
  CatalogFits-reload :
      (section : McpSection) (o : Option Catalog)
      → CatalogFits classes section (
          map_option
            (λ c. with_settings classes c (prefix_separator section) (allowed_tools section))
            o)
  CatalogFits-reload section none = tt
  CatalogFits-reload section (some c) =
      with_settings-with_settings classes c (prefix_separator section) (prefix_separator section)
        (allowed_tools section) (allowed_tools section)

  SessionFits-reload :
      (section : McpSection) (o : Option Session)
      → SessionFits classes section (
          map_option
            (λ (session : Session). record session {
              catalog =
                  map_option
                    (λ c.
                      with_settings classes c (prefix_separator section) (allowed_tools section))
                    session.catalog;
            })
            o)
  SessionFits-reload section none = tt
  SessionFits-reload section (some session) = CatalogFits-reload section session.catalog

  SessionFits-map :
      (section : McpSection) (f : Session → Session) (o : Option Session)
      → ((session : Session)
          → CatalogFits classes section session.catalog
          → CatalogFits classes section (f session).catalog)
      → SessionFits classes section o
      → SessionFits classes section (map_option f o)
  SessionFits-map section f none k v = tt
  SessionFits-map section f (some session) k v = k session v

  CatalogFits-if :
      (section : McpSection) (b : Bool) (x y : Session)
      → CatalogFits classes section x.catalog
      → CatalogFits classes section y.catalog
      → CatalogFits classes section (if b then x else y).catalog
  CatalogFits-if section true x y u v = u
  CatalogFits-if section false x y u v = v

  pub apply_section-StateFits :
      (version : ℕ) (section : McpSection) (s : State)
      → StateFits classes s
      → StateFits classes (apply_section classes version section s)
  unfolding apply_section
  apply_section-StateFits version section s v = elim (Bool-cases (s.section == section)) [
    | inl e ↦ rw e v
    | inr e ↦ rw e (SessionFits-reload section s.session)
  ]

  SessionFits-new :
      (section : McpSection) (i : Option SessionIdentity)
      → SessionFits classes section (
          map_option
            (λ i. record {
              identity = i;
              catalog = none;
              active = no_servers;
              fetch_attempted_at = none;
            })
            i)
  SessionFits-new section none = tt
  SessionFits-new section (some i) = tt

  pub adopt_identity-StateFits :
      (i : Option SessionIdentity) (s : State)
      → StateFits classes s
      → StateFits classes (adopt_identity i s)
  unfolding adopt_identity
  adopt_identity-StateFits i s v = elim (Bool-cases (identity_of s == i)) [
    | inl e ↦ rw e v
    | inr e ↦ rw e (SessionFits-new s.section i)
  ]

  pub note_attempt-StateFits :
      (i : Option SessionIdentity) (now : ℕ) (s : State)
      → StateFits classes s
      → StateFits classes (note_attempt i now s)
  unfolding note_attempt
  note_attempt-StateFits i now s v =
      SessionFits-map s.section _ s.session (λ session u. CatalogFits-if s.section _ _ session u u)
        v

  pub forget_attempt-StateFits :
      (i : SessionIdentity) (s : State)
      → StateFits classes s
      → StateFits classes (forget_attempt i s)
  unfolding forget_attempt
  forget_attempt-StateFits i s v =
      SessionFits-map s.section _ s.session (λ session u. CatalogFits-if s.section _ _ session u u)
        v

  pub activate_for-StateFits :
      (i : SessionIdentity) (server : String) (s : State)
      → StateFits classes s
      → StateFits classes (activate_for i server s)
  unfolding activate_for
  activate_for-StateFits i server s v =
      SessionFits-map s.section _ s.session (λ session u. CatalogFits-if s.section _ _ session u u)
        v

  pub store_catalog-StateFits :
      (i : SessionIdentity) (c : Catalog) (s : State)
      → CatalogFits classes s.section (some c)
      → StateFits classes s
      → StateFits classes (store_catalog i c s)
  unfolding store_catalog
  store_catalog-StateFits i c s f v =
      SessionFits-map s.section _ s.session
        (λ session u. CatalogFits-if s.section _ (record session { catalog = some c }) session f u)
        v
