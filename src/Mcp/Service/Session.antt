-- ===== src/Mcp/Service/Session.antt =====
-- The session that the service holds: its settings, its identity and its catalog (src/mcp/service.rs).
use litellm_relay.Common.{
  String, ℕ, ◌+◌, Bool, true, false, Option, none, some, List, if◌then◌else◌, ◌==◌, nat_eq,
  string_eq, option_eq, map_option, filter_option, is_some_and, leb, unwrap_or,
}
use litellm_relay.Mcp.Verdict.Words.{CharClasses}
use litellm_relay.Mcp.Catalog.{
  Catalog, ActiveServers, UpstreamTool, no_servers, with_settings, build, activate,
}
use litellm_relay.Mcp.Service.Types.{
  SessionIdentity, identity_eq, SessionBearer, gateway_target, McpSection, section_eq,
  allowed_tools, concurrent_call_cap, prefix_separator, Refusal, McpRefusal, broker,
  catalog_unavailable, not_listed, listing_timed_out, session_changed, Session, State, Timed,
  answered, failed, timed_out, listed, resized, checked,
}
use litellm_relay.Common.Action.{Result, ok, err}
use litellm_relay.Mcp.Service.Host.{
  Host, Exec, pure, refuse, lift, gets, observe, modify, note, yields, ◌>>=◌, ◌>>◌,
}

abbrev pub catalog_refresh_seconds : ℕ
catalog_refresh_seconds = 300

abbrev pub identity_of : State → Option SessionIdentity
identity_of s = map_option (λ (session : Session). session.identity) s.session

-- state.session.filter(|session| session.identity == identity)
abbrev pub session_of : SessionIdentity → State → Option Session
session_of identity s = filter_option (λ session. session.identity == identity) s.session

-- The second half of `reload_settings`, under the lock, and what it does to the slots.
unfoldable pub apply_section : CharClasses → ℕ → McpSection → State → State
apply_section classes version section s =
    if s.section == section then record s { settings_version = some version } else record s {
      settings_version = some version;
      section = section;
      session =
          map_option
            (λ (session : Session). record session {
              catalog =
                  map_option
                    (λ c.
                      with_settings classes c (prefix_separator section) (allowed_tools section))
                    session.catalog;
            })
            s.session;
    }

-- `adopt`: another identity begins a session with nothing in it.
unfoldable pub adopt_identity : Option SessionIdentity → State → State
adopt_identity identity s = if identity_of s == identity then s else record s {
  session =
      map_option
        (λ i. record {
          identity = i;
          catalog = none;
          active = no_servers;
          fetch_attempted_at = none;
        })
        identity;
}

-- `note_fetch_attempt`, with the identity it is for, if it is for one.
unfoldable pub note_attempt : Option SessionIdentity → ℕ → State → State
note_attempt identity now s = record s {
  session =
      map_option
        (λ (session : Session).
          if unwrap_or true (map_option (λ i. session.identity == i) identity)
          then record session { fetch_attempted_at = some now }
          else session)
        s.session;
}

-- The end of `fetch_catalog`: the catalog is kept only for the session that it was fetched for.
unfoldable pub store_catalog : SessionIdentity → Catalog → State → State
store_catalog identity catalog s = record s {
  session =
      map_option
        (λ (session : Session).
          if session.identity == identity
          then record session { catalog = some catalog }
          else session)
        s.session;
}

-- `forget_fetch_time`
unfoldable pub forget_attempt : SessionIdentity → State → State
forget_attempt identity s = record s {
  session =
      map_option
        (λ (session : Session).
          if session.identity == identity
          then record session { fetch_attempted_at = none }
          else session)
        s.session;
}

-- The end of `activate`.
unfoldable pub activate_for : SessionIdentity → String → State → State
activate_for identity server s = record s {
  session =
      map_option
        (λ (session : Session).
          if session.identity == identity
          then record session { active = activate session.active server }
          else session)
        s.session;
}

-- `active_servers`
unfoldable pub active_servers : SessionBearer → State → ActiveServers
active_servers bearer s =
    unwrap_or no_servers
      (map_option (λ (session : Session). session.active) (session_of bearer.identity s))

-- map_err(McpRefusal::Broker)
abbrev pub from_broker : {A : Type 0} → Result Refusal A → Result McpRefusal A
from_broker (ok a) = ok a
from_broker (err r) = err (broker r)

abbrev pub is_session_of : SessionIdentity → State → Bool
is_session_of identity s =
    is_some_and (λ (session : Session). session.identity == identity) s.session

-- Whether a fetch is due: none was attempted, or the last one 300 seconds ago.
abbrev pub is_due : ℕ → State → Bool
is_due now s =
    is_some_and
      (λ (session : Session). unwrap_or true (
        map_option (λ attempted_at. leb (attempted_at + catalog_refresh_seconds) now)
          session.fetch_attempted_at))
      s.session

module _ {h : Host} where
  unfoldable pub reload_with : ℕ → Option McpSection → Exec h (Unit {0})
  reload_with version none = pure tt
  reload_with version (some section) = do
    unchanged ← gets (λ s. s.section == section)
    modify (apply_section h.classes version section)
    if unchanged then pure tt else note (resized (concurrent_call_cap section))

  unfoldable pub reload_at : Option ℕ → Exec h (Unit {0})
  reload_at none = pure tt
  reload_at (some version) = do
    known ← gets (λ s. s.settings_version == some version)
    if known then pure tt else (do section ← observe h.load_settings; reload_with version section)

  unfoldable pub reload_settings : Exec h (Unit {0})
  reload_settings = do version ← observe h.settings_version; reload_at version

  unfoldable pub adopt : Option SessionIdentity → Exec h (Unit {0})
  adopt identity = modify (adopt_identity identity)

  unfoldable pub note_fetch_attempt : Option SessionIdentity → Exec h (Unit {0})
  note_fetch_attempt identity = do now ← observe h.now; modify (note_attempt identity now)

  -- The listing is kept if the session is still the bearer's.
  unfoldable pub take_listing : SessionBearer → Timed (List UpstreamTool) → Exec h Catalog
  take_listing bearer (failed error) = refuse (catalog_unavailable (not_listed error))
  take_listing bearer timed_out = refuse (catalog_unavailable listing_timed_out)
  take_listing bearer (answered tools) = do
    catalog ←
        gets (λ s. build h.classes tools (prefix_separator s.section) (allowed_tools s.section))
    modify (store_catalog bearer.identity catalog)
    pure catalog

  unfoldable pub fetch_catalog : SessionBearer → Exec h Catalog
  fetch_catalog bearer = do
    note_fetch_attempt (some bearer.identity)
    let target = gateway_target bearer
    listing ← observe (h.list_tools target)
    note (listed target)
    take_listing bearer listing

  unfoldable pub held_or_fetched : SessionBearer → Option Catalog → Exec h Catalog
  held_or_fetched bearer (some catalog) = pure catalog
  held_or_fetched bearer none = fetch_catalog bearer

  unfoldable pub catalog_for : SessionBearer → Exec h Catalog
  catalog_for bearer = do
    held ← gets (λ s. elim s.session [ none ↦ none | some session ↦ session.catalog ])
    held_or_fetched bearer held

  -- `admit` and `admitted_bearer`
  unfoldable pub admitted_bearer : h.Peer → String → Exec h SessionBearer
  admitted_bearer peer label = do
    reply ← observe (h.session_bearer_for_peer peer label)
    bearer ← lift (from_broker reply)
    reload_settings
    adopt (some bearer.identity)
    yields
    pure bearer

  -- `admit_without_credential` and `admitted_caller`
  unfoldable pub admitted_caller : h.Peer → String → Exec h (Option SessionIdentity)
  admitted_caller peer label = do
    reply ← observe (h.admit_caller peer label)
    lift (from_broker reply)
    reload_settings
    identity ← observe h.session_identity
    adopt identity
    yields
    pure identity

  unfoldable pub require_same_session : SessionBearer → Exec h (Unit {0})
  require_same_session bearer = do
    identity ← observe h.session_identity
    adopt identity
    yields
    same ← gets (is_session_of bearer.identity)
    if same then note (checked bearer.identity) else refuse (catalog_unavailable session_changed)

  unfoldable pub due_bearer : Bool → Exec h (Option SessionBearer)
  due_bearer false = pure none
  due_bearer true = do
    reply ← observe h.session_bearer_for_daemon
    elim reply [
      | ok bearer ↦ pure (some bearer)
      | err refusal ↦ (do note_fetch_attempt none; pure none)
    ]

  unfoldable pub bearer_when_a_fetch_is_due : Exec h (Option SessionBearer)
  bearer_when_a_fetch_is_due = do
    reload_settings
    identity ← observe h.session_identity
    adopt identity
    now ← observe h.now
    due ← gets (is_due now)
    due_bearer due

  -- A refusal is only logged, and the catalog that is held stays.
  unfoldable pub logged : Exec h Catalog → Exec h (Unit {0})
  logged m env = let (_, env') = m env in (ok tt, env')

  unfoldable pub check_session : Exec h (Unit {0})
  check_session = do
    due ← bearer_when_a_fetch_is_due
    elim due [ none ↦ pure tt | some bearer ↦ logged (fetch_catalog bearer) ]
