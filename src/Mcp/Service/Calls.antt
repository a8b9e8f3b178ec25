-- ===== src/Mcp/Service/Calls.antt =====
-- What must come before a tool call (src/mcp/service.rs, `call`).
use litellm_relay.Common.{
  String, ◌≡◌, ◌≢◌, ◌⊎◌, inl, inr, refl, ap, ◌∙◌, Option-cases, Option, some, List, [], ◌∷◌, ◌++◌,
  arith,
}
use litellm_relay.Json.{Fields}
use litellm_relay.Mcp.Verdict.{allow, ask}
use litellm_relay.Mcp.Catalog
use litellm_relay.Mcp.Catalog.{Catalog, CatalogEntry, is_active}
use litellm_relay.Mcp.Service.Types.{
  SessionBearer, identity_eq, gateway_target, McpRefusal, unknown_tool, Answer, accept,
  confirm_call, Event, asked, checked, called,
}
use litellm_relay.Common.Action.{ok, err}
use litellm_relay.Mcp.Service.Host.{Host, Env, yields, ◌>>=◌}
use litellm_relay.Mcp.Service.Session.{adopt, require_same_session}
use litellm_relay.Mcp.Service.Tools.{
  confirm, require_active, entry_named, confirm_unless_allowed, call,
}

-- The user's consent, as the record of events shows it: a tool that the verdict lets run needs none.
abbrev pub consent_to : CatalogEntry → String → Option Fields → List Event
consent_to entry name arguments = elim entry.verdict [
  | allow ↦ []
  | ask ↦ asked (confirm_call name entry.server arguments) accept ∷ []
]

-- How far a call came, by what it added to the record of events.
pub data CallLog (catalog : Catalog) (bearer : SessionBearer) (name : String)
    (arguments : Option Fields) (before after : List Event) : Type 0 where
  -- no such tool, or its server is not active
  refused_at_once : after ≡ before → CallLog catalog bearer name arguments before after
  -- the user was asked, and did not accept
  not_accepted :
      (entry : CatalogEntry) (answer : Answer)
      → Catalog.get catalog name ≡ some entry
      → answer ≢ accept
      → after ≡ asked (confirm_call name entry.server arguments) answer ∷ before
      → CallLog catalog bearer name arguments before after
  -- the session changed
  session_lost :
      (entry : CatalogEntry)
      → Catalog.get catalog name ≡ some entry
      → after ≡ consent_to entry name arguments ++ before
      → CallLog catalog bearer name arguments before after
  -- the tool ran
  ran :
      (entry : CatalogEntry)
      → Catalog.get catalog name ≡ some entry
      → after
        ≡ called (gateway_target bearer) name arguments
            ∷ checked bearer.identity
            ∷ consent_to entry name arguments
          ++ before
      → CallLog catalog bearer name arguments before after

pub entry_named_cases :
    (catalog : Catalog) (name : String)
    → ((r : McpRefusal) × (entry_named catalog name ≡ err r))
      ⊎ (entry : CatalogEntry) × (Catalog.get catalog name ≡ some entry)
        × (entry_named catalog name ≡ ok entry)
unfolding entry_named
entry_named_cases catalog name = elim (Option-cases (Catalog.get catalog name)) [
  | inl missing ↦ inl (unknown_tool name, rw (missing, entry_named) refl)
  | inr (entry, found) ↦ inr (entry, found, rw (found, entry_named) refl)
]

module _ {h : Host} where
  events-require_active :
      (bearer : SessionBearer) (server : String) (env : Env h)
      → (require_active bearer server env).1.events ≡ env.events
  unfolding require_active ◌>>=◌
  events-require_active bearer server env = ground arith

  require_active_cases :
      (bearer : SessionBearer) (server : String) (env : Env h)
      → ((require_active bearer server env).0 ≡ ok tt)
        ⊎ (r : McpRefusal) × ((require_active bearer server env).0 ≡ err r)
  unfolding require_active ◌>>=◌
  require_active_cases bearer server env = ground arith

  -- Either the consent stands at the head of the record, or the user did not give it.
  events-confirm_unless_allowed :
      (entry : CatalogEntry) (name : String) (arguments : Option Fields) (env : Env h)
      → ((confirm_unless_allowed entry name arguments env).0 ≡ ok tt)
          × ((confirm_unless_allowed entry name arguments env).1.events
              ≡ consent_to entry name arguments ++ env.events)
        ⊎ (r : McpRefusal) × (a : Answer) × ((confirm_unless_allowed entry name arguments env).0
            ≡ err r)
          × (a ≢ accept)
          × ((confirm_unless_allowed entry name arguments env).1.events
              ≡ asked (confirm_call name entry.server arguments) a ∷ env.events)
  unfolding confirm_unless_allowed confirm ◌>>=◌
  events-confirm_unless_allowed entry name arguments env = ground arith

  events-require_same_session :
      (bearer : SessionBearer) (env : Env h)
      → ((require_same_session bearer env).0 ≡ ok tt)
          × ((require_same_session bearer env).1.events ≡ checked bearer.identity ∷ env.events)
        ⊎ (r : McpRefusal) × ((require_same_session bearer env).0 ≡ err r)
          × ((require_same_session bearer env).1.events ≡ env.events)
  unfolding require_same_session adopt ◌>>=◌
  events-require_same_session bearer env = ground arith

  -- A tool runs at most once, with the name and the arguments of the request and at the bearer's
  -- Gateway. Before it runs the session was found to be the bearer's, and before that the user accepted
  -- the very call, unless the verdict on the tool lets it run without asking. Whatever else the call
  -- comes to, nothing runs.
  pub call-CallLog :
      (catalog : Catalog) (bearer : SessionBearer) (name : String) (arguments : Option Fields)
      (env : Env h)
      → CallLog catalog bearer name arguments env.events
          (call catalog bearer name arguments env).1.events
  unfolding call ◌>>=◌
  call-CallLog catalog bearer name arguments env = elim (entry_named_cases catalog name) [
    | inl (r, missing) ↦ rw missing (refused_at_once refl)
    | inr (entry, found, named) ↦
        let active = (require_active bearer entry.server env).1 in
        let asked_already = (confirm_unless_allowed entry name arguments active).1 in
        let consented = consent_to entry name arguments in
        let kept = events-require_active bearer entry.server env in
        rw named (elim (require_active_cases bearer entry.server env) [
          | inr (r, e) ↦ rw e (refused_at_once kept)
          | inl e ↦ rw e (elim (events-confirm_unless_allowed entry name arguments active) [
            | inr (r, a, e', ne, log) ↦ rw e' (
                not_accepted entry a found ne
                  (log ∙ ap (λ l. asked (confirm_call name entry.server arguments) a ∷ l) kept))
            | inl (e', log) ↦
                rw e' (elim (events-require_same_session bearer (yields asked_already).1) [
                  | inr (r, f, log') ↦
                      rw f (session_lost entry found (log' ∙ log ∙ ap (λ l. consented ++ l) kept))
                  | inl (f, log') ↦ rw f (
                      ran entry found (
                        ap (λ l. called (gateway_target bearer) name arguments ∷ l)
                          (log'
                            ∙ ap (λ l. checked bearer.identity ∷ l)
                                (log ∙ ap (λ l. consented ++ l) kept))))
                ])
          ])
        ])
  ]
