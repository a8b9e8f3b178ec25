-- ===== src/Mcp/Service/Frame.antt =====
-- A request acts beyond the daemon at most once, and only as it says (src/mcp/service.rs, `handle`).
use litellm_relay.Common.{
  String, ◌≡◌, ◌⊎◌, inl, inr, refl, sym, ap, subst, ◌∙◌, Option, none, some, List, ◌∷◌, ◌++◌, arith,
}
use litellm_relay.Json.{Fields}
use litellm_relay.Mcp.Catalog.{Catalog, CatalogEntry}
use litellm_relay.Mcp.Service.Types.{
  SessionBearer, gateway_target, SessionIdentity, McpRefusal, McpRequest, search_tools,
  describe_tool, call_tool, activate_server, label, switch_team, switch_environment, Event, called,
  switched_team, switched_environment,
}
use litellm_relay.Common.Action.{Result, ok, err}
use litellm_relay.Mcp.Service.Host.{Host, Env, Exec, pure, observe, continue, ◌>>=◌}
use litellm_relay.Mcp.Service.Keeps.{Keeps, Keeps-pure, Keeps-bind}
use litellm_relay.Mcp.Service.Tools.{search as search_catalog, describe, call, activate}
use litellm_relay.Mcp.Service.Session.{admitted_bearer, admitted_caller, catalog_for}
use litellm_relay.Mcp.Service.Switching.{switch_team_request, switch_environment_request}
use litellm_relay.Mcp.Service.Requests.{
  found, value, activated, with_catalog, handle_search, handle_describe, handle_activate,
  handle_tools_call, handle_team, handle_environment, handle,
}
use litellm_relay.Mcp.Service.Calls.{
  consent_to, CallLog, refused_at_once, not_accepted, session_lost, ran, call-CallLog,
}
use litellm_relay.Mcp.Service.Switches.{
  SwitchLog, switch_team_to-SwitchLog, switch_environment_to-SwitchLog,
}
use litellm_relay.Mcp.Service.Acts.{
  acts, SameActs, observe-SameActs, catalog_for-SameActs, admitted_bearer-SameActs,
  admitted_caller-SameActs, search-SameActs, describe-SameActs, activate-SameActs,
}

-- The act that a request names.
abbrev pub Fits : McpRequest → Event → Type 0
Fits (call_tool name arguments) (called target n a) = (n ≡ name) × (a ≡ arguments)
Fits (switch_team (some team)) (switched_team t) = t ≡ team
Fits (switch_environment (some name)) (switched_environment n) = n ≡ name
Fits _ _ = ⊥

-- Nothing was added to the acts, or one act that fits the request.
abbrev pub OneAct : McpRequest → List Event → List Event → Type 0
OneAct r before after =
    (acts after ≡ acts before) ⊎ ((e : Event) × Fits r e × (acts after ≡ e ∷ acts before))

acts-consent_to :
    (entry : CatalogEntry) (name : String) (arguments : Option Fields) (l : List Event)
    → acts (consent_to entry name arguments ++ l) ≡ acts l
acts-consent_to entry name arguments l = ground arith

CallLog-OneAct :
    {catalog : Catalog} {bearer : SessionBearer} {name : String} {arguments : Option Fields}
    {before after : List Event}
    → CallLog catalog bearer name arguments before after
    → OneAct (call_tool name arguments) before after
CallLog-OneAct (refused_at_once e) = inl (ap acts e)
CallLog-OneAct (not_accepted entry answer named ne e) = inl (ap acts e)
CallLog-OneAct {name} {arguments} {before} (session_lost entry named e) =
    inl (ap acts e ∙ acts-consent_to entry name arguments before)
CallLog-OneAct {bearer} {name} {arguments} {before} (ran entry named e) = inr (
  _,
  (refl, refl),
  ap acts e
      ∙ ap (λ l. called (gateway_target bearer) name arguments ∷ l)
          (acts-consent_to entry name arguments before),
)

SwitchLog-team :
    {q : _} {team : String} {before after : List Event}
    → SwitchLog q (switched_team team) before after
    → OneAct (switch_team (some team)) before after
SwitchLog-team (SwitchLog.refused_at_once e) = inl (ap acts e)
SwitchLog-team (SwitchLog.not_accepted answer ne e) = inl (ap acts e)
SwitchLog-team (SwitchLog.switched e) = inr (_, refl, ap acts e)

SwitchLog-environment :
    {q : _} {name : String} {before after : List Event}
    → SwitchLog q (switched_environment name) before after
    → OneAct (switch_environment (some name)) before after
SwitchLog-environment (SwitchLog.refused_at_once e) = inl (ap acts e)
SwitchLog-environment (SwitchLog.not_accepted answer ne e) = inl (ap acts e)
SwitchLog-environment (SwitchLog.switched e) = inr (_, refl, ap acts e)

after-quiet :
    (r : McpRequest) (before middle after : List Event)
    → acts middle ≡ acts before
    → OneAct r middle after
    → OneAct r before after
after-quiet r before middle after same (inl e) = inl (e ∙ same)
after-quiet r before middle after same (inr (a, fits, e)) = inr (a, fits, e ∙ ap (λ l. a ∷ l) same)

module _ {h : Host} (r : McpRequest) where
  abbrev Acts : {A : Type 0} → Exec h A → Type 0
  Acts m = (env : Env h) → OneAct r env.events (m env).1.events

  quiet-Acts : {A : Type 0} (m : Exec h A) → ((l : List Event) → Keeps (SameActs l) m) → Acts m
  quiet-Acts m k env = inl ((k (acts env.events)).at env refl)

  continue-Acts :
      {A B : Type 0} (o : Result McpRefusal A) (f : A → Exec h B) (env : Env h)
      → ((a : A) → Acts (f a))
      → OneAct r env.events (continue o f env).1.events
  continue-Acts (ok a) f env k = k a env
  continue-Acts (err e) f env k = inl refl

  -- After quiet steps, the rest of the block.
  then-Acts :
      {A B : Type 0} (m : Exec h A) (f : A → Exec h B)
      → ((l : List Event) → Keeps (SameActs l) m)
      → ((a : A) → Acts (f a))
      → Acts (m >>= f)
  unfolding ◌>>=◌
  then-Acts m f k l env =
      after-quiet r env.events (m env).1.events (continue (m env).0 f (m env).1).1.events
        ((k (acts env.events)).at env refl) (continue-Acts (m env).0 f (m env).1 l)

  continue-same :
      {A B : Type 0} (o : Result McpRefusal A) (g : A → B) (env : Env h)
      → (continue o (λ a. pure {h = h} (g a)) env).1.events ≡ env.events
  unfolding pure
  continue-same (ok a) g env = refl
  continue-same (err e) g env = refl

  answer-Acts : {A B : Type 0} (m : Exec h A) (g : A → B) → Acts m → Acts (m >>= λ a. pure (g a))
  unfolding ◌>>=◌
  answer-Acts m g k env =
      subst (λ l. OneAct r env.events l) (sym (continue-same (m env).0 g (m env).1)) (k env)

module _ {h : Host} where
  with_catalog-Acts :
      {A : Type 0} (r : McpRequest) (peer : h.Peer) (what : String)
      (body : SessionBearer → Catalog → Exec h A)
      → ((bearer : SessionBearer) (catalog : Catalog) → Acts r (body bearer catalog))
      → Acts r (with_catalog peer what body)
  unfolding with_catalog
  with_catalog-Acts r peer what body k =
      then-Acts r (admitted_bearer peer what) (λ bearer. catalog_for bearer >>= body bearer)
        (λ l. admitted_bearer-SameActs peer what)
        (λ bearer.
          then-Acts r (catalog_for bearer) (body bearer) (λ l. catalog_for-SameActs bearer)
            (k bearer))

  handle_search-Acts :
      (query : String) (bearer : SessionBearer) (catalog : Catalog)
      → Acts (search_tools query) (handle_search {h = h} query bearer catalog)
  unfolding handle_search
  handle_search-Acts query bearer catalog =
      quiet-Acts (search_tools query) (search_catalog catalog bearer query >>= λ a. pure (found a))
        (λ l.
          Keeps-bind (search_catalog catalog bearer query) (λ a. pure (found a))
            (search-SameActs catalog bearer query) (λ a. Keeps-pure (found a)))

  handle_describe-Acts :
      (name : String) (bearer : SessionBearer) (catalog : Catalog)
      → Acts (describe_tool name) (handle_describe {h = h} name bearer catalog)
  unfolding handle_describe
  handle_describe-Acts name bearer catalog =
      quiet-Acts (describe_tool name) (describe catalog bearer name >>= λ a. pure (value a)) (λ l.
        Keeps-bind (describe catalog bearer name) (λ a. pure (value a))
          (describe-SameActs catalog bearer name) (λ a. Keeps-pure (value a)))

  handle_activate-Acts :
      (server : String) (bearer : SessionBearer) (catalog : Catalog)
      → Acts (activate_server server) (handle_activate {h = h} server bearer catalog)
  unfolding handle_activate
  handle_activate-Acts server bearer catalog =
      quiet-Acts (activate_server server)
        (activate catalog bearer server >>= λ a. pure (activated a))
        (λ l.
          Keeps-bind (activate catalog bearer server) (λ a. pure (activated a))
            (activate-SameActs catalog bearer server) (λ a. Keeps-pure (activated a)))

  handle_tools_call-Acts :
      (name : String) (arguments : Option Fields) (bearer : SessionBearer) (catalog : Catalog)
      → Acts (call_tool name arguments) (handle_tools_call {h = h} name arguments bearer catalog)
  unfolding handle_tools_call
  handle_tools_call-Acts name arguments bearer catalog =
      answer-Acts (call_tool name arguments) (call catalog bearer name arguments) value
        (λ env. CallLog-OneAct (call-CallLog catalog bearer name arguments env))

  switch_team_request-Acts :
      (identity : Option SessionIdentity) (team : Option String)
      → Acts (switch_team team) (switch_team_request {h = h} identity team)
  unfolding switch_team_request
  switch_team_request-Acts identity none env =
      quiet-Acts (switch_team none) (observe h.selection) (λ l. observe-SameActs h.selection) env
  switch_team_request-Acts identity (some team) env =
      SwitchLog-team (switch_team_to-SwitchLog identity team env).0

  switch_environment_request-Acts :
      (name : Option String)
      → Acts (switch_environment name) (switch_environment_request {h = h} name)
  unfolding switch_environment_request
  switch_environment_request-Acts none env =
      quiet-Acts (switch_environment none) (observe h.selection) (λ l. observe-SameActs h.selection)
        env
  switch_environment_request-Acts (some name) env =
      SwitchLog-environment (switch_environment_to-SwitchLog name env)

  handle_team-Acts :
      (team : Option String) (identity : Option SessionIdentity)
      → Acts (switch_team team) (handle_team {h = h} team identity)
  unfolding handle_team
  handle_team-Acts team identity =
      answer-Acts (switch_team team) (switch_team_request identity team) value
        (switch_team_request-Acts identity team)

  handle_environment-Acts :
      (name : Option String) → Acts (switch_environment name) (handle_environment {h = h} name)
  unfolding handle_environment
  handle_environment-Acts name =
      answer-Acts (switch_environment name) (switch_environment_request name) value
        (switch_environment_request-Acts name)

  -- Whatever the peer, the settings, the Gateway and the user answer, a request calls at most one tool
  -- or makes at most one switch, and only if it is the request for it: a call carries the name and the
  -- arguments of the request, a switch its team or environment. Searching, describing and activating
  -- never call a tool and never switch.
  pub handle-OneAct :
      (peer : h.Peer) (request : McpRequest) (env : Env h)
      → OneAct request env.events (handle peer request env).1.events
  unfolding handle label
  handle-OneAct peer (search_tools query) env =
      with_catalog-Acts (search_tools query) peer "mcp search_tools" (handle_search query)
        (handle_search-Acts query) env
  handle-OneAct peer (describe_tool name) env =
      with_catalog-Acts (describe_tool name) peer "mcp describe_tool" (handle_describe name)
        (handle_describe-Acts name) env
  handle-OneAct peer (call_tool name arguments) env =
      with_catalog-Acts (call_tool name arguments) peer "mcp call_tool"
        (handle_tools_call name arguments) (handle_tools_call-Acts name arguments) env
  handle-OneAct peer (activate_server server) env =
      with_catalog-Acts (activate_server server) peer "mcp activate_server" (handle_activate server)
        (handle_activate-Acts server) env
  handle-OneAct peer (switch_team team) env =
      then-Acts (switch_team team) (admitted_caller peer "mcp switch_team") (handle_team team)
        (λ l. admitted_caller-SameActs peer "mcp switch_team") (handle_team-Acts team) env
  handle-OneAct peer (switch_environment environment) env =
      then-Acts (switch_environment environment) (admitted_caller peer "mcp switch_environment")
        (λ _. handle_environment environment)
        (λ l. admitted_caller-SameActs peer "mcp switch_environment")
        (λ _. handle_environment-Acts environment) env
