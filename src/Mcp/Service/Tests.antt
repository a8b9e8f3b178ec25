-- ===== src/Mcp/Service/Tests.antt =====
-- Runs of src/mcp/service.rs against a Gateway with four tools and a user who accepts every question.
use litellm_relay.Common.{◌≢◌, none, some, [], ◌∷◌}
use litellm_relay.Json.{null, string, object, field, end}
use litellm_relay.Mcp.Verdict.Tests.{ascii}
use litellm_relay.Mcp.Catalog.{build}
use litellm_relay.Mcp.Catalog.Tests.{tools}
use litellm_relay.Mcp.Service.Types.{
  SessionIdentity, SessionBearer, McpSection, answered, Answer, accept, decline, switched,
  call_tool, Event, Question,
}
use litellm_relay.Common.Action.{ok}
use litellm_relay.Mcp.Service.Host.{Host, Env}
use litellm_relay.Mcp.Service.Tools.{call}
use litellm_relay.Mcp.Service.Switching.{switch_team_to, switch_environment_to, environment_url}
use litellm_relay.Mcp.Service.Requests.{handle}
use litellm_relay.Mcp.Service.Calls.{CallLog, call-CallLog}
use litellm_relay.Mcp.Service.Switches.{
  SwitchLog, IsTeamId, selection_shown, switch_team_to-SwitchLog, switch_environment_to-SwitchLog,
}
use litellm_relay.Mcp.Catalog.Reload.{with_settings-build}
use litellm_relay.Mcp.Service.Types.{prefix_separator, allowed_tools}
use litellm_relay.Mcp.Service.Coherence.Runs.{IsCoherent}
use litellm_relay.Mcp.Service.Coherence.Handled.{handle-IsCoherent}
use litellm_relay.Mcp.Service.Frame.{OneAct, handle-OneAct}

abbrev alice : SessionIdentity
alice = record { gateway_url = "https://gateway.example"; user_id = some "alice"; team = none }

abbrev bearer : SessionBearer
bearer = record { token = "sk-1"; identity = alice }

abbrev section : McpSection
section = record { allow = none; max_concurrent_calls = none; tool_prefix_separator = none }

abbrev with_user : Answer → Host
with_user answer = record {
  World = Unit;
  Peer = Unit;
  classes = ascii;
  meanwhile = λ w s. (s, w);
  session_bearer_for_peer = λ _ _ w. (ok bearer, w);
  admit_caller = λ _ _ w. (ok tt, w);
  session_identity = λ w. (some alice, w);
  session_bearer_for_daemon = λ w. (ok bearer, w);
  settings_version = λ w. (none, w);
  load_settings = λ w. (none, w);
  now = λ w. (1000, w);
  list_tools = λ _ w. (answered tools, w);
  call_tool = λ _ _ _ w. (answered null, w);
  ask = λ _ w. (answer, w);
  team_refusal = λ _ w. (none, w);
  environment_refusal = λ _ w. (none, w);
  switch_team = λ team w. (switched (object (field "team" (string team) end)), w);
  switch_environment = λ name w. (switched (object (field "environment" (string name) end)), w);
  selection = λ w. (object end, w);
}

abbrev start : (answer : Answer) → Env (with_user answer)
start answer = record {
  state = record {
    settings_version = none;
    section = section;
    session = some (record {
      identity = alice;
      catalog = some (build ascii tools "-" []);
      active = record { activated = "github" ∷ [] };
      fetch_attempted_at = some 900;
    });
  };
  world = tt;
  events = [];
}

call-CallLog_example :
    CallLog
      (build ascii tools "-" [])
      bearer
      "github-get_issue"
      none
      []
      (call {h = with_user accept}
        (build ascii tools "-" [])
        bearer
        "github-get_issue"
        none
        (start accept)).1.events
call-CallLog_example =
    call-CallLog {h = with_user accept} (build ascii tools "-" []) bearer "github-get_issue" none
      (start accept)

switch_team_to-SwitchLog_example :
    SwitchLog
      (Question.switch_team "core")
      (Event.switched_team "core")
      []
      (switch_team_to {h = with_user accept} (some alice) "core" (start accept)).1.events
    × ((switch_team_to {h = with_user accept} (some alice) "core" (start accept)).1.events ≢ []
        → IsTeamId ascii "core")
switch_team_to-SwitchLog_example =
    switch_team_to-SwitchLog {h = with_user accept} (some alice) "core" (start accept)

switch_environment_to-SwitchLog_example :
    SwitchLog
      (Question.switch_environment "staging" (
        environment_url
          (selection_shown {h = with_user decline} "staging" (start decline))
          "staging"))
      (Event.switched_environment "staging")
      []
      (switch_environment_to {h = with_user decline} "staging" (start decline)).1.events
switch_environment_to-SwitchLog_example =
    switch_environment_to-SwitchLog {h = with_user decline} "staging" (start decline)

handle-OneAct_example :
    OneAct
      (call_tool "github-get_issue" none)
      []
      (handle {h = with_user accept} tt (call_tool "github-get_issue" none) (start accept)).1.events
handle-OneAct_example =
    handle-OneAct {h = with_user accept} tt (call_tool "github-get_issue" none) (start accept)

start-IsCoherent : IsCoherent {h = with_user accept} (start accept)
unfolding prefix_separator allowed_tools
start-IsCoherent = with_settings-build ascii tools "-" "-" [] []

handle-IsCoherent_example :
    IsCoherent
      (handle {h = with_user accept} tt (call_tool "github-get_issue" none) (start accept)).1
handle-IsCoherent_example =
    handle-IsCoherent {h = with_user accept} (λ w s v. v) tt (call_tool "github-get_issue" none)
      (start accept) start-IsCoherent
