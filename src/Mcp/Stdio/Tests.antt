-- ===== src/Mcp/Stdio/Tests.antt =====
-- Runs of src/mcp/stdio.rs: a call that the daemon asks about, answered by a continued call.
use litellm_relay.Common.{
  ◌≡◌, refl, true, false, none, some, [], ◌∷◌, ◌==◌, string_eq, if◌then◌else◌,
}
use litellm_relay.Json.{null, bool, string, object, field, end, get}
use litellm_relay.Json.Same.{same, same_fields}
use litellm_relay.Mcp.Verdict.Tests.{ascii}
use litellm_relay.AiTools.Idp.{trim}
use litellm_relay.Mcp.Stdio.Types.{
  DaemonLine, step_of, Daemon, closes, says, ElicitResult, accept, CallToolRequestParams,
  RequestContext, result, structured, input_required, Client, Env, answer_from, find_state,
  remove_state,
}
use litellm_relay.Mcp.Stdio.Relay.{
  finish, next, park, converse, resume_with, resume, begin, relay_by, relay, call_tool,
}
use litellm_relay.Mcp.Stdio.Unsupported.{IsUnsupported, call_tool-IsUnsupported}
use litellm_relay.Mcp.Stdio.Shown.{IsShown}
use litellm_relay.Mcp.Stdio.Confirmed.{IsConfirmed, call_tool-IsConfirmed}

abbrev nothing_said : DaemonLine
nothing_said = record { ask = none; is_ok = none; result = none; reason = none; message = none }

-- The daemon asks, and activates the server only if it is told to.
abbrev daemon : Daemon
daemon =
    says "ask" (λ _. true)
      λ answer.
        if answer == "accept"
        then says "done" (λ _. false) (λ _. closes)
        else says "declined" (λ _. false) (λ _. closes)

abbrev accepting : ElicitResult
accepting = record { action = accept; content = some (object (field "confirm" (bool true) end)) }

abbrev client : Client
client = record {
  World = Unit;
  classes = ascii;
  meanwhile = λ w awaiting. (awaiting, w);
  connect = λ _ _ w. (some daemon, w);
  create_elicitation = λ _ w. (some accepting, w);
  new_state = λ w. ("s1", w);
  has_initialize = λ version. version == "2025-06-18";
  decode_line = λ line.
      if line == "ask"
      then some (record nothing_said { ask = some "Activate github?" })
      else if line == "done"
      then some (record nothing_said { is_ok = some true; result = some null })
      else some (record nothing_said {
        is_ok = some false;
        reason = some "declined";
        message = some "no";
      });
  decode_result = λ _. none;
  decode_elicit_result = λ _. some accepting;
}

abbrev start : Env client
start = record { awaiting = []; world = tt; events = [] }

abbrev inline : RequestContext
inline = record {
  client_capabilities = some (record { elicitation = some (object end) });
  protocol_version = some "2026-01-01";
}

abbrev activate : CallToolRequestParams
activate = record {
  name = "activate_server";
  arguments = some (field "server" (string "github") end);
  request_state = none;
  input_responses = none;
}

abbrev continuing : CallToolRequestParams
continuing = record activate {
  request_state = some "s1";
  input_responses = some (("confirm", null) ∷ []);
}

parked_test :
    (call_tool {c = client} activate inline start).0 ≡ input_required "Activate github?" "s1"
unfolding call_tool relay relay_by begin converse next step_of trim park
parked_test = refl

continued_test :
    (call_tool {c = client} continuing inline (call_tool {c = client} activate inline start).1).0
    ≡ result (structured null)
unfolding call_tool relay relay_by begin converse next step_of trim park find_state remove_state
    resume resume_with answer_from finish get same_fields same
continued_test = refl

call_tool-IsConfirmed_example :
    IsConfirmed client (call_tool {c = client} activate inline start).1.events
    × IsShown (call_tool {c = client} activate inline start)
call_tool-IsConfirmed_example =
    call_tool-IsConfirmed {c = client} activate inline start (record { each = tt })

abbrev mute : RequestContext
mute = record { client_capabilities = none; protocol_version = none }

call_tool-IsUnsupported_example :
    IsUnsupported (call_tool {c = client} activate mute start).1.events
call_tool-IsUnsupported_example =
    call_tool-IsUnsupported {c = client} mute refl activate start refl (record { each = tt })
