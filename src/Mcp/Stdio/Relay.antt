-- ===== src/Mcp/Stdio/Relay.antt =====
-- `Conversation` and `RelayServer` (src/mcp/stdio.rs).
use litellm_relay.Common.{
  String, Bool, not, ◌&&◌, Option, none, some, List, [], ◌∷◌, if◌then◌else◌, ◌==◌, string_eq,
  contains, map_option, unwrap_or,
}
use litellm_relay.Json.{Value, Fields}
use litellm_relay.Json.Same.{same_arguments}
use litellm_relay.AiTools.Idp.{trim, of_chars}
use litellm_relay.Mcp.Stdio.Types.{
  tool_names, confirmation_key, Step, ask, done, refused, unknown, step_of, Daemon, closes, breaks,
  says, Conversation, ElicitResult, CallToolRequestParams, RequestContext, Passed, CallToolResult,
  structured, passed, error, CallToolResponse, result, input_required, invalid_params, requested,
  asked, replied, continued, elicited, parked, Client, Env, Run, find_state, remove_state, note,
  wait, answer_from, client_can_ask, inline_lifecycle,
}

abbrev pub own : String → CallToolResponse
own reason = result (error reason none)

-- The answer to the daemon's question, from what the client gave: no result is `unsupported`.
abbrev pub peer_answer : Option ElicitResult → String
peer_answer (some r) = answer_from r
peer_answer none = "unsupported"

-- CallToolResult::get_or_insert(COMPLETE)
abbrev pub completed : Passed → Passed
completed p = record p { result_type = some (unwrap_or "complete" p.result_type) }

module _ (c : Client) where
  -- `Conversation::finish`
  unfoldable pub finish : String → Value → CallToolResult
  finish op value =
      if op == "call_tool"
      then (elim (c.decode_result value) [
        | some p ↦ passed (completed p)
        | none ↦ error "upstream_error" none
      ])
      else structured value

  -- `Conversation::next` on a line that came
  unfoldable pub next : String → Step
  next line =
      unwrap_or unknown (map_option step_of (c.decode_line (of_chars (trim c.classes line))))

module _ {c : Client} where
  -- `park`
  unfoldable pub park : Conversation → String → Run c CallToolResponse
  park conversation message env =
      let (state, w) = c.new_state env.world in
      (
        input_required message state,
        record env {
          awaiting = (state, conversation) ∷ remove_state state env.awaiting;
          world = w;
          events = parked conversation.op conversation.arguments message state ∷ env.events;
        },
      )

  -- `ask_through_the_peer`
  unfoldable pub elicit : String → Run c (Option ElicitResult)
  elicit message env =
      let (given, w) = c.create_elicitation message env.world in
      (given, wait (note (elicited message given) (record env { world = w })))

  module _ (op : String) (arguments : Option Fields) (context : RequestContext) where
    -- `converse`
    unfoldable pub converse : Daemon → Run c CallToolResponse
    converse closes env = (own "daemon_unavailable", wait env)
    converse breaks env = (own "daemon_unavailable", wait env)
    converse (says line takes answered) env =
        let unsupported = converse (answered "unsupported") in
        let heard : String → Env c = λ message. note (asked op arguments message) (wait env) in
        let resumed : Option ElicitResult → Run c CallToolResponse =
          λ given. converse (answered (peer_answer given)) in
        elim (next c line) [
          | unknown ↦ (own "daemon_unavailable", wait env)
          | refused reason message ↦ (result (error reason (some message)), wait env)
          | done value ↦ (result (finish c op value), wait env)
          | ask message ↦
              if not (client_can_ask context)
              then (let told = note (replied op arguments "unsupported") (heard message) in
                  if takes "unsupported"
                  then unsupported told
                  else (own "daemon_unavailable", told))
              else if inline_lifecycle c context
              then park
                  (record { op = op; arguments = arguments; takes = takes; answered = answered })
                  message (heard message)
              else (let (given, env') = elicit message (heard message) in
                  let told = note (replied op arguments (peer_answer given)) env' in
                  if takes (peer_answer given)
                  then resumed given told
                  else (own "daemon_unavailable", told))
        ]

-- `Conversation::continues`
abbrev pub continues : Conversation → CallToolRequestParams → Bool
continues conversation request =
    conversation.op == request.name && same_arguments conversation.arguments request.arguments

-- BTreeMap::remove, of the responses
abbrev pub response_named : String → List (String × Value) → Option Value
response_named key [] = none
response_named key ((k, v) ∷ rest) =
    let later = response_named key rest in if k == key then some v else later

abbrev and_then : {A B : Type 0} → Option A → (A → Option B) → Option B
and_then none f = none
and_then (some a) f = f a

-- The client's result that a continued call carries.
abbrev pub carried : Client → CallToolRequestParams → Option ElicitResult
carried c request =
    and_then (and_then request.input_responses (response_named confirmation_key))
      c.decode_elicit_result

abbrev pub carried_answer : Option ElicitResult → String
carried_answer (some r) = answer_from r
carried_answer none = "cancel"

module _ {c : Client} where
  unfoldable pub resume_with :
      CallToolRequestParams → RequestContext → Option Conversation → Run c CallToolResponse
  resume_with request context none env = (own "confirmation_expired", env)
  resume_with request context (some conversation) env =
      if not (continues conversation request)
      then (own "confirmation_mismatch", env)
      else (let answer = carried_answer (carried c request) in
          let matched = note (continued request.name request.arguments (carried c request)) env in
          let told = note (replied conversation.op conversation.arguments answer) (wait matched) in
          if conversation.takes answer
          then converse conversation.op conversation.arguments context
              (conversation.answered answer) told
          else (own "daemon_unavailable", told))

  -- `resume`: the state is taken out under the lock.
  unfoldable pub resume : CallToolRequestParams → String → RequestContext → Run c CallToolResponse
  resume request state context env =
      let waited = wait env in
      resume_with request context (find_state state waited.awaiting)
        (record waited { awaiting = remove_state state waited.awaiting })

  -- `Conversation::open`
  unfoldable pub begin : CallToolRequestParams → RequestContext → Run c CallToolResponse
  begin request context env =
      let (daemon, w) = c.connect request.name request.arguments env.world in
      let opened =
        wait (note (requested request.name request.arguments) (record env { world = w })) in
      elim daemon [
        | none ↦ (own "daemon_unavailable", opened)
        | some d ↦ converse request.name request.arguments context d opened
      ]

  unfoldable pub relay_by :
      CallToolRequestParams → RequestContext → Option String → Run c CallToolResponse
  relay_by request context (some state) = resume request state context
  relay_by request context none = begin request context

  unfoldable pub relay : CallToolRequestParams → RequestContext → Run c CallToolResponse
  relay request context = relay_by request context request.request_state

  -- `ServerHandler::call_tool`
  unfoldable pub call_tool : CallToolRequestParams → RequestContext → Run c CallToolResponse
  call_tool request context env =
      if not (contains tool_names request.name)
      then (invalid_params, env)
      else relay request context env
