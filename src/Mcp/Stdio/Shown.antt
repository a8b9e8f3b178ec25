-- ===== src/Mcp/Stdio/Shown.antt =====
-- The question that the client has to answer by a continued call (src/mcp/stdio.rs).
use litellm_relay.Common.{
  String, ◌≡◌, refl, Bool-cases, Option-cases, inl, inr, Option, none, some, List, ◌∷◌, contains,
  string_eq,
}
use litellm_relay.Json.{Fields}
use litellm_relay.Mcp.Stdio.Types.{
  Daemon, closes, breaks, says, Conversation, CallToolRequestParams, RequestContext, CallToolResult,
  CallToolResponse, result, input_required, invalid_params, Event, parked, asked, Client, Env, note,
  wait, client_can_ask, inline_lifecycle, find_state, tool_names,
}
use litellm_relay.Mcp.Stdio.Relay.{
  peer_answer, next, park, elicit, converse, continues, carried, carried_answer, resume_with,
  resume, begin, relay_by, relay, call_tool,
}
use litellm_relay.Mcp.Stdio.Steps.{Step-cases}

-- A response that wants the call continued shows the question that was just parked, under its state.
abbrev pub Shown : CallToolResponse → List Event → Type 0
Shown (input_required message state) (parked _ _ m s ∷ _) = (m ≡ message) × (s ≡ state)
Shown (input_required message state) _ = ⊥
Shown (result r) _ = Unit
Shown invalid_params _ = Unit

pub record IsShown {c : Client} (r : CallToolResponse × Env c) : Type 0 where
  pub shown : Shown r.0 r.1.events

module _ {c : Client} where
  given : (r : CallToolResult) (env : Env c) → IsShown (result r, env)
  given r env = record { shown = tt }

  module _ (op : String) (arguments : Option Fields) (context : RequestContext) where
    converse-IsShown : (d : Daemon) (env : Env c) → IsShown (converse op arguments context d env)
    unfolding converse park elicit
    converse-IsShown closes env = given _ _
    converse-IsShown breaks env = given _ _
    converse-IsShown (says line takes answered) env = elim (Step-cases (next c line)) [
      | inl e ↦ rw (e, converse) (given _ _)
      | inr (inr (inl (v, e))) ↦ rw (e, converse) (given _ _)
      | inr (inr (inr (r, m, e))) ↦ rw (e, converse) (given _ _)
      | inr (inl (m, e)) ↦
          rw (e, converse)
            (elim (Bool-cases (client_can_ask context)) [
              | inr b ↦ rw b (elim (Bool-cases (takes "unsupported")) [
                | inl t ↦ rw t (converse-IsShown (answered "unsupported") _)
                | inr t ↦ rw t (given _ _)
              ])
              | inl b ↦ rw b (elim (Bool-cases (inline_lifecycle c context)) [
                | inl i ↦ rw i (record { shown = (refl, refl) })
                | inr i ↦
                    let (answer, _) = elicit m (note (asked op arguments m) (wait env)) in
                    rw i (elim (Bool-cases (takes (peer_answer answer))) [
                      | inl t ↦ rw t (converse-IsShown (answered (peer_answer answer)) _)
                      | inr t ↦ rw t (given _ _)
                    ])
              ])
            ])
    ]

  resume_with-IsShown :
      (request : CallToolRequestParams) (context : RequestContext) (found : Option Conversation)
      (env : Env c)
      → IsShown (resume_with request context found env)
  unfolding resume_with
  resume_with-IsShown request context none env = given _ _
  resume_with-IsShown request context (some conversation) env =
      let answer = carried_answer (carried c request) in
      elim (Bool-cases (continues conversation request)) [
        | inr e ↦ rw e (given _ _)
        | inl e ↦ rw e (elim (Bool-cases (conversation.takes answer)) [
          | inl t ↦ rw t (
              converse-IsShown conversation.op conversation.arguments context
                (conversation.answered answer) _)
          | inr t ↦ rw t (given _ _)
        ])
      ]

  begin-IsShown :
      (request : CallToolRequestParams) (context : RequestContext) (env : Env c)
      → IsShown (begin request context env)
  unfolding begin
  begin-IsShown request context env =
      elim (Option-cases (c.connect request.name request.arguments env.world).0) [
        | inl e ↦ rw (e, begin) (given _ _)
        | inr (d, e) ↦ rw (e, begin) (converse-IsShown request.name request.arguments context d _)
      ]

  relay_by-IsShown :
      (request : CallToolRequestParams) (context : RequestContext) (state : Option String)
      (env : Env c)
      → IsShown (relay_by request context state env)
  unfolding relay_by resume
  relay_by-IsShown request context none env = begin-IsShown request context env
  relay_by-IsShown request context (some state) env =
      resume_with-IsShown request context (find_state state (wait env).awaiting) _

  -- Whatever a call comes to, a question in its response is the one that was just parked.
  pub call_tool-IsShown :
      (request : CallToolRequestParams) (context : RequestContext) (env : Env c)
      → IsShown (call_tool request context env)
  unfolding call_tool relay
  call_tool-IsShown request context env = elim (Bool-cases (contains tool_names request.name)) [
    | inr e ↦ rw e (record { shown = tt })
    | inl e ↦ rw e (relay_by-IsShown request context request.request_state env)
  ]
