-- ===== src/Mcp/Stdio/Confirmed.antt =====
-- No acceptance without the user's confirmation (src/mcp/stdio.rs).
use litellm_relay.Common.{
  String, ◌≡◌, inl, inr, refl, true, Bool-cases, Option-cases, Option, none, some, List, [], ◌∷◌,
  arith, string_eq, ==_iff, contains,
}
use litellm_relay.Json.{Fields}
use litellm_relay.Json.Same.{same_arguments}
use litellm_relay.Mcp.Stdio.Types.{
  Daemon, closes, breaks, says, Conversation, ElicitResult, CallToolRequestParams, RequestContext,
  Event, requested, asked, replied, continued, elicited, parked, Client, Env, note, wait,
  client_can_ask, inline_lifecycle, find_state, tool_names,
}
use litellm_relay.Mcp.Stdio.Relay.{
  peer_answer, next, park, elicit, converse, continues, carried, carried_answer, resume_with,
  resume, begin, relay_by, relay, call_tool,
}
use litellm_relay.Mcp.Stdio.Steps.{Step-cases}
use litellm_relay.Mcp.Stdio.Shown.{IsShown, call_tool-IsShown}
use litellm_relay.Mcp.Stdio.Answers.{Accepts, answer_from-Accepts}

-- The latest event is this question of the daemon, for `op` with `arguments`.
abbrev pub Asked : String → Option Fields → String → List Event → Type 0
Asked op arguments message (asked o a m ∷ _) = (o ≡ op) × (a ≡ arguments) × (m ≡ message)
Asked op arguments message _ = ⊥

module _ (c : Client) where
  -- This is what the client gives when that question is put to it, in some state of the outside world.
  abbrev pub Gave : String → Option ElicitResult → Type 0
  Gave message given = (w : c.World) × ((c.create_elicitation message w).0 ≡ given)

  -- The latest event confirms the call of `op` with `arguments`.
  abbrev pub Confirms : String → Option Fields → List Event → Type 0
  Confirms op arguments (elicited message (some r) ∷ rest) =
      Asked op arguments message rest × Gave message (some r) × Accepts r
  Confirms op arguments (continued name given (some r) ∷ _) =
      (op ≡ name) × (same_arguments arguments given ≡ true) × Accepts r
  Confirms op arguments _ = ⊥

  -- Every acceptance stands right after what confirms it, and every question shown to the client right
  -- after that question of the daemon.
  abbrev pub EachConfirmed : List Event → Type 0
  EachConfirmed [] = Unit
  EachConfirmed (replied op arguments answer ∷ rest) =
      (answer ≡ "accept" → Confirms op arguments rest) × EachConfirmed rest
  EachConfirmed (requested _ _ ∷ rest) = EachConfirmed rest
  EachConfirmed (continued _ _ _ ∷ rest) = EachConfirmed rest
  EachConfirmed (asked _ _ _ ∷ rest) = EachConfirmed rest
  EachConfirmed (elicited message given ∷ rest) =
      ((op : String) × (arguments : Option Fields) × Asked op arguments message rest)
      × Gave message given
      × EachConfirmed rest
  EachConfirmed (parked op arguments message _ ∷ rest) =
      Asked op arguments message rest × EachConfirmed rest

  pub record IsConfirmed (events : List Event) : Type 0 where
    pub each : EachConfirmed events

unsupported_is_no_acceptance : ¬ ◌≡◌ {A = String} "unsupported" "accept"
unsupported_is_no_acceptance e = ground (arith, ==_iff {A = String} "unsupported" "accept")

module _ {c : Client} where
  asked-IsConfirmed :
      (op : String) (arguments : Option Fields) (message : String) (given : Option ElicitResult)
      (l : List Event)
      → Gave c message given
      → IsConfirmed c l
      → IsConfirmed c (
          replied op arguments (peer_answer given)
          ∷ elicited message given
          ∷ asked op arguments message
          ∷ l)
  asked-IsConfirmed op arguments message none l gave k = record {
    each = (
      λ e. absurd (unsupported_is_no_acceptance e),
      ((op, arguments, (refl, refl, refl)), gave, k.each),
    );
  }
  asked-IsConfirmed op arguments message (some r) l gave k = record {
    each = (
      λ e. ((refl, refl, refl), gave, answer_from-Accepts r e),
      ((op, arguments, (refl, refl, refl)), gave, k.each),
    );
  }

  carried-IsConfirmed :
      (conversation : Conversation) (request : CallToolRequestParams) (l : List Event)
      (given : Option ElicitResult)
      → continues conversation request ≡ true
      → IsConfirmed c l
      → IsConfirmed c (
          replied conversation.op conversation.arguments (carried_answer given)
          ∷ continued request.name request.arguments given
          ∷ l)
  carried-IsConfirmed conversation request l none same k = record {
    each = (λ e. absurd (ground (arith, ==_iff {A = String} "cancel" "accept")), k.each);
  }
  carried-IsConfirmed conversation request l (some r) same k = record {
    each = (
      λ e. (
        ground (arith, ==_iff conversation.op request.name),
        ground arith,
        answer_from-Accepts r e,
      ),
      k.each,
    );
  }

module _ {c : Client} where
  module _ (op : String) (arguments : Option Fields) (context : RequestContext) where
    converse-IsConfirmed :
        (d : Daemon) (env : Env c)
        → IsConfirmed c env.events
        → IsConfirmed c (converse op arguments context d env).1.events
    unfolding converse park elicit
    converse-IsConfirmed closes env k = k
    converse-IsConfirmed breaks env k = k
    converse-IsConfirmed (says line takes answered) env k = elim (Step-cases (next c line)) [
      | inl e ↦ rw (e, converse) k
      | inr (inr (inl (v, e))) ↦ rw (e, converse) k
      | inr (inr (inr (r, m, e))) ↦ rw (e, converse) k
      | inr (inl (m, e)) ↦
          rw (e, converse)
            (elim (Bool-cases (client_can_ask context)) [
              | inr b ↦ rw b (elim (Bool-cases (takes "unsupported")) [
                | inl t ↦ rw t (
                    converse-IsConfirmed (answered "unsupported") _
                      (record { each = (λ e'. absurd (unsupported_is_no_acceptance e'), k.each) }))
                | inr t ↦
                    rw t
                      (record { each = (λ e'. absurd (unsupported_is_no_acceptance e'), k.each) })
              ])
              | inl b ↦ rw b (elim (Bool-cases (inline_lifecycle c context)) [
                | inl i ↦ rw i (record { each = ((refl, refl, refl), k.each) })
                | inr i ↦
                    let (given, _) = elicit m (note (asked op arguments m) (wait env)) in
                    rw i (elim (Bool-cases (takes (peer_answer given))) [
                      | inl t ↦ rw t (
                          converse-IsConfirmed (answered (peer_answer given)) _ (
                            asked-IsConfirmed op arguments m given env.events
                              ((wait env).world, refl) k))
                      | inr t ↦ rw t (
                          asked-IsConfirmed op arguments m given env.events ((wait env).world, refl)
                            k)
                    ])
              ])
            ])
    ]

  resume_with-IsConfirmed :
      (request : CallToolRequestParams) (context : RequestContext) (found : Option Conversation)
      (env : Env c)
      → IsConfirmed c env.events
      → IsConfirmed c (resume_with request context found env).1.events
  unfolding resume_with
  resume_with-IsConfirmed request context none env k = k
  resume_with-IsConfirmed request context (some conversation) env k =
      let answer = carried_answer (carried c request) in
      elim (Bool-cases (continues conversation request)) [
        | inr e ↦ rw e k
        | inl e ↦
            let told =
              carried-IsConfirmed conversation request env.events (carried c request) e k in
            rw e (elim (Bool-cases (conversation.takes answer)) [
              | inl t ↦ rw t (
                  converse-IsConfirmed conversation.op conversation.arguments context
                    (conversation.answered answer) _ told)
              | inr t ↦ rw t told
            ])
      ]

  begin-IsConfirmed :
      (request : CallToolRequestParams) (context : RequestContext) (env : Env c)
      → IsConfirmed c env.events
      → IsConfirmed c (begin request context env).1.events
  unfolding begin
  begin-IsConfirmed request context env k =
      elim (Option-cases (c.connect request.name request.arguments env.world).0) [
        | inl e ↦ rw (e, begin) (record { each = k.each })
        | inr (d, e) ↦
            rw (e, begin)
              (converse-IsConfirmed request.name request.arguments context d _
                (record { each = k.each }))
      ]

  relay_by-IsConfirmed :
      (request : CallToolRequestParams) (context : RequestContext) (state : Option String)
      (env : Env c)
      → IsConfirmed c env.events
      → IsConfirmed c (relay_by request context state env).1.events
  unfolding relay_by resume
  relay_by-IsConfirmed request context none env k = begin-IsConfirmed request context env k
  relay_by-IsConfirmed request context (some state) env k =
      resume_with-IsConfirmed request context (find_state state (wait env).awaiting) _
        (record { each = k.each })

  -- If every question shown to the client so far was the one that the daemon had just asked, and every
  -- acceptance sent to the daemon stood right after a confirmation of its own call, that is still so after
  -- any further call, however the client, the daemon and the other calls behave, and a question in the
  -- response of the call is such a question too. A confirmation is what the client gave to the very question
  -- that the daemon had just asked for that call, or the result carried by a continued call of the same tool
  -- with the same arguments, where the result accepts and the field `confirm` of its content is true.
  pub call_tool-IsConfirmed :
      (request : CallToolRequestParams) (context : RequestContext) (env : Env c)
      → IsConfirmed c env.events
      → IsConfirmed c (call_tool request context env).1.events
        × IsShown (call_tool request context env)
  unfolding call_tool relay
  call_tool-IsConfirmed request context env k = (confirmed, call_tool-IsShown request context env)
    where
      confirmed : IsConfirmed c (call_tool request context env).1.events
      confirmed = elim (Bool-cases (contains tool_names request.name)) [
        | inr e ↦ rw e k
        | inl e ↦ rw e (relay_by-IsConfirmed request context request.request_state env k)
      ]
