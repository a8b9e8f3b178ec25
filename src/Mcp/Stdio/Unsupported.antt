-- ===== src/Mcp/Stdio/Unsupported.antt =====
-- A client that cannot be asked (src/mcp/stdio.rs, `converse`).
use litellm_relay.Common.{
  String, ◌≡◌, inl, inr, refl, false, Bool-cases, Option-cases, Option, none, some, List, [], ◌∷◌,
  arith, contains, string_eq,
}
use litellm_relay.Json.{Fields}
use litellm_relay.Mcp.Stdio.Types.{
  Daemon, closes, breaks, says, CallToolRequestParams, RequestContext, Event, requested, asked,
  replied, continued, elicited, parked, Client, Env, client_can_ask, tool_names,
}
use litellm_relay.Mcp.Stdio.Relay.{next, converse, begin, relay_by, relay, call_tool}
use litellm_relay.Mcp.Stdio.Steps.{Step-cases}

-- The client was shown no question, neither at once nor to be answered by a continued call, and each
-- question of the daemon was answered right away with `unsupported`.
abbrev pub EachUnsupported : List Event → Type 0
EachUnsupported [] = Unit
EachUnsupported (replied op arguments answer ∷ asked o a message ∷ rest) =
    (◌≡◌ {A = String} answer "unsupported") × (o ≡ op) × (a ≡ arguments) × EachUnsupported rest
EachUnsupported (replied _ _ _ ∷ _) = ⊥
EachUnsupported (asked _ _ _ ∷ _) = ⊥
EachUnsupported (requested _ _ ∷ rest) = EachUnsupported rest
EachUnsupported (continued _ _ _ ∷ rest) = ⊥
EachUnsupported (elicited _ _ ∷ rest) = ⊥
EachUnsupported (parked _ _ _ _ ∷ rest) = ⊥

pub record IsUnsupported (events : List Event) : Type 0 where
  pub each : EachUnsupported events

module _ {c : Client} (context : RequestContext) (mute : client_can_ask context ≡ false) where
  converse-IsUnsupported :
      (op : String) (arguments : Option Fields) (d : Daemon) (env : Env c)
      → IsUnsupported env.events
      → IsUnsupported (converse op arguments context d env).1.events
  unfolding converse
  converse-IsUnsupported op arguments closes env k = k
  converse-IsUnsupported op arguments breaks env k = k
  converse-IsUnsupported op arguments (says line takes answered) env k =
      elim (Step-cases (next c line)) [
        | inl e ↦ rw (e, converse) k
        | inr (inr (inl (v, e))) ↦ rw (e, converse) k
        | inr (inr (inr (r, m, e))) ↦ rw (e, converse) k
        | inr (inl (m, e)) ↦
            rw (e, converse)
              (let told : IsUnsupported
                    (replied op arguments "unsupported" ∷ asked op arguments m ∷ env.events) =
                  record { each = (refl, refl, refl, k.each) } in
                rw mute (elim (Bool-cases (takes "unsupported")) [
                  | inl t ↦
                      rw t (converse-IsUnsupported op arguments (answered "unsupported") _ told)
                  | inr t ↦ rw t told
                ]))
      ]

  begin-IsUnsupported :
      (request : CallToolRequestParams) (env : Env c)
      → IsUnsupported env.events
      → IsUnsupported (begin request context env).1.events
  unfolding begin
  begin-IsUnsupported request env k =
      elim (Option-cases (c.connect request.name request.arguments env.world).0) [
        | inl e ↦ rw (e, begin) (record { each = k.each })
        | inr (d, e) ↦
            rw (e, begin)
              (converse-IsUnsupported request.name request.arguments d _ (record { each = k.each }))
      ]

  relay_by-IsUnsupported :
      (request : CallToolRequestParams) (state : Option String) (env : Env c)
      → state ≡ none
      → IsUnsupported env.events
      → IsUnsupported (relay_by request context state env).1.events
  unfolding relay_by
  relay_by-IsUnsupported request none env fresh k = begin-IsUnsupported request env k
  relay_by-IsUnsupported request (some state) env fresh k = absurd (ground arith)

  -- If the client was shown no question so far, neither by elicitation nor by an answer that wants the
  -- call continued, and every question of the daemon was answered right after it with `unsupported`, that
  -- is still so after a call that continues no other, from a client that cannot be asked.
  pub call_tool-IsUnsupported :
      (request : CallToolRequestParams) (env : Env c)
      → request.request_state ≡ none
      → IsUnsupported env.events
      → IsUnsupported (call_tool request context env).1.events
  unfolding call_tool relay
  call_tool-IsUnsupported request env fresh k =
      elim (Bool-cases (contains tool_names request.name)) [
        | inr e ↦ rw e k
        | inl e ↦ rw e (relay_by-IsUnsupported request request.request_state env fresh k)
      ]
