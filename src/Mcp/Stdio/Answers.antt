-- ===== src/Mcp/Stdio/Answers.antt =====
-- The client's result as an answer (`answer_from` in src/mcp/stdio.rs).
use litellm_relay.Common.{String, ◌≡◌, refl, true, Option, some, none, arith, ==_iff, string_eq}
use litellm_relay.Json.{Value, bool, get}
use litellm_relay.Mcp.Stdio.Types.{ElicitResult, accept, confirms, is_true, answer_from}

-- The client accepted, and in what it sent `confirm` is true.
abbrev pub Accepts : ElicitResult → Type 0
Accepts r =
    (r.action ≡ accept)
    × ((v : Value) × (r.content ≡ some v) × (get "confirm" v ≡ some (bool true)))

is_true_lem : (v : Option Value) → is_true v ≡ true → v ≡ some (bool true)
is_true_lem (some (bool b)) h = ground arith
is_true_lem _ h = absurd (ground arith)

confirms_lem :
    (content : Option Value)
    → confirms content ≡ true
    → (v : Value) × (content ≡ some v) × (get "confirm" v ≡ some (bool true))
confirms_lem none h = absurd (ground arith)
confirms_lem (some v) h = (v, refl, is_true_lem (get "confirm" v) h)

-- An acceptance goes to the daemon only for such a result.
pub answer_from-Accepts : (r : ElicitResult) → answer_from r ≡ "accept" → Accepts r
unfolding answer_from
answer_from-Accepts r h = (
  ground (arith, ==_iff {A = String} "decline" "accept", ==_iff {A = String} "cancel" "accept"),
  confirms_lem r.content (
      ground
        (arith, ==_iff {A = String} "decline" "accept", ==_iff {A = String} "cancel" "accept")),
)
