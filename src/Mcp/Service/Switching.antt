-- ===== src/Mcp/Service/Switching.antt =====
-- Switching the team and the environment (src/mcp/service.rs).
use Prim.Native.String.{count, compare as compare_text}
use litellm_relay.Common.{
  String, Char, ℕ, Bool, true, ◌&&◌, Option, none, some, List, [], ◌∷◌, if◌then◌else◌, ltb, ◌==◌,
  string_eq, option_eq, Ordering,
}
use litellm_relay.Json.{Value, Fields, array, object, string, field, end, get, items}
use litellm_relay.Mcp.Verdict.Words.{CharClasses, chars}
use litellm_relay.Mcp.Service.Types.{
  SessionIdentity, SwitchReply, switched, refused, other, Refusal, gateway_error, McpRefusal,
  broker, bad_request, TeamProblem, empty, too_long, switch_team, switch_environment, switched_team,
  switched_environment,
}
use litellm_relay.Common.Action.{Result, ok, err}
use litellm_relay.Mcp.Service.Host.{Host, Exec, pure, lift, observe, modify, note, ◌>>=◌, ◌>>◌}
use litellm_relay.Mcp.Service.Session.{forget_attempt}
use litellm_relay.Mcp.Service.Tools.{confirm}

abbrev pub max_team_id_chars : ℕ
max_team_id_chars = 256

-- text.trim().is_empty()
abbrev pub is_blank : CharClasses → List Char → Bool
is_blank classes [] = true
is_blank classes (c ∷ cs) = classes.is_whitespace c && is_blank classes cs

unfoldable pub team_id_problem : CharClasses → String → Option TeamProblem
team_id_problem classes team =
    if is_blank classes (chars team)
    then some empty
    else if ltb max_team_id_chars (count team)
    then some (too_long (count team))
    else none

-- `switched`
abbrev pub switch_outcome : SwitchReply → Result McpRefusal Value
switch_outcome (switched value) = ok value
switch_outcome (refused refusal) = err (broker refusal)
switch_outcome other = err (
    broker
      (gateway_error "the daemon answered the switch with something other than a switch outcome"))

-- `entries`: the fields of an object, and none of anything else.
abbrev pub entries : Value → Fields
entries (object fields) = fields
entries _ = end

-- Map::insert, in the order of the names
unfoldable pub set_field : String → Value → Fields → Fields
set_field key value end = field key value end
set_field key value (field name old rest) = elim (compare_text key name) [
  | Ordering.lt ↦ field key value (field name old rest)
  | Ordering.eq ↦ field key value rest
  | Ordering.gt ↦ field name old (set_field key value rest)
]

unfoldable pub set_fields : Fields → Fields → Fields
unfolding set_field
set_fields map end = map
set_fields map (field key value rest) = set_fields (set_field key value map) rest

-- Iterator::chain, collected into a map: where both name a field, the later one stands.
unfoldable pub chain_fields : Fields → Fields → Fields
unfolding set_fields
chain_fields first second = set_fields (set_fields end first) second

-- `environment_url`
abbrev text_of : Option Value → Option String
text_of (some (string text)) = some text
text_of _ = none

unfoldable pub url_among : String → List Value → Option String
url_among name [] = none
url_among name (entry ∷ rest) =
    if text_of (get "name" entry) == some name
    then text_of (get "url" entry)
    else url_among name rest

abbrev listed_environments : Option Value → List Value
listed_environments (some (array values)) = items values
listed_environments _ = []

unfoldable pub environment_url : Value → String → Option String
unfolding url_among get
environment_url selection name = url_among name (listed_environments (get "environments" selection))

abbrev pub refuse_early : Option Refusal → Result McpRefusal (Unit {0})
refuse_early none = ok tt
refuse_early (some refusal) = err (broker refusal)

abbrev pub no_problem : Option TeamProblem → Result McpRefusal (Unit {0})
no_problem none = ok tt
no_problem (some problem) = err (bad_request problem)

module _ {h : Host} where
  unfoldable pub selection_after : Value → Exec h Value
  selection_after switched_to = do
    selection ← observe h.selection
    pure (object (chain_fields (entries switched_to) (entries selection)))

  abbrev pub forget_fetch_time : Option SessionIdentity → Exec h (Unit {0})
  forget_fetch_time none = pure tt
  forget_fetch_time (some identity) = modify (forget_attempt identity)

  unfoldable pub switch_team_to : Option SessionIdentity → String → Exec h Value
  switch_team_to identity team = do
    lift (no_problem (team_id_problem h.classes team))
    refusal ← observe (h.team_refusal team)
    lift (refuse_early refusal)
    confirm (switch_team team)
    note (switched_team team)
    reply ← observe (h.switch_team team)
    value ← lift (switch_outcome reply)
    forget_fetch_time identity
    selection_after value

  unfoldable pub switch_environment_to : String → Exec h Value
  switch_environment_to name = do
    refusal ← observe (h.environment_refusal name)
    lift (refuse_early refusal)
    selection ← observe h.selection
    confirm (switch_environment name (environment_url selection name))
    note (switched_environment name)
    reply ← observe (h.switch_environment name)
    value ← lift (switch_outcome reply)
    selection_after value

  unfoldable pub switch_team_request : Option SessionIdentity → Option String → Exec h Value
  switch_team_request identity none = observe h.selection
  switch_team_request identity (some team) = switch_team_to identity team

  unfoldable pub switch_environment_request : Option String → Exec h Value
  switch_environment_request none = observe h.selection
  switch_environment_request (some name) = switch_environment_to name
