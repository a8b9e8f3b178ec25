-- ===== src/Broker/Caller/Tests.antt =====
-- Runs of src/broker/caller.rs on the process trees of its own tests.
use litellm_relay.Common.{
  String, Char, code, ◌≡◌, refl, Bool, true, false, none, some, [], ◌∷◌, ◌||◌, ◌==◌, string_eq, ltb,
  eq_ℕ, if◌then◌else◌,
}
use litellm_relay.Broker.Caller.{
  AllowedCaller, requirement, requirement_text, quotable, effective_callers, default_callers,
  Subject, pid, audit_token, Peer, ProcessTable, allowed, refused, ancestors, chain, requirements,
  find_valid, find_level, walk,
}
use litellm_relay.Broker.Caller.Chain.{At}
use litellm_relay.Broker.Caller.Walk.{Walked, walk-Walked, walk-anchored}

abbrev is_control : Char → Bool
is_control c = ltb (code c) 32 || eq_ℕ (code c) 127

-- Claude Code (100), a shell (200) and Relay (300).
abbrev relay_under_shell_under_claude : ProcessTable
relay_under_shell_under_claude = record {
  parent = λ p.
      if eq_ℕ p 300
      then some 200
      else if eq_ℕ p 200
      then some 100
      else if eq_ℕ p 100
      then some 1
      else none;
  validates = λ s r. elim s [
    | pid p ↦
        if eq_ℕ p 100
        then r == requirement_text "com.anthropic.claude-code" (some "Q6L2SF6YDW")
        else false
    | audit_token _ ↦ false
  ];
  describe = λ s. "a process";
}

abbrev relay : Peer
relay = record { process = 300; token = none }

abbrev claude_code : AllowedCaller
claude_code = record { identifier = "com.anthropic.claude-code"; team_id = some "Q6L2SF6YDW" }

walk_test :
    walk relay_under_shell_under_claude is_control (effective_callers none) relay
    ≡ allowed claude_code 2
unfolding walk chain ancestors requirements requirement quotable find_valid find_level
    effective_callers
walk_test = refl

managed_list_test :
    walk relay_under_shell_under_claude is_control
      (effective_callers (some (record claude_code { team_id = none } ∷ [])))
      relay
    ≡ refused ("a process" ∷ "a process" ∷ "a process" ∷ [])
unfolding walk chain ancestors requirements requirement quotable find_valid find_level
    effective_callers
managed_list_test = refl

walk-Walked_example :
    Walked relay_under_shell_under_claude is_control default_callers relay
      (walk relay_under_shell_under_claude is_control default_callers relay)
walk-Walked_example = walk-Walked relay_under_shell_under_claude is_control default_callers relay

walk-anchored_example :
    (team : String) × (s : Subject) × (claude_code.team_id ≡ some team)
    × At relay_under_shell_under_claude relay 2 s
    × (relay_under_shell_under_claude.validates s
          (requirement_text claude_code.identifier (some team))
        ≡ true)
walk-anchored_example =
    walk-anchored relay_under_shell_under_claude is_control none relay claude_code 2 walk_test
