-- ===== src/Broker/Caller.antt =====
-- Which processes may read a credential (src/broker/caller.rs).
--
-- The process table of the system, with its check of a code-signing requirement, and the class of control
-- characters are parameters. An audit token is a list of bytes.
use Prim.Native.String.{◌++◌}
use litellm_relay.Common.{
  String, Char, code, ℕ, suc, zero, Bool, true, false, not, ◌&&◌, ◌||◌, Option, none, some, List,
  [], ◌∷◌, map, if◌then◌else◌, eq_ℕ, ltb, filter, is_some, unwrap_or, map_option,
}
use litellm_relay.Mcp.Verdict.Words.{chars}
pub mod Chain
pub mod Walk
pub mod Tests

abbrev pub max_ancestors : ℕ
max_ancestors = 4

pub record AllowedCaller : Type 0 where
  pub identifier : String
  pub team_id : Option String

abbrev pub has_unquotable : (Char → Bool) → List Char → Bool
has_unquotable is_control [] = false
has_unquotable is_control (c ∷ cs) =
    (eq_ℕ (code c) b'"' || eq_ℕ (code c) b'\\' || is_control c) || has_unquotable is_control cs

abbrev pub is_empty : List Char → Bool
is_empty [] = true
is_empty (_ ∷ _) = false

unfoldable pub quotable : (Char → Bool) → String → Bool
quotable is_control value =
    not (is_empty (chars value)) && not (has_unquotable is_control (chars value))

-- `identifier "i" and anchor apple generic and certificate leaf[subject.OU] = "t"`, or `identifier "i"`.
abbrev pub requirement_text : String → Option String → String
requirement_text identifier (some team) =
    "identifier \"" ++ identifier
    ++ "\" and anchor apple generic and certificate leaf[subject.OU] = \"" ++ team ++ "\""
requirement_text identifier none = "identifier \"" ++ identifier ++ "\""

-- `AllowedCaller::requirement`
unfoldable pub requirement : (Char → Bool) → AllowedCaller → Option String
requirement is_control caller =
    if not (quotable is_control caller.identifier)
      || not (unwrap_or true (map_option (quotable is_control) caller.team_id))
    then none
    else some (requirement_text caller.identifier caller.team_id)

abbrev pub default_callers : List AllowedCaller
default_callers =
    record { identifier = "com.anthropic.claudefordesktop"; team_id = some "Q6L2SF6YDW" }
    ∷ record { identifier = "com.anthropic.claudefordesktop.helper"; team_id = some "Q6L2SF6YDW" }
    ∷ record { identifier = "com.anthropic.claude-code"; team_id = some "Q6L2SF6YDW" }
    ∷ record { identifier = "codex"; team_id = some "2DC432GLL2" }
    ∷ []

unfoldable pub effective_callers : Option (List AllowedCaller) → List AllowedCaller
effective_callers (some callers) = filter (λ (c : AllowedCaller). is_some c.team_id) callers
effective_callers none = default_callers

unfoldable pub unanchored_callers : Option (List AllowedCaller) → List AllowedCaller
unanchored_callers managed =
    filter (λ (c : AllowedCaller). not (is_some c.team_id)) (unwrap_or [] managed)

pub data Subject : Type 0 where
  pid : ℕ → Subject
  audit_token : List ℕ → Subject

pub record Peer : Type 0 where
  pub process : ℕ
  pub token : Option (List ℕ)

pub record ProcessTable : Type 0 where
  pub parent : ℕ → Option ℕ
  pub validates : Subject → String → Bool
  pub describe : Subject → String

pub data Verdict : Type 0 where
  allowed : (caller : AllowedCaller) (level : ℕ) → Verdict
  refused : (chain : List String) → Verdict

module _ (table : ProcessTable) where
  -- successors, take_while(pid > 1), take
  unfoldable pub ancestors : ℕ → Option ℕ → List Subject
  ancestors zero _ = []
  ancestors (suc n) none = []
  ancestors (suc n) (some p) =
      let rest = ancestors n (table.parent p) in if ltb 1 p then pid p ∷ rest else []

  abbrev pub first_subject : Peer → Subject
  first_subject peer = elim peer.token [ some token ↦ audit_token token | none ↦ pid peer.process ]

  unfoldable pub chain : Peer → List Subject
  chain peer = first_subject peer ∷ ancestors max_ancestors (table.parent peer.process)

  abbrev pub with_requirement :
      AllowedCaller → Option String → List (AllowedCaller × String) → List (AllowedCaller × String)
  with_requirement caller (some r) rest = (caller, r) ∷ rest
  with_requirement caller none rest = rest

  -- callers.filter_map(requirement)
  unfoldable pub requirements : (Char → Bool) → List AllowedCaller → List (AllowedCaller × String)
  requirements is_control [] = []
  requirements is_control (caller ∷ rest) =
      with_requirement caller (requirement is_control caller) (requirements is_control rest)

  -- requirements.find(validates)
  unfoldable pub find_valid : List (AllowedCaller × String) → Subject → Option AllowedCaller
  find_valid [] subject = none
  find_valid ((caller, r) ∷ rest) subject =
      let later = find_valid rest subject in
      if table.validates subject r then some caller else later

  -- subjects.enumerate().find_map
  unfoldable pub find_level : List (AllowedCaller × String) → ℕ → List Subject → Option Verdict
  find_level rs level [] = none
  find_level rs level (subject ∷ rest) =
      let later = find_level rs (suc level) rest in
      elim (find_valid rs subject) [ some caller ↦ some (allowed caller level) | none ↦ later ]

  unfoldable pub walk : (Char → Bool) → List AllowedCaller → Peer → Verdict
  walk is_control callers peer =
      let subjects = chain peer in
      unwrap_or (refused (map table.describe subjects))
        (find_level (requirements is_control callers) 0 subjects)
