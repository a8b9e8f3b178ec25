-- ===== src/Config/Environments.antt =====
-- The current environment, the team in force, and moving between environments (src/config.rs).
use litellm_relay.Common.{
  String, Char, code, Bool, true, not, Option, none, some, List, [], ◌∷◌, if◌then◌else◌, eq_ℕ, ◌==◌,
  string_eq, option_eq, filter, find, map_option, filter_option, is_some_and, or_option, and_then,
  zip_option, reverse,
}
use litellm_relay.Common.Sorted.{BTreeMap, lookup, insert}
use litellm_relay.Mcp.Verdict.Words.{CharClasses}
use litellm_relay.AiTools.Idp.{of_chars, skip_end, trim}
use litellm_relay.Config.Settings.{EnvironmentEntry, RelaySettings, with_gateway}

abbrev pub is_slash : Char → Bool
is_slash c = eq_ℕ (code c) b'/'

-- str::strip_suffix('/')
abbrev first_off : List Char → List Char
first_off [] = []
first_off (c ∷ cs) = if is_slash c then cs else c ∷ cs

abbrev pub without_trailing_slash : List Char → String
without_trailing_slash cs = of_chars (reverse (first_off (reverse cs)))

abbrev pub first_entry : List EnvironmentEntry → Option EnvironmentEntry
first_entry [] = none
first_entry (e ∷ _) = some e

-- map.extend(pair), BTreeMap::filter
abbrev pub add_pick : Option (String × String) → BTreeMap String → BTreeMap String
add_pick none m = m
add_pick (some (name, team)) m = insert name team m

abbrev pub without_name : Option String → BTreeMap String → BTreeMap String
without_name name m = filter (λ (pick : String × String). not (some pick.0 == name)) m

abbrev pub name_of : Option EnvironmentEntry → Option String
name_of e = map_option (λ (entry : EnvironmentEntry). entry.name) e

module _ (classes : CharClasses) where
  -- The text that two addresses are compared by.
  unfoldable pub bare : String → String
  bare url = without_trailing_slash (trim classes url)

  -- url.trim().trim_end_matches('/')
  unfoldable pub tidy : String → String
  tidy url = of_chars (skip_end is_slash (trim classes url))

  unfoldable pub non_empty : Option String → Option String
  non_empty none = none
  non_empty (some value) =
      let trimmed = of_chars (trim classes value) in if trimmed == "" then none else some trimmed

  unfoldable pub environment_with_url : RelaySettings → String → Option EnvironmentEntry
  environment_with_url s url =
      find (λ (e : EnvironmentEntry). bare e.url == bare url) s.environments

  unfoldable pub current_environment : RelaySettings → Option EnvironmentEntry
  current_environment s = environment_with_url s s.gateway.url

  unfoldable pub environment_named : RelaySettings → String → Option EnvironmentEntry
  environment_named s name = find (λ (e : EnvironmentEntry). e.name == name) s.environments

  -- `move_gateway_to`
  unfoldable pub move_gateway_to : String → RelaySettings → RelaySettings
  move_gateway_to given s =
      let url = tidy given in
      let leaving = zip_option (name_of (current_environment s)) (non_empty s.gateway.team) in
      let arriving = name_of (environment_with_url s url) in
      let parked = s.gateway.team_by_environment in
      if bare s.gateway.url == url
      then record s { gateway = record s.gateway { url = url } }
      else with_gateway url (and_then arriving (λ name. lookup name parked))
          (add_pick leaving (without_name arriving parked)) s

  unfoldable pub on_the_default_gateway : RelaySettings → Bool
  on_the_default_gateway s = elim (current_environment s) [
    | none ↦ true
    | some current ↦
        is_some_and (λ (e : EnvironmentEntry). e.name == current.name) (first_entry s.environments)
  ]

  -- A tool's team counts on the default Gateway.
  abbrev pub tool_team : RelaySettings → Option String → Option String
  tool_team s team = filter_option (λ _. on_the_default_gateway s) (non_empty team)

  unfoldable pub managed_team : RelaySettings → Option String
  managed_team s =
      let selected = non_empty s.gateway.team in
      let environment =
        non_empty (and_then (current_environment s) (λ (e : EnvironmentEntry). e.team)) in
      or_option selected
        (or_option environment (or_option (tool_team s s.claude.team) (tool_team s s.codex.team)))
