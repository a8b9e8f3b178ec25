-- ===== src/Config/Carrying.antt =====
-- What an installation carries over from the earlier configuration (src/config.rs). Summaries and reasons
-- are texts that are left out.
use litellm_relay.Common.{
  String, Bool, true, false, not, ◌&&◌, ◌||◌, Option, none, some, [], ◌∷◌, if◌then◌else◌, ◌==◌,
  string_eq, option_eq, filter, filter_option, is_some, is_some_and, or_option, zip_option,
}
use litellm_relay.Common.Sorted.{BTreeMap, lookup, insert}
use litellm_relay.Mcp.Verdict.Words.{CharClasses}
use litellm_relay.Config.Settings.{
  EnvironmentEntry, entry_eq, RelaySettings, with_team, with_parked, with_gateway,
}
use litellm_relay.Config.Environments.{
  name_of, bare, non_empty, current_environment, environment_named,
}

pub data CarriedSelection : Type 0 where
  carried : (settings : RelaySettings) → CarriedSelection
  nothing : CarriedSelection

abbrev pub has_none : {A : Type 0} → Option A → Bool
has_none o = not (is_some o)

abbrev pub no_picks : BTreeMap String → Bool
no_picks [] = true
no_picks (_ ∷ _) = false

module _ (classes : CharClasses) where
  unfoldable pub team_on_the_same_gateway : RelaySettings → Option String → CarriedSelection
  team_on_the_same_gateway s none = nothing
  team_on_the_same_gateway s (some team) = carried (with_team (some team) s)

  -- `carrying_team_on_the_same_gateway`
  unfoldable pub carrying_team_on_the_same_gateway :
      RelaySettings → RelaySettings → CarriedSelection
  carrying_team_on_the_same_gateway s previous =
      if bare classes s.gateway.url == bare classes previous.gateway.url
      then team_on_the_same_gateway s previous.gateway.team
      else nothing

  -- The picks of the earlier configuration whose environment the new one names.
  unfoldable pub known_picks : RelaySettings → BTreeMap String → BTreeMap String
  known_picks s m =
      filter (λ (pick : String × String). is_some (environment_named classes s pick.0)) m

  unfoldable pub carrying_to :
      RelaySettings → RelaySettings → Option EnvironmentEntry → CarriedSelection
  carrying_to s previous none = nothing
  carrying_to s previous (some kept) =
      let parked = known_picks s previous.gateway.team_by_environment in
      let picked_team = previous.gateway.team in
      let on_the_default_environment = current_environment classes s == some kept in
      if on_the_default_environment && has_none picked_team && no_picks parked
      then nothing
      else carried (
          with_gateway kept.url
            (or_option picked_team (filter_option (λ _. on_the_default_environment) s.gateway.team))
            parked s)

  unfoldable pub carrying_from :
      RelaySettings → RelaySettings → Option EnvironmentEntry → CarriedSelection
  carrying_from s previous none = carrying_team_on_the_same_gateway s previous
  carrying_from s previous (some picked) =
      carrying_to s previous (environment_named classes s picked.name)

  -- `carrying_selection_from`
  unfoldable pub carrying_selection_from : RelaySettings → RelaySettings → CarriedSelection
  carrying_selection_from s previous =
      carrying_from s previous (current_environment classes previous)

  unfoldable pub park_pick : RelaySettings → Option (String × String) → RelaySettings
  park_pick s none = s
  park_pick s (some (environment, team)) =
      let away =
        is_some_and (λ (e : EnvironmentEntry). not (e.name == environment))
          (current_environment classes s) in
      let held = is_some (lookup environment s.gateway.team_by_environment) in
      if not away || held
      then s
      else with_parked (insert environment team s.gateway.team_by_environment) s

  -- `parking_team`
  abbrev pub parking_team : Option String → Option String → RelaySettings → RelaySettings
  parking_team environment team s = park_pick s (zip_option environment team)

  abbrev pub parked_after : Option String → Option String → CarriedSelection → CarriedSelection
  parked_after environment team (carried s) = carried (parking_team environment team s)
  parked_after environment team nothing = nothing

  -- `carrying_picks_parking_the_managed_team`
  unfoldable pub carrying_picks_parking_the_managed_team :
      RelaySettings → RelaySettings → CarriedSelection
  carrying_picks_parking_the_managed_team s picks =
      parked_after (name_of (current_environment classes s)) (non_empty classes s.gateway.team)
        (carrying_selection_from s picks)

  abbrev pub same_gateway :
      RelaySettings → RelaySettings → Option EnvironmentEntry → Option EnvironmentEntry → Bool
  same_gateway s other (some mine) (some theirs) = mine.name == theirs.name
  same_gateway s other none none = bare classes s.gateway.url == bare classes other.gateway.url
  same_gateway s other (some mine) none = false
  same_gateway s other none (some theirs) = false

  -- `on_the_gateway_of`
  unfoldable pub on_the_gateway_of : RelaySettings → RelaySettings → Bool
  on_the_gateway_of s other =
      same_gateway s other (current_environment classes s) (current_environment classes other)

  -- The `seeded_pick` of `without_seeded_picks`.
  unfoldable pub seeded_pick : RelaySettings → Option String → String → Bool
  seeded_pick seeded environment team =
      let seeded_team = non_empty classes seeded.gateway.team in
      is_some seeded_team
      && seeded_team == non_empty classes (some team)
      && environment == name_of (current_environment classes seeded)

  unfoldable pub without_seeded_picks : RelaySettings → RelaySettings → RelaySettings
  without_seeded_picks s seeded =
      let current = name_of (current_environment classes s) in
      with_gateway s.gateway.url
        (filter_option (λ team. not (on_the_gateway_of s seeded && seeded_pick seeded current team))
          s.gateway.team)
        (filter (λ (pick : String × String). not (seeded_pick seeded (some pick.0) pick.1))
          s.gateway.team_by_environment)
        s

  unfoldable pub carrying_picks_over :
      RelaySettings → RelaySettings → RelaySettings → CarriedSelection
  carrying_picks_over s previous seeded =
      let picks = without_seeded_picks previous seeded in
      if has_none picks.gateway.team
        && no_picks picks.gateway.team_by_environment
        && on_the_gateway_of picks seeded
      then nothing
      else carrying_picks_parking_the_managed_team s picks

  unfoldable pub carrying_install_picks :
      RelaySettings → RelaySettings → Option RelaySettings → CarriedSelection
  carrying_install_picks s previous (some seeded) = carrying_picks_over s previous seeded
  carrying_install_picks s previous none =
      carrying_picks_parking_the_managed_team s (with_team none previous)
