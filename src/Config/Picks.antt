-- ===== src/Config/Picks.antt =====
-- What the carried picks name (src/config.rs, `carrying_install_picks`).
use litellm_relay.Common.{
  String, ◌≡◌, inl, inr, refl, sym, subst, ◌∙◌, Bool, true, false, ◌&&◌, Bool-cases, Option, none,
  some, List, [], ◌∷◌, arith, if◌then◌else◌, ◌==◌, ==_iff, ==_refl, string_eq, option_eq, find,
  find-is_some, filter_option, is_some, or_option,
}
use litellm_relay.Common.Sorted.{BTreeMap, lookup, insert, lookup-insert}
use litellm_relay.Mcp.Verdict.Words.{CharClasses}
use litellm_relay.Config.Settings.{
  EnvironmentEntry, entry_eq, RelaySettings, with_team, with_gateway, with_parked,
}
use litellm_relay.Config.Environments.{
  name_of, bare, non_empty, environment_with_url, current_environment, environment_named,
}
use litellm_relay.Config.Carrying.{
  CarriedSelection, carried, nothing, has_none, no_picks, team_on_the_same_gateway,
  carrying_team_on_the_same_gateway, known_picks, carrying_to, carrying_from,
  carrying_selection_from, park_pick, parked_after, carrying_picks_parking_the_managed_team,
  carrying_picks_over, carrying_install_picks, without_seeded_picks,
}

module _ (classes : CharClasses) where
  -- Every team that is parked is parked for an environment of the configuration.
  abbrev pub IsParked : RelaySettings → Type 0
  IsParked s =
      (name : String) (team : String)
      → lookup name s.gateway.team_by_environment ≡ some team
      → is_some (environment_named classes s name) ≡ true

  -- The carried selection differs from the configuration in its Gateway only, and parks no unknown names.
  abbrev pub IsCarried : RelaySettings → CarriedSelection → Type 0
  IsCarried s nothing = Unit
  IsCarried s (carried t) = (t.environments ≡ s.environments) × IsParked t

  lookup-known_picks :
      (s : RelaySettings) (m : BTreeMap String) (name team : String)
      → lookup name (known_picks classes s m) ≡ some team
      → is_some (environment_named classes s name) ≡ true
  unfolding known_picks lookup
  lookup-known_picks s [] name team e = ground arith
  lookup-known_picks s ((k, t) ∷ m) name team e =
      elim (Bool-cases (is_some (environment_named classes s k))) [
        | inl b ↦ ground (arith, ==_iff name k, lookup-known_picks s m name team)
        | inr b ↦ ground (arith, ==_iff name k, lookup-known_picks s m name team)
      ]

  current_environment-named :
      (s : RelaySettings) (e : EnvironmentEntry)
      → current_environment classes s ≡ some e
      → is_some (environment_named classes s e.name) ≡ true
  unfolding current_environment environment_with_url environment_named
  current_environment-named s e h =
      find-is_some (λ (x : EnvironmentEntry). bare classes x.url == bare classes s.gateway.url)
        (λ (x : EnvironmentEntry). x.name == e.name) s.environments e h (==_refl e.name)

  if-IsCarried :
      (s : RelaySettings) (b : Bool) (x y : CarriedSelection)
      → IsCarried s x
      → IsCarried s y
      → IsCarried s (if b then x else y)
  if-IsCarried s true x y u v = u
  if-IsCarried s false x y u v = v

  if-IsParked :
      (b : Bool) (x y : RelaySettings) → IsParked x → IsParked y → IsParked (if b then x else y)
  if-IsParked true x y u v = u
  if-IsParked false x y u v = v

  insert-IsParked :
      (s : RelaySettings) (environment team : String)
      → IsParked s
      → is_some (environment_named classes s environment) ≡ true
      → IsParked (with_parked (insert environment team s.gateway.team_by_environment) s)
  unfolding environment_named
  insert-IsParked s environment team own named name t e = elim (Bool-cases (name == environment)) [
    | inl b ↦ ground (arith, ==_iff name environment)
    | inr b ↦
        own name t
          (sym (lookup-insert environment name team s.gateway.team_by_environment ∙ rw b refl) ∙ e)
  ]

  carrying_to-IsCarried :
      (s previous : RelaySettings) (o : Option EnvironmentEntry)
      → IsCarried s (carrying_to classes s previous o)
  unfolding carrying_to environment_named
  carrying_to-IsCarried s previous none = tt
  carrying_to-IsCarried s previous (some kept) =
      let parked = known_picks classes s previous.gateway.team_by_environment in
      let on_the_default_environment = current_environment classes s == some kept in
      let team =
        or_option previous.gateway.team
          (filter_option (λ _. on_the_default_environment) s.gateway.team) in
      if-IsCarried s
        (on_the_default_environment && has_none previous.gateway.team && no_picks parked) nothing
        (carried (with_gateway kept.url team parked s)) tt
        (refl, lookup-known_picks s previous.gateway.team_by_environment)

  team_on_the_same_gateway-IsCarried :
      (s : RelaySettings) (team : Option String)
      → IsParked s
      → IsCarried s (team_on_the_same_gateway classes s team)
  unfolding team_on_the_same_gateway environment_named
  team_on_the_same_gateway-IsCarried s none own = tt
  team_on_the_same_gateway-IsCarried s (some team) own = (refl, own)

  carrying_from-IsCarried :
      (s previous : RelaySettings) (o : Option EnvironmentEntry)
      → IsParked s
      → IsCarried s (carrying_from classes s previous o)
  unfolding carrying_from carrying_team_on_the_same_gateway
  carrying_from-IsCarried s previous none own =
      elim (Bool-cases (bare classes s.gateway.url == bare classes previous.gateway.url)) [
        | inl e ↦ rw e (team_on_the_same_gateway-IsCarried s previous.gateway.team own)
        | inr e ↦ rw e tt
      ]
  carrying_from-IsCarried s previous (some picked) own =
      carrying_to-IsCarried s previous (environment_named classes s picked.name)

  park_pick-IsParked :
      (s : RelaySettings) (environment team : String)
      → IsParked s
      → is_some (environment_named classes s environment) ≡ true
      → IsParked (park_pick classes s (some (environment, team)))
  unfolding park_pick environment_named
  park_pick-IsParked s environment team own named =
      if-IsParked _ s (with_parked (insert environment team s.gateway.team_by_environment) s) own
        (insert-IsParked s environment team own named)

  environments-park_pick :
      (s : RelaySettings) (o : Option (String × String))
      → (park_pick classes s o).environments ≡ s.environments
  unfolding park_pick
  environments-park_pick s none = refl
  environments-park_pick s (some (environment, team)) = if-environments _ s _ refl
    where
      if-environments :
          (b : Bool) (x y : RelaySettings)
          → y.environments ≡ x.environments
          → (if b then x else y).environments ≡ x.environments
      if-environments true x y e = refl
      if-environments false x y e = e

  parked_after-IsCarried :
      (s : RelaySettings) (o : Option EnvironmentEntry) (team : Option String)
      (c : CarriedSelection)
      → current_environment classes s ≡ o
      → IsCarried s c
      → IsCarried s (parked_after classes (name_of o) team c)
  unfolding environment_named park_pick
  parked_after-IsCarried s o team nothing e v = tt
  parked_after-IsCarried s none team (carried t) e v = v
  parked_after-IsCarried s (some entry) none (carried t) e v = v
  parked_after-IsCarried s (some entry) (some team) (carried t) e (same, parked) = (
    environments-park_pick t (some (entry.name, team)) ∙ same,
    park_pick-IsParked t entry.name team parked (
        subst
          (λ (l : List EnvironmentEntry).
            is_some (find (λ (x : EnvironmentEntry). x.name == entry.name) l) ≡ true)
          (sym same) (current_environment-named s entry e)),
  )

  parking-IsCarried :
      (s picks : RelaySettings)
      → IsParked s
      → IsCarried s (carrying_picks_parking_the_managed_team classes s picks)
  unfolding carrying_picks_parking_the_managed_team carrying_selection_from
  parking-IsCarried s picks own =
      parked_after-IsCarried s (current_environment classes s) (non_empty classes s.gateway.team)
        (carrying_from classes s picks (current_environment classes picks)) refl
        (carrying_from-IsCarried s picks (current_environment classes picks) own)

  -- An installation carries over a selection in which every team is parked for an environment that the new
  -- configuration names, if that is so of the new configuration itself, and it leaves the environments alone.
  pub carrying_install_picks-IsCarried :
      (s previous : RelaySettings) (seeded : Option RelaySettings)
      → IsParked s
      → IsCarried s (carrying_install_picks classes s previous seeded)
  unfolding carrying_install_picks carrying_picks_over
  carrying_install_picks-IsCarried s previous none own =
      parking-IsCarried s (with_team none previous) own
  carrying_install_picks-IsCarried s previous (some seeded) own =
      if-IsCarried s _ nothing _ tt
        (parking-IsCarried s (without_seeded_picks classes previous seeded) own)
