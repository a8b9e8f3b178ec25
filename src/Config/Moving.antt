-- ===== src/Config/Moving.antt =====
-- The team in force, and a move to another environment and back (src/config.rs, `managed_team`,
-- `move_gateway_to`).
use litellm_relay.Common.{
  String, ◌≡◌, ◌≢◌, inl, inr, refl, ◌∙◌, false, Option-cases, Option, none, some, [], ◌∷◌, arith,
  ◌==◌, ==_iff, ==_refl, string_eq, option_eq, or_option, zip_option,
}
use litellm_relay.Common.Sorted.{BTreeMap, lookup, insert, lookup-insert}
use litellm_relay.Mcp.Verdict.Words.{CharClasses}
use litellm_relay.Config.Settings.{EnvironmentEntry, RelaySettings, with_gateway}
use litellm_relay.Config.Trimming.{IsTrimmed, non_empty-IsTrimmed}
use litellm_relay.Config.Environments.{
  add_pick, without_name, bare, tidy, non_empty, environment_with_url, current_environment,
  move_gateway_to, tool_team, managed_team,
}

module _ (classes : CharClasses) where
  or_option-IsTrimmed :
      (a b : Option String)
      → ((t : String) → a ≡ some t → IsTrimmed classes t)
      → ((t : String) → b ≡ some t → IsTrimmed classes t)
      → (t : String) → or_option a b ≡ some t
      → IsTrimmed classes t
  or_option-IsTrimmed none b u v t e = v t e
  or_option-IsTrimmed (some s) b u v t e = u t e

  lookup-without_name :
      (name other : String) (m : BTreeMap String)
      → ¬ (name ≡ other)
      → lookup name (without_name (some other) m) ≡ lookup name m
  unfolding lookup
  lookup-without_name name other [] ne = refl
  lookup-without_name name other ((k, t) ∷ m) ne =
      ground (arith, ==_iff name k, ==_iff k other, lookup-without_name name other m ne)

  lookup-insert_other :
      (name other team : String) (m : BTreeMap String)
      → ¬ (name ≡ other)
      → lookup name (insert other team m) ≡ lookup name m
  lookup-insert_other name other team m ne =
      rw (lookup-insert other name team m) (ground (arith, ==_iff name other))

  lookup-add_pick :
      (name other : String) (o : Option String) (m : BTreeMap String)
      → ¬ (name ≡ other)
      → lookup name (add_pick (zip_option (some other) o) m) ≡ lookup name m
  lookup-add_pick name other none m ne = refl
  lookup-add_pick name other (some team) m ne = lookup-insert_other name other team m ne

  -- The move, where the Gateway is not there yet and both ends are environments.
  move_gateway_to-eq :
      (url : String) (s : RelaySettings) (here there : EnvironmentEntry)
      → (bare classes s.gateway.url == tidy classes url) ≡ false
      → current_environment classes s ≡ some here
      → environment_with_url classes s (tidy classes url) ≡ some there
      → move_gateway_to classes url s
        ≡ with_gateway
            (tidy classes url)
            (lookup there.name s.gateway.team_by_environment)
            (add_pick
              (zip_option (some here.name) (non_empty classes s.gateway.team))
              (without_name (some there.name) s.gateway.team_by_environment))
            s
  unfolding move_gateway_to
  move_gateway_to-eq url s here there apart current arriving = rw (apart, current, arriving) refl

  -- A team that was picked on one environment is in force again after the Gateway was moved to another
  -- environment and back, and no third environment loses or changes the team that is parked for it.
  pub move_gateway_to-back :
      (away back : String) (s : RelaySettings) (here there : EnvironmentEntry) (team : String)
      → (bare classes s.gateway.url == tidy classes away) ≡ false
      → (bare classes (tidy classes away) == tidy classes back) ≡ false
      → current_environment classes s ≡ some here
      → environment_with_url classes s (tidy classes away) ≡ some there
      → environment_with_url classes s (tidy classes back) ≡ some here
      → here.name ≢ there.name
      → non_empty classes s.gateway.team ≡ some team
      → (third : String) → third ≢ here.name
      → third ≢ there.name
      → let moved = move_gateway_to classes back (move_gateway_to classes away s) in
        (moved.gateway.team ≡ some team)
        × (lookup third moved.gateway.team_by_environment
            ≡ lookup third s.gateway.team_by_environment)
  unfolding current_environment environment_with_url
  move_gateway_to-back away back s here there team apart apart' current arriving returning ne picked
        third u v =
      let parked = without_name (some there.name) s.gateway.team_by_environment in
      let left = insert here.name team parked in
      let team' = lookup there.name s.gateway.team_by_environment in
      let s' = with_gateway (tidy classes away) team' left s in
      let first : move_gateway_to classes away s ≡ s' =
        move_gateway_to-eq away s here there apart current arriving ∙ rw picked refl in
      let second = move_gateway_to-eq back s' there here apart' arriving returning in
      rw (first, second)
        (
          rw (lookup-insert here.name here.name team parked) (ground (arith, ==_refl here.name)),
          lookup-add_pick third there.name (non_empty classes team') _ v
              ∙ lookup-without_name third here.name left u
              ∙ lookup-insert_other third here.name team parked u
              ∙ lookup-without_name third there.name s.gateway.team_by_environment v,
        )

  tool_team-IsTrimmed :
      (s : RelaySettings) (o : Option String) (t : String)
      → tool_team classes s o ≡ some t
      → IsTrimmed classes t
  tool_team-IsTrimmed s o t e = elim (Option-cases (non_empty classes o)) [
    | inl n ↦ absurd (ground arith)
    | inr (v, n) ↦ non_empty-IsTrimmed classes o t (n ∙ ground arith)
  ]

  -- The team in force has a character, and neither its first nor its last one is white space: it is never
  -- blank, whatever the settings hold.
  pub managed_team-IsTrimmed :
      (s : RelaySettings) (t : String) → managed_team classes s ≡ some t → IsTrimmed classes t
  unfolding managed_team
  managed_team-IsTrimmed s = or_option-IsTrimmed _ _ (non_empty-IsTrimmed classes s.gateway.team) (
      or_option-IsTrimmed _ _ (non_empty-IsTrimmed classes _) (
        or_option-IsTrimmed _ _ (tool_team-IsTrimmed s s.claude.team)
          (tool_team-IsTrimmed s s.codex.team)))
