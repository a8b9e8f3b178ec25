-- ===== src/Mcp/Service/Switches.antt =====
-- What must come before a switch of the team or the environment (src/mcp/service.rs).
use Prim.Native.String.{count}
use litellm_relay.Common.{
  String, ◌≤◌, ◌≡◌, ◌≢◌, ◌⊎◌, inl, inr, refl, ap, ◌∙◌, false, Option-cases, Option, none, some,
  List, ◌∷◌, arith,
}
use litellm_relay.Json.{Value}
use litellm_relay.Mcp.Verdict.Words.{CharClasses, chars}
use litellm_relay.Mcp.Service.Types.{
  SessionIdentity, SwitchReply, McpRefusal, Answer, accept, Event, asked, Question, switch_team,
  switch_environment, switched_team, switched_environment,
}
use litellm_relay.Common.Action.{Result, ok, err}
use litellm_relay.Mcp.Service.Host.{Host, Env, Exec, observe, note, lift, continue, ◌>>=◌, ◌>>◌}
use litellm_relay.Mcp.Service.Tools.{confirm}
use litellm_relay.Mcp.Service.Switching.{
  is_blank, team_id_problem, switch_outcome, selection_after, forget_fetch_time, switch_team_to,
  switch_environment_to, environment_url,
}

-- A team id that can be sent: not blank, and of at most 256 characters.
abbrev pub IsTeamId : CharClasses → String → Type 0
IsTeamId classes team = (is_blank classes (chars team) ≡ false) × (count team ≤ 256)

-- What a switch added to the record of events: nothing, a question that was not accepted, or the switch
-- right after its question was accepted.
pub data SwitchLog (question : Question) (switch : Event) (before after : List Event) : Type 0 where
  refused_at_once : after ≡ before → SwitchLog question switch before after
  not_accepted :
      (answer : Answer)
      → answer ≢ accept
      → after ≡ asked question answer ∷ before
      → SwitchLog question switch before after
  switched :
      after ≡ switch ∷ asked question accept ∷ before → SwitchLog question switch before after

pub team_id_problem-eq-none :
    (classes : CharClasses) (team : String)
    → team_id_problem classes team ≡ none
    → IsTeamId classes team
unfolding team_id_problem
team_id_problem-eq-none classes team e = ground arith

module _ {h : Host} where
  -- Either the question stands accepted at the head of the record, or it was not accepted.
  pub events-confirm :
      (question : Question) (env : Env h)
      → ((confirm question env).0 ≡ ok tt)
          × ((confirm question env).1.events ≡ asked question accept ∷ env.events)
        ⊎ (r : McpRefusal) × (a : Answer) × ((confirm question env).0 ≡ err r)
          × (a ≢ accept)
          × ((confirm question env).1.events ≡ asked question a ∷ env.events)
  unfolding confirm ◌>>=◌
  events-confirm question env = ground arith

  events-selection_after :
      (value : Value) (env : Env h) → (selection_after value env).1.events ≡ env.events
  unfolding selection_after ◌>>=◌
  events-selection_after value env = refl

  events-forget_fetch_time :
      (identity : Option SessionIdentity) (env : Env h)
      → (forget_fetch_time identity env).1.events ≡ env.events
  unfolding ◌>>=◌
  events-forget_fetch_time identity env = ground arith

  -- What follows a switch adds nothing more.
  events-continue :
      {A B : Type 0} (r : Result McpRefusal A) (f : A → Exec h B) (env : Env h)
      → ((a : A) → (f a env).1.events ≡ env.events)
      → (continue r f env).1.events ≡ env.events
  events-continue (ok a) f env quiet = quiet a
  events-continue (err r) f env quiet = refl

  finish_team : Option SessionIdentity → Value → Exec h Value
  finish_team identity value = do forget_fetch_time identity; selection_after value

  events-finish_team :
      (identity : Option SessionIdentity) (value : Value) (env : Env h)
      → (finish_team identity value env).1.events ≡ env.events
  unfolding finish_team ◌>>=◌
  events-finish_team none value env = events-selection_after value env
  events-finish_team (some identity) value env = events-selection_after value _

  -- From an admitted switch on: the question, and the switch after it.
  ask_and_switch :
      {B : Type 0} (question : Question) (switch : Event) (reply : h.World → SwitchReply × h.World)
      (finish : Value → Exec h B)
      → Exec h B
  ask_and_switch question switch reply finish = do
    confirm question
    note switch
    answer ← observe reply
    value ← lift (switch_outcome answer)
    finish value

  ask_and_switch-SwitchLog :
      {B : Type 0} (question : Question) (switch : Event) (reply : h.World → SwitchReply × h.World)
      (finish : Value → Exec h B) (env : Env h)
      → ((value : Value) (e : Env h) → (finish value e).1.events ≡ e.events)
      → SwitchLog question switch env.events
          (ask_and_switch question switch reply finish env).1.events
  unfolding ask_and_switch ◌>>=◌
  ask_and_switch-SwitchLog question switch reply finish env quiet =
      elim (events-confirm question env) [
        | inr (r, a, e, ne, log) ↦ rw e (not_accepted a ne log)
        | inl (e, log) ↦
            let told = (note switch (confirm question env).1).1 in
            let answered = observe reply told in
            rw e (
              switched (
                events-continue (switch_outcome (reply told.world).0) finish answered.1
                  (λ v. quiet v answered.1)
                ∙ ap (λ l. switch ∷ l) log))
      ]

  -- A team is switched only when its id is not blank and has at most 256 characters, and only right
  -- after the user accepted the switch to that very team. On every other path nothing is switched.
  pub switch_team_to-SwitchLog :
      (identity : Option SessionIdentity) (team : String) (env : Env h)
      → SwitchLog
          (switch_team team)
          (switched_team team)
          env.events
          (switch_team_to identity team env).1.events
        × ((switch_team_to identity team env).1.events ≢ env.events → IsTeamId h.classes team)
  unfolding switch_team_to ask_and_switch finish_team ◌>>=◌
  switch_team_to-SwitchLog identity team env =
      elim (Option-cases (team_id_problem h.classes team)) [
        | inr (problem, e) ↦ rw e (refused_at_once refl, λ ne. absurd (ne refl))
        | inl e ↦ rw e (
          elim (Option-cases (h.team_refusal team env.world).0) [
            | inr (r, f) ↦ rw f (refused_at_once refl)
            | inl f ↦ rw f (
                ask_and_switch-SwitchLog (switch_team team) (switched_team team)
                  (h.switch_team team) (finish_team identity) (observe (h.team_refusal team) env).1
                  (events-finish_team identity))
          ],
          λ _. team_id_problem-eq-none h.classes team e,
        )
      ]

  -- The selection that the switcher gives once it has not refused the environment.
  unfoldable pub selection_shown : String → Env h → Value
  selection_shown name env =
      let (refusal, w) = h.environment_refusal name env.world in
      let (s, w') = h.meanwhile w env.state in let (selection, w'') = h.selection w' in selection

  -- An environment is switched only right after the user accepted the switch to that very environment,
  -- under the address that the switcher's selection gave for it. On every other path nothing is switched.
  pub switch_environment_to-SwitchLog :
      (name : String) (env : Env h)
      → SwitchLog
          (switch_environment name (environment_url (selection_shown name env) name))
          (switched_environment name)
          env.events
          (switch_environment_to name env).1.events
  unfolding switch_environment_to ask_and_switch selection_shown ◌>>=◌
  switch_environment_to-SwitchLog name env =
      let checked = observe (h.environment_refusal name) env in
      elim (Option-cases (h.environment_refusal name env.world).0) [
        | inr (r, f) ↦ rw f (refused_at_once refl)
        | inl f ↦ rw f (
            ask_and_switch-SwitchLog
              (switch_environment name (environment_url (selection_shown name env) name))
              (switched_environment name) (h.switch_environment name) selection_after
              (observe h.selection checked.1).1 events-selection_after)
      ]
