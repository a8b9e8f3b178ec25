-- ===== src/Broker/Held/Switching.antt =====
-- Every request leaves the broker with a key and a credential of the settings in force, a switch that
-- failed included (src/broker/mod.rs).
use litellm_relay.Common.{
  String, ◌≡◌, true, Bool-cases, inl, inr, Option, none, some, ==_iff, string_eq, option_eq, arith,
  sym,
}
use litellm_relay.Common.Action.{
  Result, ok, err, pure, gets, ◌>>=◌, Keeps, Keeps-pure, Keeps-fail, Keeps-lift, Keeps-bind,
  Keeps-if, Keeps-attempt,
}
use litellm_relay.Common.Action.Outcomes.{bind-after}
use litellm_relay.AiTools.Credential.Types.{CachedCredential}
use litellm_relay.Config.Settings.{EnvironmentEntry, RelaySettings}
use litellm_relay.Broker.Caller.{Peer}
use litellm_relay.Broker.Types.{
  non_interactive, Request, Issued, Refusal, Mode, idp, static_key, unconfigured, Target, MintedKey,
  GatewayPatch, GatewayHold, BrokerStatus,
}
use litellm_relay.Broker.Host.{Host, Broker, Threads, Act, modify_state, free}
use litellm_relay.Broker.Hold.{
  take_gateway_hold, restore_gateway_hold, retire_held, hold_of, with_hold,
}
use litellm_relay.Broker.Switch.{
  same_gateway, switched, settings_for, switchable_settings, switched_or, switched_in_place,
  give_back, undo_switch, complete_switch, finish_switch, switch_stored, switch_from,
  store_and_switch, apply_switch, team_switch, switch_team, environment_switch, switch_environment,
  answered, reported, handle,
}
use litellm_relay.Broker.Held.{
  Fits, Held, Fixed, Fixed-Held, Keeps-Fixed, Keeps-with_target, Keeps-modify_state, Keeps-outside,
  Held-outside, free-Held,
}
use litellm_relay.Broker.Held.Settings.{Fits-same, same_mode-is_idp}
use litellm_relay.Broker.Held.Refreshing.{Held-apply_saved_settings, Held-read_target, Held-refresh}
use litellm_relay.Broker.Held.Issuing.{Keeps-issue_under_renewal_lock, Held-issue}
use litellm_relay.Broker.Held.Serving.{
  Held-credential, Held-proxy_credential, Held-sign_in, Held-sign_out, Held-status,
}

Fits-same_gateway :
    (before back : Target) (held : GatewayHold)
    → same_gateway back before ≡ true
    → Fits before held.key held.credential
    → Fits back held.key held.credential
Fits-same_gateway before back held e f =
    Fits-same before back held.key held.credential
      (sym (same_mode-is_idp back.mode before.mode (ground arith)))
      (ground (arith, ==_iff back.gateway_url before.gateway_url))
      (ground (arith, ==_iff back.team before.team)) f

module _ {h : Host} (t : Threads h) where
  Keeps-retire_held :
      (target : Target) (gateway_url : String) (key : Option MintedKey)
      (c : Option CachedCredential)
      → Keeps (Fixed target) (retire_held t gateway_url key c)
  unfolding retire_held
  Keeps-retire_held target gateway_url (some key) (some c) =
      Keeps-bind _ _ (Keeps-outside t target _) (λ _. Keeps-pure _)
  Keeps-retire_held target gateway_url (some key) none = Keeps-pure _
  Keeps-retire_held target gateway_url none c = Keeps-pure _

  Held-retire_held :
      (gateway_url : String) (key : Option MintedKey) (c : Option CachedCredential)
      → Keeps (Held h) (retire_held t gateway_url key c)
  unfolding retire_held
  Held-retire_held gateway_url (some key) (some c) =
      Keeps-bind _ _ (Held-outside t _) (λ _. Keeps-pure _)
  Held-retire_held gateway_url (some key) none = Keeps-pure _
  Held-retire_held gateway_url none c = Keeps-pure _

  Keeps-give_back :
      (before back : Target) (held : GatewayHold)
      → Fits before held.key held.credential
      → Keeps (Fixed back) (give_back t before back held)
  unfolding give_back restore_gateway_hold
  Keeps-give_back before back held f = elim (Bool-cases (same_gateway back before)) [
    | inl e ↦
        rw e
          (Keeps-modify_state back (with_hold held) (λ s g. Fits-same_gateway before back held e f))
    | inr e ↦ rw e (Keeps-retire_held back before.gateway_url held.key held.credential)
  ]

  module _ (others : Keeps (Held h) (free t)) where
    Held-switched : Keeps (Held h) (switched t)
    unfolding switched
    Held-switched = Keeps-bind _ _ (Held-status t others) (λ s. Keeps-pure _)

    Held-settings_for : (mode : Mode) → Keeps (Held h) (settings_for t mode)
    unfolding settings_for
    Held-settings_for (idp section) = Keeps-bind _ _ (Held-outside t h.load) (λ s. Keeps-lift _)
    Held-settings_for (static_key key) = Keeps-fail _
    Held-settings_for (unconfigured hint) = Keeps-fail _

    Held-switchable_settings : Keeps (Held h) (switchable_settings t)
    unfolding switchable_settings
    Held-switchable_settings =
        Keeps-bind _ _ (Held-read_target t others) (λ target. Held-settings_for target.mode)

    Held-switched_in_place : Keeps (Held h) (switched_in_place t)
    unfolding switched_in_place switched_or
    Held-switched_in_place = Keeps-bind _ _ (Held-read_target t others) (λ target.
        Keeps-bind _ _ (Keeps-attempt _ (Held-issue t others target.mode non_interactive))
          Held-switched_or)
      where
        Held-switched_or : (r : Result Refusal Issued) → Keeps (Held h) (switched_or t r)
        Held-switched_or (ok issued) = Held-switched
        Held-switched_or (err refusal) = Keeps-fail _

    module _ (settings : RelaySettings) (previous : GatewayPatch) (before : Target)
        (held : GatewayHold) (fits : Fits before held.key held.credential) where
      Held-undo_switch :
          (refusal : Refusal) → Keeps (Held h) (undo_switch t settings previous before held refusal)
      unfolding undo_switch
      Held-undo_switch refusal = Keeps-bind _ _ (Held-outside t h.load) (λ loaded.
          Keeps-bind _ _ (Held-outside t _) (λ _. Keeps-bind _ _ (Held-apply_saved_settings t) (λ _.
            Keeps-Fixed _ (λ back.
              Keeps-bind _ _ (Keeps-give_back before back held fits) (λ _. Keeps-fail _)))))

      Held-finish_switch :
          (r : Result Refusal Issued)
          → Keeps (Held h) (finish_switch t settings previous before held r)
      unfolding finish_switch complete_switch
      Held-finish_switch (ok issued) =
          Keeps-bind _ _ (Held-retire_held before.gateway_url held.key held.credential)
            (λ _. Keeps-bind _ _ others (λ _. Held-switched))
      Held-finish_switch (err refusal) = Held-undo_switch refusal

      Held-switch_stored : Keeps (Held h) (switch_stored t settings previous before held)
      unfolding switch_stored
      Held-switch_stored = Keeps-bind _ _ (Held-apply_saved_settings t) (λ _.
          Keeps-with_target _ (λ target.
            bind-after _ _
              (λ b f. Fixed-Held target _ (
                (Keeps-attempt {F = Refusal} _
                    (Keeps-issue_under_renewal_lock t target non_interactive)).at
                  b f))
              Held-finish_switch))

    Held-switch_from :
        (settings : RelaySettings) (previous : GatewayPatch) (before : Target) (b : Broker h)
        → Fixed before b
        → Held h (switch_from t settings previous before b).1
    unfolding switch_from take_gateway_hold ◌>>=◌ gets modify_state pure
    Held-switch_from settings previous before b f =
        (Held-switch_stored settings previous before (hold_of b.state) f.fits).at
          (take_gateway_hold t b).1 (record { of_key = tt; of_credential = tt })

    Held-store_and_switch :
        (settings : RelaySettings) (previous : GatewayPatch) (r : Result String (Unit {0}))
        → Keeps (Held h) (store_and_switch t settings previous r)
    unfolding store_and_switch
    Held-store_and_switch settings previous (err e) = Keeps-fail _
    Held-store_and_switch settings previous (ok _) =
        Keeps-with_target (switch_from t settings previous) (Held-switch_from settings previous)

    Held-apply_switch :
        (settings : RelaySettings) (next previous : GatewayPatch)
        → Keeps (Held h) (apply_switch t settings next previous)
    unfolding apply_switch
    Held-apply_switch settings next previous =
        Keeps-bind _ _ others
          (λ _. Keeps-bind _ _ (Held-outside t _) (λ r. Held-store_and_switch settings previous r))

    Held-switch_team : (team : String) → Keeps (Held h) (switch_team t team)
    unfolding switch_team team_switch
    Held-switch_team team = Keeps-bind _ _ others (λ _. Keeps-bind _ _ (Held-refresh t others) (λ _.
        Keeps-bind _ _ Held-switchable_settings
          (λ settings. Keeps-if _ _ _ Held-switched_in_place (Held-apply_switch settings _ _))))

    Held-environment_switch :
        (settings : RelaySettings) (entry : Option EnvironmentEntry)
        → Keeps (Held h) (environment_switch t settings entry)
    unfolding environment_switch
    Held-environment_switch settings none = Keeps-fail _
    Held-environment_switch settings (some entry) =
        Keeps-if _ _ _ Held-switched_in_place (Held-apply_switch settings _ _)

    Held-switch_environment : (name : String) → Keeps (Held h) (switch_environment t name)
    unfolding switch_environment
    Held-switch_environment name = Keeps-bind _ _ others (λ _.
        Keeps-bind _ _ (Held-refresh t others) (λ _.
          Keeps-bind _ _ Held-switchable_settings (λ settings. Held-environment_switch settings _)))

    Held-answered : (m : Act h Issued) → Keeps (Held h) m → Keeps (Held h) (answered t m)
    unfolding answered
    Held-answered m k = Keeps-bind _ _ k (λ issued. Keeps-pure _)

    Held-reported : (m : Act h BrokerStatus) → Keeps (Held h) m → Keeps (Held h) (reported t m)
    unfolding reported
    Held-reported m k = Keeps-bind _ _ k (λ s. Keeps-pure _)

    handled-Held : (request : Request) (peer : Peer) → Keeps (Held h) (handle t request peer)
    unfolding handle
    handled-Held (Request.credential context) peer =
        Held-answered _ (Held-credential t others context peer)
    handled-Held (Request.proxy_credential context) peer =
        Held-answered _ (Held-proxy_credential t others context peer)
    handled-Held Request.sign_in peer = Held-sign_in t others
    handled-Held Request.sign_out peer = Held-sign_out t others
    handled-Held Request.status peer = Held-reported _ (Held-status t others)
    handled-Held (Request.switch_team team) peer = Held-switch_team team
    handled-Held (Request.switch_environment environment) peer = Held-switch_environment environment
    handled-Held Request.recheck peer = Keeps-fail _

-- If the other threads keep a key that is held of the Gateway of the settings in force, under which an IdP
-- and a team are set, and a credential that is held of their Gateway and team, then so does every request,
-- whether it succeeds or fails.
pub handle-Held :
    {h : Host} (t : Threads h)
    → ((b : Broker h) → Held h b → Held h (t.free b))
    → (request : Request) (peer : Peer) (b : Broker h) → Held h b
    → Held h (handle t request peer b).1
handle-Held t others request peer b v = (handled-Held t (free-Held t others) request peer).at b v
