-- ===== src/Broker/Switch.antt =====
-- Switching the team or the environment, and the dispatch of a request (`switch_team` to `switched` and
-- `handle` in src/broker/mod.rs).
use litellm_relay.Common.{
  String, Bool, ◌&&◌, Option, none, some, if◌then◌else◌, ◌==◌, string_eq, option_eq, unwrap_or,
  is_some_and, zip_option,
}
use litellm_relay.Common.Sorted.{lookup}
use litellm_relay.Common.Action.{Result, ok, err, pure, fail, attempt, lift, ◌>>=◌, ◌>>◌}
use litellm_relay.Config.Settings.{EnvironmentEntry, RelaySettings}
use litellm_relay.Config.Environments.{
  managed_team, current_environment, environment_named, name_of, add_pick, without_name,
}
use litellm_relay.Broker.Caller.{Peer}
use litellm_relay.Broker.Types.{
  non_interactive, Request, Issued, Refusal, switch_refusal, Reply, Mode, idp, static_key,
  unconfigured, same_mode, Target, GatewayPatch, applied_to, GatewayHold, BrokerStatus, Switched,
}
use litellm_relay.Broker.Host.{Host, Threads, Act, current_target, free, outside, read_target}
use litellm_relay.Broker.Hold.{
  take_gateway_hold, restore_gateway_hold, retire, apply_saved_settings, refresh,
}
use litellm_relay.Broker.Issue.{issue, issue_under_renewal_lock}
use litellm_relay.Broker.Serve.{credential, proxy_credential, sign_in, sign_out, status}

abbrev pub same_gateway : Target → Target → Bool
same_gateway back before =
    same_mode back.mode before.mode
    && back.gateway_url == before.gateway_url
    && back.team == before.team

abbrev pub switched_of : BrokerStatus → Switched
switched_of s = record {
  team = s.team;
  environment = s.environment;
  gateway_url = s.gateway_url;
  key_expires_at = s.key_expires_at;
  source = s.source;
}

module _ {h : Host} (t : Threads h) where
  unfoldable pub switched : Act h Reply
  switched = do s ← status t; pure (Reply.switched (switched_of s))

  abbrev pub or_refuse : Refusal → Option RelaySettings → Result Refusal RelaySettings
  or_refuse refusal (some settings) = ok settings
  or_refuse refusal none = err refusal

  unfoldable pub settings_for : Mode → Act h RelaySettings
  settings_for (idp section) = do
    settings ← outside t h.load
    lift (or_refuse Refusal.gateway_error settings)
  settings_for (static_key key) = fail Refusal.static_key
  settings_for (unconfigured hint) = fail Refusal.gateway_error

  unfoldable pub switchable_settings : Act h RelaySettings
  switchable_settings = do target ← read_target t; settings_for target.mode

  unfoldable pub switched_or : Result Refusal Issued → Act h Reply
  switched_or (ok issued) = switched
  switched_or (err refusal) = fail (switch_refusal refusal)

  unfoldable pub switched_in_place : Act h Reply
  switched_in_place = do
    target ← read_target t
    r ← attempt (issue t target.mode non_interactive)
    switched_or r

  unfoldable pub give_back : Target → Target → GatewayHold → Act h (Unit {0})
  give_back before back held =
      if same_gateway back before
      then restore_gateway_hold t held
      else retire t before.gateway_url held

  -- The switch got no credential.
  unfoldable pub undo_switch :
      RelaySettings → GatewayPatch → Target → GatewayHold → Refusal → Act h Reply
  undo_switch settings previous before held refusal = do
    loaded ← outside t h.load
    outside t (h.store (applied_to previous (unwrap_or settings loaded)))
    apply_saved_settings t
    back ← current_target
    give_back before back held
    fail (switch_refusal refusal)

  unfoldable pub complete_switch : Target → GatewayHold → Act h Reply
  complete_switch before held = do retire t before.gateway_url held; free t; switched

  unfoldable pub finish_switch :
      RelaySettings → GatewayPatch → Target → GatewayHold → Result Refusal Issued → Act h Reply
  finish_switch settings previous before held (ok issued) = complete_switch before held
  finish_switch settings previous before held (err refusal) =
      undo_switch settings previous before held refusal

  unfoldable pub switch_stored : RelaySettings → GatewayPatch → Target → GatewayHold → Act h Reply
  switch_stored settings previous before held = do
    apply_saved_settings t
    target ← current_target
    r ← attempt (issue_under_renewal_lock t target non_interactive)
    finish_switch settings previous before held r

  unfoldable pub switch_from : RelaySettings → GatewayPatch → Target → Act h Reply
  switch_from settings previous before = do
    held ← take_gateway_hold t
    switch_stored settings previous before held

  unfoldable pub store_and_switch :
      RelaySettings → GatewayPatch → Result String (Unit {0}) → Act h Reply
  store_and_switch settings previous (err e) = fail Refusal.switch_failed
  store_and_switch settings previous (ok _) = do
    before ← current_target
    switch_from settings previous before

  unfoldable pub apply_switch : RelaySettings → GatewayPatch → GatewayPatch → Act h Reply
  apply_switch settings next previous = do
    free t
    r ← outside t (h.store (applied_to next settings))
    store_and_switch settings previous r

  unfoldable pub team_switch : String → RelaySettings → Act h Reply
  team_switch team settings =
      if managed_team h.device.classes settings == some team
      then switched_in_place
      else apply_switch settings (GatewayPatch.team (some team))
          (GatewayPatch.team settings.gateway.team)

  unfoldable pub switch_team : String → Act h Reply
  switch_team team = do free t; refresh t; settings ← switchable_settings; team_switch team settings

  -- The patch to an environment: the team that is parked for it comes back, and the one in use is parked
  -- under the environment that is left.
  abbrev pub patch_to : RelaySettings → EnvironmentEntry → GatewayPatch
  patch_to settings entry =
      let parked = settings.gateway.team_by_environment in
      let leaving =
        zip_option (name_of (current_environment h.device.classes settings))
          settings.gateway.team in
      GatewayPatch.environment entry.url (lookup entry.name parked)
        (add_pick leaving (without_name (some entry.name) parked))

  abbrev pub patch_back : RelaySettings → GatewayPatch
  patch_back settings =
      GatewayPatch.environment settings.gateway.url settings.gateway.team
        settings.gateway.team_by_environment

  abbrev pub is_current : RelaySettings → EnvironmentEntry → Bool
  is_current settings entry =
      is_some_and (λ (current : EnvironmentEntry). current.name == entry.name)
        (current_environment h.device.classes settings)

  unfoldable pub environment_switch : RelaySettings → Option EnvironmentEntry → Act h Reply
  environment_switch settings none = fail Refusal.unknown_environment
  environment_switch settings (some entry) =
      if is_current settings entry
      then switched_in_place
      else apply_switch settings (patch_to settings entry) (patch_back settings)

  unfoldable pub switch_environment : String → Act h Reply
  switch_environment name = do
    free t
    refresh t
    settings ← switchable_settings
    environment_switch settings (environment_named h.device.classes settings name)

  unfoldable pub answered : Act h Issued → Act h Reply
  answered m = do issued ← m; pure (Reply.credential issued)

  unfoldable pub reported : Act h BrokerStatus → Act h Reply
  reported m = do s ← m; pure (Reply.status s)

  -- `Broker::handle`
  unfoldable pub handle : Request → Peer → Act h Reply
  handle (Request.credential context) peer = answered (credential t context peer)
  handle (Request.proxy_credential context) peer = answered (proxy_credential t context peer)
  handle Request.sign_in peer = sign_in t
  handle Request.sign_out peer = sign_out t
  handle Request.status peer = reported (status t)
  handle (Request.switch_team team) peer = switch_team team
  handle (Request.switch_environment environment) peer = switch_environment environment
  handle Request.recheck peer = fail Refusal.bad_request
