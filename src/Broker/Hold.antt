-- ===== src/Broker/Hold.antt =====
-- What the broker holds, and how it is dropped: `forget`, `retire`, `mark_dead` and the reading of the saved
-- settings (src/broker/mod.rs).
use litellm_relay.Common.{
  String, ℕ, Bool, true, false, ◌&&◌, ◌||◌, not, Option, none, some, if◌then◌else◌, ◌==◌, string_eq,
  nat_eq, option_eq, list_eq, is_some, Eq, ==_iff, ◌≡◌, ◌↔◌, arith,
}
use litellm_relay.Common.Action.{pure, gets, ◌>>=◌, ◌>>◌}
use litellm_relay.AiTools.Credential.Types.{CachedCredential, dead}
use litellm_relay.Config.Settings.{RelaySettings}
use litellm_relay.Config.Environments.{environment_with_url}
use litellm_relay.Broker.Caller.{AllowedCaller}
use litellm_relay.Broker.Types.{
  Target, State, GatewayHold, MintedKey, same_mode, target_from_settings,
}
use litellm_relay.Broker.Host.{
  Host, Threads, Act, modify_state, set_target, current_target, current_state, free, outside,
  read_target,
}

abbrev pub without_hold : State → State
without_hold s = record s { key = none; credential = none; mint_refusal = none; last_source = none }

abbrev pub hold_of : State → GatewayHold
hold_of s = record {
  key = s.key;
  credential = s.credential;
  mint_refusal = s.mint_refusal;
  last_source = s.last_source;
}

abbrev pub with_hold : GatewayHold → State → State
with_hold held s = record s {
  key = held.key;
  credential = held.credential;
  mint_refusal = held.mint_refusal;
  last_source = held.last_source;
}

abbrev pub signed_out_state : State → State
signed_out_state s = record s { session = none; proxy_token = none }

abbrev pub dead_state : CachedCredential → ℕ → State → State
dead_state c now s = record s { credential = some (dead c now); key = none; mint_refusal = none }

abbrev pub same_callers : AllowedCaller → AllowedCaller → Bool
same_callers a b = a.identifier == b.identifier && a.team_id == b.team_id

pub same_callers_iff : (a b : AllowedCaller) → (same_callers a b ≡ true) ↔ (a ≡ b)
same_callers_iff a b = ground (arith, ==_iff a.identifier b.identifier, ==_iff a.team_id b.team_id)

instance abbrev pub caller_eq : Eq AllowedCaller
caller_eq = record { eq = same_callers; decides = same_callers_iff }

module _ {h : Host} (t : Threads h) where
  unfoldable pub take_gateway_hold : Act h GatewayHold
  take_gateway_hold = do s ← current_state; modify_state without_hold; pure (hold_of s)

  unfoldable pub restore_gateway_hold : GatewayHold → Act h (Unit {0})
  restore_gateway_hold held = modify_state (with_hold held)

  unfoldable pub retire_held :
      String → Option MintedKey → Option CachedCredential → Act h (Unit {0})
  retire_held gateway_url (some key) (some c) = do
    outside t (h.delete gateway_url c.access_token key.token)
    pure tt
  retire_held gateway_url (some key) none = pure tt
  retire_held gateway_url none c = pure tt

  abbrev pub retire : String → GatewayHold → Act h (Unit {0})
  retire gateway_url held = retire_held gateway_url held.key held.credential

  unfoldable pub clear_session : Bool → Act h (Unit {0})
  clear_session true = modify_state signed_out_state
  clear_session false = pure tt

  unfoldable pub forget : String → Bool → Act h (Unit {0})
  forget gateway_url clear = do
    clear_session clear
    held ← take_gateway_hold
    retire gateway_url held

  unfoldable pub mark_dead : CachedCredential → ℕ → Act h (Unit {0})
  mark_dead c now = modify_state (dead_state c now)

  -- Both addresses are of configured environments.
  abbrev pub between_environments : RelaySettings → Target → Target → Bool
  between_environments settings current next =
      is_some (environment_with_url h.device.classes settings current.gateway_url)
      && is_some (environment_with_url h.device.classes settings next.gateway_url)

  abbrev pub moved : Target → Target → Bool
  moved current next = not (current.gateway_url == next.gateway_url)

  unfoldable pub forget_for : RelaySettings → Target → Target → Act h (Unit {0})
  forget_for settings current next =
      if not (same_mode current.mode next.mode)
        || (moved current next && not (between_environments settings current next))
      then forget current.gateway_url true
      else if moved current next
      then forget current.gateway_url false
      else if not (current.team == next.team)
      then forget current.gateway_url false
      else pure tt

  unfoldable pub drop_proxy_token : Target → Target → Act h (Unit {0})
  drop_proxy_token current next =
      if not (current.callers == next.callers) || not (current.unanchored == next.unanchored)
      then modify_state (λ s. record s { proxy_token = none })
      else pure tt

  unfoldable pub adopt : Target → RelaySettings → Target → Act h (Unit {0})
  adopt current settings next = do
    forget_for settings current next
    drop_proxy_token current next
    set_target next

  unfoldable pub apply_loaded : ℕ → Option RelaySettings → Act h (Unit {0})
  apply_loaded version none = pure tt
  apply_loaded version (some settings) = do
    current ← current_target
    adopt current settings (target_from_settings h.device.classes settings (some version))

  unfoldable pub apply_newer : ℕ → Target → Act h (Unit {0})
  apply_newer version current =
      if current.version == some version
      then pure tt
      else (do settings ← outside t h.load; apply_loaded version settings)

  unfoldable pub apply_version : Option ℕ → Act h (Unit {0})
  apply_version none = pure tt
  apply_version (some version) = do current ← current_target; apply_newer version current

  -- Under the renewal lock.
  unfoldable pub apply_saved_settings : Act h (Unit {0})
  apply_saved_settings = do version ← outside t h.version; apply_version version

  -- `refresh_holding` with the lock waited for, as `refresh` does.
  unfoldable pub refresh_newer : ℕ → Target → Act h (Unit {0})
  refresh_newer version current =
      if current.version == some version then pure tt else (do free t; apply_saved_settings)

  unfoldable pub refresh_version : Option ℕ → Act h (Unit {0})
  refresh_version none = pure tt
  refresh_version (some version) = do current ← read_target t; refresh_newer version current

  unfoldable pub refresh : Act h (Unit {0})
  refresh = do free t; version ← outside t h.version; refresh_version version

  -- `refresh_unless_renewing`
  unfoldable pub try_apply : Bool → Act h (Unit {0})
  try_apply true = pure tt
  try_apply false = apply_saved_settings

  unfoldable pub try_newer : ℕ → Target → Act h (Unit {0})
  try_newer version current =
      if current.version == some version
      then pure tt
      else (do free t; taken ← gets t.renewing; try_apply taken)

  unfoldable pub try_version : Option ℕ → Act h (Unit {0})
  try_version none = pure tt
  try_version (some version) = do current ← read_target t; try_newer version current

  unfoldable pub refresh_unless_renewing : Act h (Unit {0})
  refresh_unless_renewing = do free t; version ← outside t h.version; try_version version
