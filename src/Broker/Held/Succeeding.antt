-- ===== src/Broker/Held/Succeeding.antt =====
-- The parts of a switch that cannot fail (src/broker/mod.rs).
use litellm_relay.Common.{String, ℕ, refl, Bool, true, false, Option, none, some}
use litellm_relay.Common.Action.{gets, attempt}
use litellm_relay.Common.Action.Outcomes.{Leads, Leads-pure, Leads-either, Leads-weaken, Leads-bind}
use litellm_relay.AiTools.Credential.Types.{CachedCredential}
use litellm_relay.Config.Settings.{RelaySettings}
use litellm_relay.Broker.Types.{Refusal, Target, MintedKey, GatewayHold}
use litellm_relay.Broker.Host.{
  Host, Broker, Threads, Act, modify_state, set_target, free, outside, read_target, read_state,
}
use litellm_relay.Broker.Hold.{
  retire_held, forget, forget_for, drop_proxy_token, adopt, apply_loaded, apply_newer,
  apply_version, apply_saved_settings, try_apply, try_newer, try_version, refresh_unless_renewing,
}
use litellm_relay.Broker.Serve.{status}
use litellm_relay.Broker.Switch.{switched, complete_switch}
use litellm_relay.Broker.Held.Settings.{Leads-forget}

module _ {h : Host} where
  abbrev pub Any : Broker h → Type 0
  Any b = Unit

  abbrev pub Succeeds : {A : Type 0} → Act h A → Type 0
  Succeeds m = Leads Any Any m

  module _ (t : Threads h) where
    pub Succeeds-outside :
        {A : Type 0} (f : h.device.World → A × h.device.World) → Succeeds (outside t f)
    unfolding outside
    Succeeds-outside f = record { at = λ b v. (_, refl, tt) }

    Succeeds-free : Succeeds (free t)
    unfolding free
    Succeeds-free = record { at = λ b v. (_, refl, tt) }

    pub Succeeds-gets : {A : Type 0} (f : Broker h → A) → Succeeds (gets f)
    unfolding gets
    Succeeds-gets f = record { at = λ b v. (_, refl, tt) }

    pub Succeeds-attempt : {A : Type 0} (m : Act h A) → Leads Any Any (attempt {F = Refusal} m)
    unfolding attempt
    Succeeds-attempt m = record { at = λ b v. (_, refl, tt) }

    Succeeds-forget : (gateway_url : String) (clear : Bool) → Succeeds (forget t gateway_url clear)
    Succeeds-forget gateway_url clear =
        Leads-weaken _ (λ b c. tt) (Leads-forget t gateway_url clear)

    Succeeds-forget_for :
        (settings : RelaySettings) (current next : Target)
        → Succeeds (forget_for t settings current next)
    unfolding forget_for
    Succeeds-forget_for settings current next =
        Leads-either _ _ _ (Succeeds-forget current.gateway_url true) (
          Leads-either _ _ _ (Succeeds-forget current.gateway_url false)
            (Leads-either _ _ _ (Succeeds-forget current.gateway_url false) (Leads-pure tt)))

    Succeeds-drop_proxy_token : (current next : Target) → Succeeds (drop_proxy_token t current next)
    unfolding drop_proxy_token modify_state
    Succeeds-drop_proxy_token current next =
        Leads-either _ _ _ (record { at = λ b v. (tt, refl, tt) }) (Leads-pure tt)

    Succeeds-adopt :
        (current : Target) (settings : RelaySettings) (next : Target)
        → Succeeds (adopt t current settings next)
    unfolding adopt set_target
    Succeeds-adopt current settings next =
        Leads-bind _ _ (Succeeds-forget_for settings current next) (λ _.
          Leads-bind _ _ (Succeeds-drop_proxy_token current next)
            (λ _. record { at = λ b v. (tt, refl, tt) }))

    Succeeds-apply_loaded :
        (version : ℕ) (settings : Option RelaySettings) → Succeeds (apply_loaded t version settings)
    unfolding apply_loaded
    Succeeds-apply_loaded version none = Leads-pure tt
    Succeeds-apply_loaded version (some settings) =
        Leads-bind _ _ (Succeeds-gets _) (λ current. Succeeds-adopt current settings _)

    Succeeds-apply_version : (version : Option ℕ) → Succeeds (apply_version t version)
    unfolding apply_version apply_newer
    Succeeds-apply_version none = Leads-pure tt
    Succeeds-apply_version (some version) = Leads-bind _ _ (Succeeds-gets _) (λ current.
        Leads-either _ _ _ (Leads-pure tt) (
          Leads-bind _ _ (Succeeds-outside h.load)
            (λ settings. Succeeds-apply_loaded version settings)))

    pub Succeeds-apply_saved_settings : Succeeds (apply_saved_settings t)
    unfolding apply_saved_settings
    Succeeds-apply_saved_settings =
        Leads-bind _ _ (Succeeds-outside h.version) Succeeds-apply_version

    Succeeds-try_apply : (taken : Bool) → Succeeds (try_apply t taken)
    unfolding try_apply
    Succeeds-try_apply true = Leads-pure tt
    Succeeds-try_apply false = Succeeds-apply_saved_settings

    Succeeds-try_version : (version : Option ℕ) → Succeeds (try_version t version)
    unfolding try_version try_newer read_target
    Succeeds-try_version none = Leads-pure tt
    Succeeds-try_version (some version) =
        Leads-bind _ _ (Leads-bind _ _ Succeeds-free (λ _. Succeeds-gets _)) (λ current.
          Leads-either _ _ _ (Leads-pure tt) (
            Leads-bind _ _ Succeeds-free
              (λ _. Leads-bind _ _ (Succeeds-gets _) Succeeds-try_apply)))

    Succeeds-switched : Succeeds (switched t)
    unfolding switched status refresh_unless_renewing read_target read_state
    Succeeds-switched =
        Leads-bind _ _
          (Leads-bind _ _
            (Leads-bind _ _ Succeeds-free
              (λ _. Leads-bind _ _ (Succeeds-outside h.version) Succeeds-try_version))
            (λ _. Leads-bind _ _ (Leads-bind _ _ Succeeds-free (λ _. Succeeds-gets _)) (λ target.
              Leads-bind _ _ (Succeeds-outside h.now) (λ now.
                Leads-bind _ _ (Leads-bind _ _ Succeeds-free (λ _. Succeeds-gets _))
                  (λ s. Leads-pure _)))))
          (λ s. Leads-pure _)

    Succeeds-retire_held :
        (gateway_url : String) (key : Option MintedKey) (c : Option CachedCredential)
        → Succeeds (retire_held t gateway_url key c)
    unfolding retire_held
    Succeeds-retire_held gateway_url (some key) (some c) =
        Leads-bind _ _ (Succeeds-outside _) (λ _. Leads-pure tt)
    Succeeds-retire_held gateway_url (some key) none = Leads-pure tt
    Succeeds-retire_held gateway_url none c = Leads-pure tt

    pub Succeeds-complete_switch :
        (before : Target) (held : GatewayHold) → Succeeds (complete_switch t before held)
    unfolding complete_switch
    Succeeds-complete_switch before held =
        Leads-bind _ _ (Succeeds-retire_held before.gateway_url held.key held.credential)
          (λ _. Leads-bind _ _ Succeeds-free (λ _. Succeeds-switched))
