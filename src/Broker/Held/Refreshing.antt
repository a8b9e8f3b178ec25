-- ===== src/Broker/Held/Refreshing.antt =====
-- Reading the saved settings keeps what is held true to the settings (src/broker/mod.rs).
use litellm_relay.Common.{
  ℕ, Bool, true, false, Option, none, some, string_eq, nat_eq, option_eq, list_eq,
}
use litellm_relay.Common.Action.{Keeps, Keeps-pure, Keeps-bind, Keeps-gets, Keeps-if}
use litellm_relay.Config.Settings.{RelaySettings}
use litellm_relay.Broker.Types.{Target, target_from_settings}
use litellm_relay.Broker.Host.{Host, Threads, free, read_target}
use litellm_relay.Broker.Hold.{
  caller_eq, apply_loaded, apply_newer, apply_version, apply_saved_settings, refresh_newer,
  refresh_version, refresh, try_apply, try_newer, try_version, refresh_unless_renewing,
}
use litellm_relay.Broker.Held.{Held, Keeps-with_target, Held-outside}
use litellm_relay.Broker.Held.Settings.{Leads-adopt}

module _ {h : Host} where
  module _ (t : Threads h) where
    Held-apply_loaded :
        (version : ℕ) (settings : Option RelaySettings)
        → Keeps (Held h) (apply_loaded t version settings)
    unfolding apply_loaded
    Held-apply_loaded version none = Keeps-pure tt
    Held-apply_loaded version (some settings) = Keeps-with_target _ (λ current b f.
        let (_, _, held) =
          (Leads-adopt t current settings
              (target_from_settings h.device.classes settings (some version))).at
            b f in
        held)

    Held-apply_newer :
        (version : ℕ) (current : Target) → Keeps (Held h) (apply_newer t version current)
    unfolding apply_newer
    Held-apply_newer version current =
        Keeps-if _ _ _ (Keeps-pure tt)
          (Keeps-bind _ _ (Held-outside t h.load) (λ s. Held-apply_loaded version s))

    Held-apply_version : (version : Option ℕ) → Keeps (Held h) (apply_version t version)
    unfolding apply_version
    Held-apply_version none = Keeps-pure tt
    Held-apply_version (some version) =
        Keeps-bind _ _ (Keeps-gets _) (λ current. Held-apply_newer version current)

    pub Held-apply_saved_settings : Keeps (Held h) (apply_saved_settings t)
    unfolding apply_saved_settings
    Held-apply_saved_settings = Keeps-bind _ _ (Held-outside t h.version) Held-apply_version

    module _ (others : Keeps (Held h) (free t)) where
      pub Held-read_target : Keeps (Held h) (read_target t)
      unfolding read_target
      Held-read_target = Keeps-bind _ _ others (λ _. Keeps-gets _)

      Held-refresh_newer :
          (version : ℕ) (current : Target) → Keeps (Held h) (refresh_newer t version current)
      unfolding refresh_newer
      Held-refresh_newer version current =
          Keeps-if _ _ _ (Keeps-pure tt) (Keeps-bind _ _ others (λ _. Held-apply_saved_settings))

      Held-refresh_version : (version : Option ℕ) → Keeps (Held h) (refresh_version t version)
      unfolding refresh_version
      Held-refresh_version none = Keeps-pure tt
      Held-refresh_version (some version) =
          Keeps-bind _ _ Held-read_target (λ current. Held-refresh_newer version current)

      pub Held-refresh : Keeps (Held h) (refresh t)
      unfolding refresh
      Held-refresh =
          Keeps-bind _ _ others
            (λ _. Keeps-bind _ _ (Held-outside t h.version) Held-refresh_version)

      Held-try_apply : (taken : Bool) → Keeps (Held h) (try_apply t taken)
      unfolding try_apply
      Held-try_apply true = Keeps-pure tt
      Held-try_apply false = Held-apply_saved_settings

      Held-try_newer :
          (version : ℕ) (current : Target) → Keeps (Held h) (try_newer t version current)
      unfolding try_newer
      Held-try_newer version current =
          Keeps-if _ _ _ (Keeps-pure tt)
            (Keeps-bind _ _ others (λ _. Keeps-bind _ _ (Keeps-gets _) Held-try_apply))

      Held-try_version : (version : Option ℕ) → Keeps (Held h) (try_version t version)
      unfolding try_version
      Held-try_version none = Keeps-pure tt
      Held-try_version (some version) =
          Keeps-bind _ _ Held-read_target (λ current. Held-try_newer version current)

      pub Held-refresh_unless_renewing : Keeps (Held h) (refresh_unless_renewing t)
      unfolding refresh_unless_renewing
      Held-refresh_unless_renewing =
          Keeps-bind _ _ others (λ _. Keeps-bind _ _ (Held-outside t h.version) Held-try_version)
