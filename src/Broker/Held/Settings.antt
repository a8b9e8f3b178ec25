-- ===== src/Broker/Held/Settings.antt =====
-- Forgetting and the reading of the saved settings keep what is held true to the settings
-- (src/broker/mod.rs).
use litellm_relay.Common.{
  String, ◌≡◌, refl, Bool, true, false, ◌&&◌, ◌||◌, not, Option, none, some, ◌==◌, ==_iff,
  string_eq, nat_eq, option_eq, list_eq, arith,
}
use litellm_relay.Common.Action.{pure, gets, ◌>>=◌, Keeps, Keeps-pure, Keeps-bind, Keeps-gets}
use litellm_relay.Common.Action.Outcomes.{Leads, Leads-pure, Leads-if, Leads-weaken, Leads-bind}
use litellm_relay.AiTools.Credential.Types.{CachedCredential}
use litellm_relay.Config.Settings.{RelaySettings}
use litellm_relay.Broker.Types.{
  Target, MintedKey, State, Mode, idp, static_key, unconfigured, is_idp, same_mode,
}
use litellm_relay.Broker.Host.{Host, Broker, Threads, modify_state, set_target, outside}
use litellm_relay.Broker.Hold.{
  caller_eq, take_gateway_hold, retire_held, clear_session, forget, moved, between_environments,
  forget_for, drop_proxy_token, adopt,
}
use litellm_relay.Broker.Held.{Fits, Held, Fixed}

pub same_mode-is_idp : (a b : Mode) → same_mode a b ≡ true → is_idp a ≡ is_idp b
same_mode-is_idp (idp a) (idp b) e = refl
same_mode-is_idp (idp a) (static_key b) e = cc
same_mode-is_idp (idp a) (unconfigured b) e = cc
same_mode-is_idp (static_key a) (idp b) e = cc
same_mode-is_idp (static_key a) (static_key b) e = refl
same_mode-is_idp (static_key a) (unconfigured b) e = cc
same_mode-is_idp (unconfigured a) (idp b) e = cc
same_mode-is_idp (unconfigured a) (static_key b) e = cc
same_mode-is_idp (unconfigured a) (unconfigured b) e = refl

-- What fits a target fits every other with the Gateway, the team and the kind of mode.
pub Fits-same :
    (a b : Target) (key : Option MintedKey) (credential : Option CachedCredential)
    → is_idp a.mode ≡ is_idp b.mode
    → a.gateway_url ≡ b.gateway_url
    → a.team ≡ b.team
    → Fits a key credential
    → Fits b key credential
Fits-same a b none none m g t f = record { of_key = tt; of_credential = tt }
Fits-same a b none (some c) m g t f = record {
  of_key = tt;
  of_credential = ground (arith, f.of_credential);
}
Fits-same a b (some k) none m g t f = record {
  of_key = rw (← t) (ground (arith, f.of_key));
  of_credential = tt;
}
Fits-same a b (some k) (some c) m g t f = record {
  of_key = rw (← t) (ground (arith, f.of_key));
  of_credential = ground (arith, f.of_credential);
}

module _ {h : Host} where
  abbrev FitsFor : Target → Broker h → Type 0
  FitsFor target b = Fits target b.state.key b.state.credential

  -- Nothing is held for the Gateway.
  pub record Cleared (b : Broker h) : Type 0 where
    no_key : b.state.key ≡ none
    no_credential : b.state.credential ≡ none

  Cleared-FitsFor : (target : Target) (b : Broker h) → Cleared b → FitsFor target b
  Cleared-FitsFor target b c = record {
    of_key = rw c.no_key tt;
    of_credential = rw c.no_credential tt;
  }

  module _ (t : Threads h) {P : Broker h → Type 0} where
    Leads-clear_session : (clear : Bool) → Leads P (λ _. Unit) (clear_session t clear)
    unfolding clear_session modify_state pure
    Leads-clear_session true = record { at = λ b p. (tt, refl, tt) }
    Leads-clear_session false = record { at = λ b p. (tt, refl, tt) }

    Leads-take : Leads P Cleared (take_gateway_hold t)
    unfolding take_gateway_hold modify_state pure gets ◌>>=◌
    Leads-take = record { at = λ b p. (_, refl, record { no_key = refl; no_credential = refl }) }

  module _ (t : Threads h) where
    pub Leads-retire_held :
        (gateway_url : String) (key : Option MintedKey) (c : Option CachedCredential)
        → Leads Cleared Cleared (retire_held t gateway_url key c)
    unfolding retire_held outside pure ◌>>=◌
    Leads-retire_held gateway_url (some key) (some c) = record {
      at = λ b p. (tt, refl, record { no_key = p.no_key; no_credential = p.no_credential });
    }
    Leads-retire_held gateway_url (some key) none = Leads-pure tt
    Leads-retire_held gateway_url none c = Leads-pure tt

    pub Leads-forget :
        {P : Broker h → Type 0} (gateway_url : String) (clear : Bool)
        → Leads P Cleared (forget t gateway_url clear)
    unfolding forget
    Leads-forget gateway_url clear = Leads-bind _ _ (Leads-clear_session t clear) (λ _.
        Leads-bind _ _ (Leads-take t)
          (λ held. Leads-retire_held gateway_url held.key held.credential))

    Same : Target → Broker h → Type 0
    Same target b = b.target ≡ target

    Keeps-forget-Same :
        (target : Target) (gateway_url : String) (clear : Bool)
        → Keeps (Same target) (forget t gateway_url clear)
    unfolding forget Same take_gateway_hold modify_state clear_session retire_held outside
    Keeps-forget-Same target gateway_url clear = Keeps-bind _ _ (Keeps-clear clear) (λ _.
        Keeps-bind _ _
          (Keeps-bind _ _ (Keeps-gets _)
            (λ s. Keeps-bind _ _ (Keeps-modified _) (λ _. Keeps-pure _)))
          (λ held. Keeps-retire held.key held.credential))
      where
        Keeps-modified : (f : State → State) → Keeps (Same target) (modify_state {h = h} f)
        Keeps-modified f = record { at = λ b e. e }

        Keeps-clear : (clear : Bool) → Keeps (Same target) (clear_session t clear)
        Keeps-clear true = Keeps-modified _
        Keeps-clear false = Keeps-pure _

        Keeps-retire :
            (key : Option MintedKey) (c : Option CachedCredential)
            → Keeps (Same target) (retire_held t gateway_url key c)
        Keeps-retire (some key) (some c) =
            Keeps-bind _ _ (record { at = λ b e. e }) (λ _. Keeps-pure _)
        Keeps-retire (some key) none = Keeps-pure _
        Keeps-retire none c = Keeps-pure _

    pub Keeps-forget :
        (target : Target) (gateway_url : String) (clear : Bool)
        → Keeps (Fixed target) (forget t gateway_url clear)
    unfolding Same
    Keeps-forget target gateway_url clear = record {
      at = λ b f.
          let (_, _, c) = (Leads-forget {P = Fixed target} gateway_url clear).at b f in
          record {
            fits = Cleared-FitsFor target _ c;
            same = (Keeps-forget-Same target gateway_url clear).at b f.same;
          };
    }

    Leads-forget-FitsFor :
        {P : Broker h → Type 0} (next : Target) (gateway_url : String) (clear : Bool)
        → Leads P (FitsFor next) (forget t gateway_url clear)
    Leads-forget-FitsFor next gateway_url clear =
        Leads-weaken _ (Cleared-FitsFor next) (Leads-forget gateway_url clear)

    Fits-unchanged :
        (settings : RelaySettings) (current next : Target) (key : Option MintedKey)
        (c : Option CachedCredential)
        → (not (same_mode current.mode next.mode)
            || (moved t current next && not (between_environments t settings current next)))
          ≡ false
        → moved t current next ≡ false
        → not (current.team == next.team) ≡ false
        → Fits current key c
        → Fits next key c
    Fits-unchanged settings current next key c same stays team f =
        let kind : same_mode current.mode next.mode ≡ true = ground arith in
        Fits-same current next key c (same_mode-is_idp current.mode next.mode kind)
          (ground (arith, ==_iff current.gateway_url next.gateway_url))
          (ground (arith, ==_iff current.team next.team)) f

    -- What is kept is of the new settings too.
    Leads-forget_for :
        (settings : RelaySettings) (current next : Target)
        → Leads (Fixed current) (FitsFor next) (forget_for t settings current next)
    unfolding forget_for
    Leads-forget_for settings current next =
        Leads-if _ _ _ (λ _. Leads-forget-FitsFor next current.gateway_url true)
          (λ same.
            Leads-if _ _ _ (λ _. Leads-forget-FitsFor next current.gateway_url false)
              (λ stays.
                Leads-if _ _ _ (λ _. Leads-forget-FitsFor next current.gateway_url false)
                  (λ team.
                    Leads-weaken _
                      (λ b f.
                        Fits-unchanged settings current next b.state.key b.state.credential same
                          stays team f.fits)
                      (Leads-pure tt))))

    Leads-drop_proxy_token :
        (current next : Target)
        → Leads (FitsFor next) (FitsFor next) (drop_proxy_token t current next)
    unfolding drop_proxy_token modify_state
    Leads-drop_proxy_token current next =
        Leads-if _ _ _ (λ _. record { at = λ b f. (tt, refl, f) }) (λ _. Leads-pure tt)

    pub Leads-adopt :
        (current : Target) (settings : RelaySettings) (next : Target)
        → Leads (Fixed current) (Held h) (adopt t current settings next)
    unfolding adopt set_target
    Leads-adopt current settings next =
        Leads-bind _ _ (Leads-forget_for settings current next) (λ _.
          Leads-bind _ _ (Leads-drop_proxy_token current next)
            (λ _. record { at = λ b f. (tt, refl, f) }))
