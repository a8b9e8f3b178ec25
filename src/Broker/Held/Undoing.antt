-- ===== src/Broker/Held/Undoing.antt =====
-- A switch that fails gives back what was held (`apply_switch` in src/broker/mod.rs).
use litellm_relay.Common.{
  String, ◌≡◌, refl, sym, subst, false, Bool-cases, inl, inr, ◌⊎◌, Option, none, some,
}
use litellm_relay.Common.Action.{Result, ok, err, pure, fail, gets, ◌>>=◌}
use litellm_relay.Common.Action.Outcomes.{Ensures, Ensures-after, bind-after}
use litellm_relay.AiTools.Credential.Types.{CachedCredential}
use litellm_relay.Config.Settings.{RelaySettings}
use litellm_relay.Broker.Types.{
  Refusal, Reply, Target, MintedKey, GatewayPatch, GatewayHold, Issued,
}
use litellm_relay.Broker.Host.{Host, Broker, Threads, modify_state, current_target, free, outside}
use litellm_relay.Broker.Hold.{take_gateway_hold, restore_gateway_hold, retire_held, hold_of}
use litellm_relay.Broker.Switch.{
  same_gateway, give_back, undo_switch, complete_switch, finish_switch, switch_stored, switch_from,
  store_and_switch, apply_switch,
}
use litellm_relay.Broker.Held.Succeeding.{
  Any, Succeeds-outside, Succeeds-gets, Succeeds-attempt, Succeeds-apply_saved_settings,
  Succeeds-complete_switch,
}

module _ {h : Host} where
  -- What a switch that failed leaves: the settings in force are of another mode, Gateway or team than before,
  -- or the broker holds what it held.
  abbrev pub GaveBack : Target → GatewayHold → Broker h → Type 0
  GaveBack before held b =
      (same_gateway b.target before ≡ false)
      ⊎ ((b.state.key ≡ held.key)
          × (b.state.credential ≡ held.credential)
          × (b.state.mint_refusal ≡ held.mint_refusal))

  abbrev pub Undone : Target → GatewayHold → Result Refusal Reply → Broker h → Type 0
  Undone before held (ok reply) b = Unit
  Undone before held (err refusal) b = GaveBack before held b

  GaveBack-Undone :
      (before : Target) (held : GatewayHold) (r : Result Refusal Reply) (b : Broker h)
      → GaveBack before held b
      → Undone before held r b
  GaveBack-Undone before held (ok reply) b v = tt
  GaveBack-Undone before held (err refusal) b v = v

  retire_held-target :
      (t : Threads h) (gateway_url : String) (key : Option MintedKey) (c : Option CachedCredential)
      (b : Broker h)
      → (retire_held t gateway_url key c b).1.target ≡ b.target
  unfolding retire_held outside pure ◌>>=◌
  retire_held-target t gateway_url (some key) (some c) b = refl
  retire_held-target t gateway_url (some key) none b = refl
  retire_held-target t gateway_url none c b = refl

  module _ (t : Threads h) (before : Target) (held : GatewayHold) where
    give_back-GaveBack :
        (b : Broker h) → GaveBack before held (give_back t before b.target held b).1
    unfolding give_back restore_gateway_hold modify_state
    give_back-GaveBack b = elim (Bool-cases (same_gateway b.target before)) [
      | inl e ↦ rw e (inr (refl, refl, refl))
      | inr e ↦ rw e (
          inl (
            subst (λ x. same_gateway x before ≡ false)
              (sym (retire_held-target t before.gateway_url held.key held.credential b)) e))
    ]

    give_back-Undone :
        (refusal : Refusal) (back : Target)
        → Ensures
            (λ b. b.target ≡ back)
            (give_back t before back held >>= λ _. fail {A = Reply} refusal)
            (Undone before held)
    unfolding fail
    give_back-Undone refusal back = record {
      at = λ b p. GaveBack-Undone before held _ _ (
          bind-after {Q = GaveBack before held} {P = λ b. b.target ≡ back}
            (give_back t before back held) (λ _. fail {A = Reply} refusal)
            (λ b p.
              subst (λ back. GaveBack before held (give_back t before back held b).1) p
                (give_back-GaveBack b))
            (λ _. record { at = λ b v. v }) b p);
    }

    read_back-Undone :
        (refusal : Refusal)
        → Ensures Any
            (current_target >>= λ back.
              give_back t before back held >>= λ _. fail {A = Reply} refusal)
            (Undone before held)
    unfolding gets ◌>>=◌
    read_back-Undone refusal = record { at = λ b v. (give_back-Undone refusal b.target).at b refl }

    undo_switch-Undone :
        (settings : RelaySettings) (previous : GatewayPatch) (refusal : Refusal)
        → Ensures Any (undo_switch t settings previous before held refusal) (Undone before held)
    unfolding undo_switch
    undo_switch-Undone settings previous refusal =
        Ensures-after _ _ (Succeeds-outside t h.load) (λ loaded.
          Ensures-after _ _ (Succeeds-outside t _)
            (λ _. Ensures-after _ _ (Succeeds-apply_saved_settings t) (λ _. read_back-Undone _)))

    finish_switch-Undone :
        (settings : RelaySettings) (previous : GatewayPatch) (r : Result Refusal Issued)
        → Ensures Any (finish_switch t settings previous before held r) (Undone before held)
    unfolding finish_switch
    finish_switch-Undone settings previous (ok issued) = record {
      at = λ b v.
          let (a, e, _) = (Succeeds-complete_switch t before held).at b tt in
          subst (λ r. Undone before held r (complete_switch t before held b).1) (sym e) tt;
    }
    finish_switch-Undone settings previous (err refusal) =
        undo_switch-Undone settings previous refusal

    switch_stored-Undone :
        (settings : RelaySettings) (previous : GatewayPatch)
        → Ensures Any (switch_stored t settings previous before held) (Undone before held)
    unfolding switch_stored
    switch_stored-Undone settings previous =
        Ensures-after _ _ (Succeeds-apply_saved_settings t) (λ _.
          Ensures-after _ _ (Succeeds-gets t _) (λ target.
            Ensures-after _ _ (Succeeds-attempt t _)
              (λ r. finish_switch-Undone settings previous r)))

  module _ (t : Threads h) where
    store_and_switch-Undone :
        (settings : RelaySettings) (previous : GatewayPatch) (r : Result String (Unit {0}))
        (b : Broker h)
        → Undone b.target
            (hold_of b.state)
            (store_and_switch t settings previous r b).0
            (store_and_switch t settings previous r b).1
    unfolding store_and_switch switch_from take_gateway_hold fail modify_state gets pure ◌>>=◌
    store_and_switch-Undone settings previous (err e) b = inr (refl, refl, refl)
    store_and_switch-Undone settings previous (ok _) b =
        (switch_stored-Undone t b.target (hold_of b.state) settings previous).at
          (take_gateway_hold t b).1 tt

-- Whatever other threads did while a switch waited for the renewal lock, a switch that fails leaves the
-- broker with the key, the credential and the sticky refusal that it held when the lock was taken, unless the
-- settings then in force are of another mode, Gateway or team than those in force when it was taken.
pub apply_switch-Undone :
    {h : Host} (t : Threads h) (settings : RelaySettings) (next previous : GatewayPatch)
    (b : Broker h)
    → Undone
        (t.free b).target
        (hold_of (t.free b).state)
        (apply_switch t settings next previous b).0
        (apply_switch t settings next previous b).1
unfolding apply_switch free outside ◌>>=◌
apply_switch-Undone t settings next previous b = store_and_switch-Undone t settings previous _ _
