-- ===== src/Broker/Held.antt =====
-- What the broker holds belongs to the Gateway and the team that its settings name (src/broker/mod.rs).
pub mod Settings
pub mod Refreshing
pub mod Succeeding
pub mod Bearing
pub mod Answering
pub mod Issuing
pub mod Serving
pub mod Switching
pub mod Origin
pub mod Issued
pub mod Proxy
pub mod Leaving
pub mod Undoing
use litellm_relay.Common.{
  String, ℕ, ◌≡◌, refl, Bool, true, false, Option, none, some, is_some, arith,
}
use litellm_relay.Common.Action.{Result, ok, err, Action, Keeps, gets, ◌>>=◌}
use litellm_relay.Common.Action.Outcomes.{Leads}
use litellm_relay.AiTools.Credential.Types.{CachedCredential}
use litellm_relay.Broker.Types.{Target, MintedKey, State, GatewayHold, is_idp}
use litellm_relay.Broker.Host.{
  Host, Broker, Threads, Act, modify_state, current_target, current_state, free, outside, locally,
  on_state, set_target,
}

-- A key is of the target's Gateway, and only an IdP and a team have one.
abbrev pub KeyFor : Target → Option MintedKey → Type 0
KeyFor target none = Unit
KeyFor target (some key) =
    (key.gateway_url ≡ target.gateway_url)
    × (is_idp target.mode ≡ true)
    × (is_some target.team ≡ true)

abbrev pub CredentialFor : Target → Option CachedCredential → Type 0
CredentialFor target none = Unit
CredentialFor target (some c) =
    (c.gateway_url ≡ target.gateway_url) × (c.team ≡ target.team) × (is_idp target.mode ≡ true)

-- The key and the credential fit a target.
pub record Fits (target : Target) (key : Option MintedKey) (credential : Option CachedCredential)
    : Type 0 where
  pub of_key : KeyFor target key
  pub of_credential : CredentialFor target credential

abbrev pub Held : (h : Host) → Broker h → Type 0
Held h b = Fits b.target b.state.key b.state.credential

module _ {h : Host} where
  -- The broker has this target, and what it holds fits it.
  pub record Fixed (target : Target) (b : Broker h) : Type 0 where
    pub fits : Fits target b.state.key b.state.credential
    pub same : b.target ≡ target

  pub Fixed-Held : (target : Target) (b : Broker h) → Fixed target b → Held h b
  Fixed-Held target b f = rw f.same f.fits

  module _ {A : Type 0} where
    -- Under the renewal lock the target that was read stays.
    pub Keeps-with_target :
        (k : Target → Act h A)
        → ((target : Target) (b : Broker h) → Fixed target b → Held h (k target b).1)
        → Keeps (Held h) (current_target >>= k)
    unfolding ◌>>=◌ gets
    Keeps-with_target k f = record { at = λ b v. f b.target b (record { fits = v; same = refl }) }

    pub Keeps-Fixed :
        (k : Target → Act h A)
        → ((target : Target) → Keeps (Fixed target) (k target))
        → Keeps (Held h) (current_target >>= k)
    Keeps-Fixed k f =
        Keeps-with_target k (λ target b v. Fixed-Held target (k target b).1 ((f target).at b v))

  -- What was read of the state fits the target too.
  pub Keeps-with_state :
      {A : Type 0} (target : Target) (k : State → Act h A)
      → ((s : State) → Fits target s.key s.credential → Keeps (Fixed target) (k s))
      → Keeps (Fixed target) (current_state >>= k)
  unfolding ◌>>=◌ gets
  Keeps-with_state target k f = record { at = λ b v. (f b.state v.fits).at b v }

  pub Keeps-modify_state :
      (target : Target) (f : State → State)
      → ((s : State) → Fits target s.key s.credential → Fits target (f s).key (f s).credential)
      → Keeps (Fixed target) (modify_state {h = h} f)
  unfolding modify_state
  Keeps-modify_state target f k = record {
    at = λ b v. record { fits = k b.state v.fits; same = v.same };
  }

  pub Held-modify_state :
      (f : State → State)
      → ((target : Target) (s : State)
          → Fits target s.key s.credential
          → Fits target (f s).key (f s).credential)
      → Keeps (Held h) (modify_state {h = h} f)
  unfolding modify_state
  Held-modify_state f k = record { at = λ b v. k b.target b.state v }

  module _ (t : Threads h) {A : Type 0} where
    pub Keeps-outside :
        (target : Target) (f : h.device.World → A × h.device.World)
        → Keeps (Fixed target) (outside t f)
    unfolding outside
    Keeps-outside target f = record { at = λ b v. record { fits = v.fits; same = v.same } }

    pub Held-outside : (f : h.device.World → A × h.device.World) → Keeps (Held h) (outside t f)
    unfolding outside
    Held-outside f = record { at = λ b v. v }

  pub Held-locally :
      {A : Type 0} (f : h.device.World → A × h.device.World) → Keeps (Held h) (locally {h = h} f)
  unfolding locally
  Held-locally f = record { at = λ b v. v }

  pub free-Held :
      (t : Threads h) → ((b : Broker h) → Held h b → Held h (t.free b)) → Keeps (Held h) (free t)
  unfolding free
  free-Held t others = record { at = others }
