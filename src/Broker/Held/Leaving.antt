-- ===== src/Broker/Held/Leaving.antt =====
-- What is left after signing out, and after a switch that failed (src/broker/mod.rs).
use litellm_relay.Common.{String, ◌≡◌, refl, true, Bool-cases, inl, inr, Option, none, some}
use litellm_relay.Common.Action.{Result, ok, err, pure, fail, gets, ◌>>=◌}
use litellm_relay.Common.Action.Outcomes.{Ensures, Ensures-bind, bind-after}
use litellm_relay.AiTools.Credential.Types.{CachedCredential}
use litellm_relay.Broker.Types.{Refusal, Reply, Target, MintedKey}
use litellm_relay.Broker.Host.{Host, Broker, Threads, modify_state, outside}
use litellm_relay.Broker.Hold.{clear_session, take_gateway_hold, retire_held, forget}
use litellm_relay.Broker.Serve.{is_static, sign_out_of, sign_out}

module _ {h : Host} where
  -- Nothing of a session is left.
  pub record SignedOut (b : Broker h) : Type 0 where
    pub no_session : b.state.session ≡ none
    pub no_key : b.state.key ≡ none
    pub no_credential : b.state.credential ≡ none

  abbrev pub LeftBy : Result Refusal Reply → Broker h → Type 0
  LeftBy (ok reply) b = SignedOut b
  LeftBy (err refusal) b = Unit

  SignedOut-retire_held :
      (t : Threads h) (gateway_url : String) (key : Option MintedKey) (c : Option CachedCredential)
      (b : Broker h)
      → SignedOut b
      → SignedOut (retire_held t gateway_url key c b).1
  unfolding retire_held outside pure ◌>>=◌
  SignedOut-retire_held t gateway_url (some key) (some c) b v = record {
    no_session = v.no_session;
    no_key = v.no_key;
    no_credential = v.no_credential;
  }
  SignedOut-retire_held t gateway_url (some key) none b v = v
  SignedOut-retire_held t gateway_url none c b v = v

  SignedOut-forget :
      (t : Threads h) (gateway_url : String) (b : Broker h)
      → SignedOut (forget t gateway_url true b).1
  unfolding forget clear_session take_gateway_hold modify_state gets pure ◌>>=◌
  SignedOut-forget t gateway_url b =
      SignedOut-retire_held t gateway_url b.state.key b.state.credential _
        (record { no_session = refl; no_key = refl; no_credential = refl })

  SignedOut-LeftBy : (r : Result Refusal Reply) (b : Broker h) → SignedOut b → LeftBy r b
  SignedOut-LeftBy (ok reply) b v = v
  SignedOut-LeftBy (err refusal) b v = tt

  module _ (t : Threads h) where
    forgotten-SignedOut :
        (gateway_url : String) (b : Broker h)
        → SignedOut
            ((forget t gateway_url true >>= λ _. pure {S = Broker h} {E = Refusal} Reply.signed_out)
              b).1
    unfolding pure
    forgotten-SignedOut gateway_url b =
        bind-after {Q = SignedOut} {P = λ _. Unit} (forget t gateway_url true)
          (λ _. pure Reply.signed_out) (λ b v. SignedOut-forget t gateway_url b)
          (λ _. record { at = λ b v. v }) b tt

    sign_out_of-LeftBy : (target : Target) → Ensures (λ _. Unit) (sign_out_of t target) LeftBy
    unfolding sign_out_of fail pure
    sign_out_of-LeftBy target = elim (Bool-cases (is_static target.mode)) [
      | inl e ↦ rw e (record { at = λ b v. tt })
      | inr e ↦
          rw e
            (record { at = λ b v. SignedOut-LeftBy _ _ (forgotten-SignedOut target.gateway_url b) })
    ]

-- Whatever the settings, the Gateway and other threads do, a broker that answers that it signed out holds no
-- session, no key and no credential when it answers.
pub sign_out-SignedOut :
    {h : Host} (t : Threads h) (b : Broker h) → LeftBy (sign_out t b).0 (sign_out t b).1
unfolding sign_out
sign_out-SignedOut {h} t b =
    (Ensures-bind {P = λ _. Unit} {Post = LeftBy} _ _ (record { at = λ b v. tt }) (λ e b. tt)
        (λ _.
          Ensures-bind _ _ (record { at = λ b v. tt }) (λ e b. tt)
            (λ _.
              Ensures-bind _ _ (record { at = λ b v. tt }) (λ e b. tt) (sign_out_of-LeftBy t)))).at
      b tt
