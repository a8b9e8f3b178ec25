-- ===== src/Broker/Held/Proxy.antt =====
-- The bearer that the proxy puts on a request goes to its own Gateway (src/broker/mod.rs).
use litellm_relay.Common.{
  String, ℕ, ◌≡◌, refl, sym, ap, subst, Bool, true, false, Option, none, some,
  filter_option-eq-some, ltb,
}
use litellm_relay.Common.Action.{Result, ok, err, pure, fail, gets, ◌>>=◌}
use litellm_relay.Common.Action.Outcomes.{Ensures, Ensures-bind, Ensures-then}
use litellm_relay.Broker.Types.{
  non_interactive, Refusal, ProxyBearer, Target, MintedKey, State, static_key,
}
use litellm_relay.AiTools.Token.{CachedSession}
use litellm_relay.AiTools.Credential.Types.{CachedCredential}
use litellm_relay.Broker.Host.{Host, Broker, Threads, modify_state, free, read_state}
use litellm_relay.Broker.Issue.{live_key, issue_under_renewal_lock}
use litellm_relay.Broker.Serve.{proxy_bearer_held, bearer_for_known, bearer_for_proxy}
use litellm_relay.Broker.Held.{KeyFor, CredentialFor, Fits, Held, Fixed, Held-outside, free-Held}
use litellm_relay.Broker.Held.Origin.{
  Origin, of_key, of_credential, of_session, of_settings, IssuedFrom,
}
use litellm_relay.Broker.Held.Issued.{issued-From}
use litellm_relay.Broker.Held.Refreshing.{Held-refresh}
use litellm_relay.Broker.Held.Issuing.{Keeps-issue_under_renewal_lock, Held-read_state}

-- The token belongs to the Gateway of this target: it is that of the held key, where the key is of that
-- Gateway, or of the held credential, where that is of that Gateway, or the target's own static key. Or it
-- is the raw identity token of the held session, which is of no Gateway.
pub data Backed (target : Target) (token : String) (s : State) : Type 0 where
  by_key :
      (key : MintedKey)
      → s.key ≡ some key
      → key.token ≡ token
      → key.gateway_url ≡ target.gateway_url
      → Backed target token s
  by_credential :
      (c : CachedCredential)
      → s.credential ≡ some c
      → c.access_token ≡ token
      → c.gateway_url ≡ target.gateway_url
      → Backed target token s
  by_settings : target.mode ≡ static_key token → Backed target token s
  by_session :
      (session : CachedSession)
      → s.session ≡ some session
      → session.token ≡ token
      → Backed target token s

Origin-Backed :
    (target : Target) (token : String) (s : State)
    → Fits target s.key s.credential
    → Origin target token s
    → Backed target token s
Origin-Backed target token s v (of_key key e same) =
    let of : KeyFor target (some key) = subst (KeyFor target) e v.of_key in by_key key e same of.0
Origin-Backed target token s v (of_credential c e same) =
    let of : CredentialFor target (some c) = subst (CredentialFor target) e v.of_credential in
    by_credential c e same of.0
Origin-Backed target token s v (of_session session e same) = by_session session e same
Origin-Backed target token s v (of_settings e) = by_settings e

module _ {h : Host} where
  -- The bearer is for the Gateway of the settings in force, and its token belongs to that Gateway.
  abbrev pub ForGateway : Result Refusal ProxyBearer → Broker h → Type 0
  ForGateway (ok bearer) b =
      (bearer.gateway_url ≡ b.target.gateway_url) × Backed b.target bearer.token b.state
  ForGateway (err refusal) b = Unit

  module _ (t : Threads h) (others : (b : Broker h) → Held h b → Held h (t.free b)) where
    proxy_target-ForGateway :
        (target : Target)
        → Ensures
            (Fixed target)
            (issue_under_renewal_lock t target non_interactive >>= λ issued.
              pure (record { token = issued.token; gateway_url = target.gateway_url }))
            ForGateway
    unfolding pure
    proxy_target-ForGateway target =
        Ensures-then {Mid = λ r b. Fixed target b × IssuedFrom t target r b} _ _
          (record {
            at = λ b f. (
              (Keeps-issue_under_renewal_lock t target non_interactive).at b f,
              (issued-From t target).at b tt,
            );
          })
          (λ e b. tt)
          (λ issued. record {
            at = λ b (f, o). (
              ap (λ (x : Target). x.gateway_url) (sym f.same),
              subst (λ target. Backed target issued.token b.state) (sym f.same)
                  (Origin-Backed target issued.token b.state f.fits o),
            );
          })

    key_bearer-ForGateway :
        (now : ℕ) (b : Broker h) (found : Option MintedKey)
        → Held h b
        → live_key b.state now ≡ found
        → ForGateway (proxy_bearer_held t found b).0 (proxy_bearer_held t found b).1
    unfolding proxy_bearer_held modify_state ◌>>=◌ pure free gets
    key_bearer-ForGateway now b none v e =
        (proxy_target-ForGateway (t.free b).target).at (t.free b)
          (record { fits = others b v; same = refl })
    key_bearer-ForGateway now b (some key) v e =
        let (held, _) =
          filter_option-eq-some (λ (key : MintedKey). ltb now key.expires_at) b.state.key key e in
        let of : KeyFor b.target (some key) = subst (KeyFor b.target) held v.of_key in
        (of.0, by_key key held refl of.0)

    Ensures-read :
        (now : ℕ)
        → Ensures (Held h) (read_state t >>= λ s. proxy_bearer_held t (live_key s now)) ForGateway
    unfolding read_state free gets ◌>>=◌
    Ensures-read now = record {
      at = λ b v. key_bearer-ForGateway now (t.free b) _ (others b v) refl;
    }

    known-ForGateway : (known : Bool) → Ensures (Held h) (bearer_for_known t known) ForGateway
    unfolding bearer_for_known fail
    known-ForGateway false = record { at = λ b v. tt }
    known-ForGateway true = Ensures-bind _ _ (Held-outside t h.now) (λ e b. tt) Ensures-read

-- If the other threads keep what is held true to the settings, a bearer that the proxy is given is for the
-- Gateway of the settings in force when it is given, and its token is that of the key or of the credential
-- held for that Gateway, the static key of the settings, or the raw identity token of the held session: the
-- token of a key or a credential of one Gateway is never paired with the address of another.
pub bearer_for_proxy-ForGateway :
    {h : Host} (t : Threads h)
    → ((b : Broker h) → Held h b → Held h (t.free b))
    → (presented : String) (b : Broker h) → Held h b
    → ForGateway (bearer_for_proxy t presented b).0 (bearer_for_proxy t presented b).1
unfolding bearer_for_proxy
bearer_for_proxy-ForGateway {h} t others presented b v =
    (Ensures-bind {Post = ForGateway} _ _ (Held-refresh t (free-Held t others)) (λ e b. tt)
        (λ _.
          Ensures-bind _ _ (Held-read_state t (free-Held t others)) (λ e b. tt)
            (λ s. known-ForGateway t others _))).at
      b v
