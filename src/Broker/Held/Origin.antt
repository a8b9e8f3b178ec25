-- ===== src/Broker/Held/Origin.antt =====
-- Where the token of a bearer that is issued under the renewal lock comes from (src/broker/mod.rs).
use litellm_relay.Common.{
  String, ℕ, ◌≡◌, refl, sym, ◌∙◌, arith, map_option, Option, none, some, filter_option-eq-some, ltb,
}
use litellm_relay.Common.Action.{Result, ok, err, pure, fail, lift, gets, ◌>>=◌, Keeps}
use litellm_relay.Common.Action.Outcomes.{Ensures, Ensures-bind, Ensures-then}
use litellm_relay.AiTools.Idp.{IdpSection}
use litellm_relay.AiTools.Token.{Failure, Advanced, reused, renewed, CachedSession}
use litellm_relay.AiTools.Token.Reusing.{HasToken, ReusedFrom, advance-ReusedFrom}
use litellm_relay.AiTools.Credential.Types.{CachedCredential, Error, Resolved}
use litellm_relay.Broker.Types.{
  Context, sign_in_of, Issued, Refusal, Target, MintedKey, State, StickyRefusal, Bearer, static_key,
  MintOutcome, minted, refused, MintRefusal, team_permission, unauthorized, KeyOutcome, dead_bearer,
}
use litellm_relay.Broker.Host.{Host, Broker, Threads, Act, modify_state, outside}
use litellm_relay.Broker.Bearers.{
  Renewing, with_session, established, identity_token, identity, expiry_of, from_identity,
  keep_resolved, session_credential, keep_minted, mint_unless_refused, sticky, key_for,
}
use litellm_relay.Broker.Issue.{issued_key, live_key, serve}

-- The token is that of the held key, of the held credential, of the held session, or the static key of
-- the target's settings.
pub data Origin (target : Target) (token : String) (s : State) : Type 0 where
  of_key : (key : MintedKey) → s.key ≡ some key → key.token ≡ token → Origin target token s
  of_credential :
      (c : CachedCredential)
      → s.credential ≡ some c
      → c.access_token ≡ token
      → Origin target token s
  of_session :
      (session : CachedSession)
      → s.session ≡ some session
      → session.token ≡ token
      → Origin target token s
  of_settings : target.mode ≡ static_key token → Origin target token s

module _ {h : Host} (t : Threads h) (target : Target) where
  abbrev pub Any : Broker h → Type 0
  Any b = Unit

  abbrev pub IssuedFrom : Result Refusal Issued → Broker h → Type 0
  IssuedFrom (ok issued) b = Origin target issued.token b.state
  IssuedFrom (err refusal) b = Unit

  abbrev pub OutcomeFrom : Result Refusal KeyOutcome → Broker h → Type 0
  OutcomeFrom (ok (KeyOutcome.issued issued)) b = Origin target issued.token b.state
  OutcomeFrom (ok dead_bearer) b = Unit
  OutcomeFrom (err refusal) b = Unit

  abbrev pub BearerFrom : Result Refusal Bearer → Broker h → Type 0
  BearerFrom (ok (Bearer.credential c)) b = b.state.credential ≡ some c
  BearerFrom (ok (Bearer.identity_token token expires_at)) b = HasToken token b.state.session
  BearerFrom (err refusal) b = Unit

  abbrev HasCredential : CachedCredential → Broker h → Type 0
  HasCredential c b = b.state.credential ≡ some c

  pub any : {A : Type 0} {m : Act h A} → Keeps Any m
  any = record { at = λ b _. tt }

  pub fresh_key-Origin :
      (now : ℕ) (s : State) (found : Option MintedKey) (issued : Issued)
      → live_key s now ≡ found
      → map_option issued_key found ≡ some issued
      → Origin target issued.token s
  fresh_key-Origin now s none issued e m = absurd (ground arith)
  fresh_key-Origin now s (some key) issued e m =
      let (held, _) =
        filter_option-eq-some (λ (key : MintedKey). ltb now key.expires_at) s.key key e in
      of_key key held (ground arith)

  Origin-served :
      (token : String) (s t : State)
      → s.key ≡ t.key
      → s.credential ≡ t.credential
      → s.session ≡ t.session
      → Origin target token s
      → Origin target token t
  Origin-served token s t k c x (of_key key e same) = of_key key (sym k ∙ e) same
  Origin-served token s t k c x (of_credential held e same) = of_credential held (sym c ∙ e) same
  Origin-served token s t k c x (of_session held e same) = of_session held (sym x ∙ e) same
  Origin-served token s t k c x (of_settings e) = of_settings e

  pub serve-From :
      (issued : Issued)
      → Ensures (λ (b : Broker h). Origin target issued.token b.state) (serve t issued) IssuedFrom
  unfolding serve modify_state ◌>>=◌ pure
  serve-From issued = record { at = λ b o. Origin-served issued.token b.state _ refl refl refl o }

  keep_minted-From :
      (team : String) (c : CachedCredential) (now : ℕ) (r : Result String MintOutcome)
      → Ensures (HasCredential c) (keep_minted t target team c now r) OutcomeFrom
  unfolding keep_minted modify_state ◌>>=◌ pure
  keep_minted-From team c now (ok (minted m)) = record { at = λ b e. of_key _ refl refl }
  keep_minted-From team c now (ok (refused unauthorized)) = record { at = λ b e. tt }
  keep_minted-From team c now (ok (refused team_permission)) = record {
    at = λ b e. of_credential c e refl;
  }
  keep_minted-From team c now (ok (refused MintRefusal.other)) = record {
    at = λ b e. of_credential c e refl;
  }
  keep_minted-From team c now (err message) = record { at = λ b e. of_credential c e refl }

  mint_unless_refused-From :
      (team : String) (c : CachedCredential) (now : ℕ) (refusal : Option StickyRefusal)
      → Ensures (HasCredential c) (mint_unless_refused t target team c now refusal) OutcomeFrom
  unfolding mint_unless_refused outside pure
  mint_unless_refused-From team c now (some refusal) = record { at = λ b e. of_credential c e refl }
  mint_unless_refused-From team c now none =
      Ensures-bind _ _ (record { at = λ b e. e }) (λ e b. tt) (keep_minted-From team c now)

  pub key_for-From :
      (team : Option String) (c : CachedCredential) (now : ℕ)
      → Ensures (HasCredential c) (key_for t target team c now) OutcomeFrom
  unfolding key_for pure gets
  key_for-From none c now = record { at = λ b e. of_credential c e refl }
  key_for-From (some team) c now =
      Ensures-bind _ _ (record { at = λ b e. e }) (λ e b. tt)
        (λ s. mint_unless_refused-From team c now (sticky t c s))

  -- The identity token that is given is that of the session that is kept.
  abbrev TokenFrom : Result Failure String → Option CachedSession → Type 0
  TokenFrom (ok token) session = HasToken token session
  TokenFrom (err e) session = Unit

  established-TokenFrom :
      (a : Result Failure Advanced) (r : Renewing h)
      → ReusedFrom r.session a
      → TokenFrom (established t a r).0 (established t a r).1.session
  established-TokenFrom (ok (reused token)) r k = k
  established-TokenFrom (ok (renewed session)) r k = (session, refl, refl)
  established-TokenFrom (err e) r k = tt

  abbrev IdentityFrom :
      Result Refusal (Result Failure String × Option CachedSession) → Broker h → Type 0
  IdentityFrom (ok (token, session)) b = TokenFrom token session
  IdentityFrom (err refusal) b = Unit

  module _ (section : IdpSection) (context : Context) where
    identity-From :
        (now : ℕ) (session : Option CachedSession)
        → Ensures Any (identity t section context now session) IdentityFrom
    unfolding identity identity_token
    identity-From now session = record {
      at = λ b _.
          established-TokenFrom _ _
            (advance-ReusedFrom h.device section session now (sign_in_of context) b.env);
    }

    kept_identity-From :
        (token : Result Failure String) (session : Option CachedSession) (now : ℕ)
        → TokenFrom token session
        → Ensures Any
            (modify_state (with_session session) >>= λ _.
              lift (from_identity t token (expiry_of t session now)))
            BearerFrom
    unfolding modify_state lift ◌>>=◌
    kept_identity-From (ok token) session now k = record { at = λ b _. k }
    kept_identity-From (err e) session now k = record { at = λ b _. tt }

    keep_resolved-From :
        (now : ℕ) (r : Result Error Resolved) (session : Option CachedSession)
        → Ensures Any (keep_resolved t section context now r session) BearerFrom
    unfolding keep_resolved modify_state pure fail ◌>>=◌
    keep_resolved-From now (ok (Resolved.issued c changed)) session = record { at = λ b _. refl }
    keep_resolved-From now (ok Resolved.unsupported) session =
        Ensures-then {Mid = IdentityFrom} _ _ (identity-From now session) (λ e b. tt)
          (λ x. record { at = λ b from. (kept_identity-From x.0 x.1 now from).at b tt })
    keep_resolved-From now (err e) session = record { at = λ b _. tt }

    pub session_credential-From :
        (now : ℕ) → Ensures Any (session_credential t target section context now) BearerFrom
    unfolding session_credential
    session_credential-From now =
        Ensures-bind _ _ any (λ e b. tt)
          (λ s. Ensures-bind _ _ any (λ e b. tt) (λ x. keep_resolved-From now x.0 x.1))
