-- ===== src/Broker/Held/Bearing.antt =====
-- The bearer that is renewed under the lock, and the key minted with it, are of the settings' Gateway and
-- team (src/broker/mod.rs).
use litellm_relay.Common.{String, ℕ, ◌≡◌, refl, true, false, Option, none, some, List, string_eq}
use litellm_relay.Common.Action.{
  Result, ok, err, Action, Keeps, Keeps-pure, Keeps-fail, Keeps-lift, Keeps-bind, Keeps-gets,
}
use litellm_relay.Common.Action.Outcomes.{
  Yields, Yields-pure, Yields-fail, Yields-lift, Yields-bind, Yields-bind-Yields, Keeps-bind-Yields,
}
use litellm_relay.AiTools.Idp.{IdpSection}
use litellm_relay.AiTools.Token.{Failure, Advanced, reused, renewed, SignIn, CachedSession}
use litellm_relay.AiTools.Credential.Types.{CachedCredential, Error, Resolved}
use litellm_relay.AiTools.Credential.Keeping.{resolve-Keeps}
use litellm_relay.AiTools.Credential.Resolved.{Answer, IsFor, resolve-Answer}
use litellm_relay.Broker.Types.{
  Context, sign_in_of, Refusal, Target, State, StickyRefusal, Bearer, is_idp, MintOutcome, minted,
  refused, MintRefusal, team_permission, unauthorized,
}
use litellm_relay.Broker.Host.{Host, Threads}
use litellm_relay.Broker.Bearers.{
  Renewing, calling, gateway, established, identity_token, request_of, resolve_on, store_of,
  resolved, identity, from_identity, keep_resolved, session_credential, with_session,
  with_credential, minted_key, keep_minted, mint_unless_refused, key_for, key_or_credential,
  with_key,
}
use litellm_relay.Broker.Held.{CredentialFor, Fixed, Keeps-modify_state, Keeps-outside}

module _ {h : Host} (t : Threads h) (target : Target) where
  -- The broker inside a renewal.
  abbrev FixedIn : Renewing h → Type 0
  FixedIn r = Fixed target r.broker

  Keeps-calling : {A : Type 0} (m : Action h.device.World Error A) → Keeps FixedIn (calling t m)
  unfolding calling
  Keeps-calling m = record { at = λ r v. record { fits = v.fits; same = v.same } }

  Keeps-established :
      (a : Result Failure Advanced) (r : Renewing h) → FixedIn r → FixedIn (established t a r).1
  Keeps-established (ok (reused token)) r v = v
  Keeps-established (ok (renewed session)) r v = v
  Keeps-established (err e) r v = v

  Keeps-identity_token :
      (idp : IdpSection) (now : ℕ) (sign_in : SignIn)
      → Keeps FixedIn (identity_token t idp now sign_in)
  unfolding identity_token
  Keeps-identity_token idp now sign_in = record {
    at = λ r v. Keeps-established _ _ (record { fits = v.fits; same = v.same });
  }

  Keeps-resolve_on :
      (idp : IdpSection) (context : Context) (now : ℕ) (c : Option CachedCredential)
      → Keeps FixedIn (resolve_on t target idp context now c)
  Keeps-resolve_on idp context now c =
      resolve-Keeps (gateway t) (identity_token t idp now (sign_in_of context))
        (λ url. Keeps-calling _) (λ endpoint. Keeps-calling _) (λ document grant. Keeps-calling _)
        (Keeps-identity_token idp now (sign_in_of context)) (store_of c) (request_of t target) now

  Keeps-resolved :
      (idp : IdpSection) (context : Context) (now : ℕ) (s : State)
      → Keeps (Fixed target) (resolved t target idp context now s)
  unfolding resolved
  Keeps-resolved idp context now s = record {
    at = λ b v.
        (Keeps-resolve_on idp context now s.credential).at
          (record { broker = b; session = s.session }) v;
  }

  Keeps-identity :
      (idp : IdpSection) (context : Context) (now : ℕ) (session : Option CachedSession)
      → Keeps (Fixed target) (identity t idp context now session)
  unfolding identity
  Keeps-identity idp context now session = record {
    at = λ b v.
        (Keeps-identity_token idp now (sign_in_of context)).at
          (record { broker = b; session = session }) v;
  }

  -- A credential that was resolved is of the target's Gateway and team.
  abbrev IssuedFor : Result Error Resolved → Type 0
  IssuedFor (ok (Resolved.issued c changed)) = IsFor c (request_of t target)
  IssuedFor (ok Resolved.unsupported) = Unit
  IssuedFor (err e) = Unit

  Answer-IssuedFor :
      (store : List CachedCredential) (now : ℕ) (r : Result Error Resolved)
      → Answer (gateway t) store (request_of t target) now r
      → IssuedFor r
  Answer-IssuedFor store now (ok (Resolved.issued c true)) a = a.1
  Answer-IssuedFor store now (ok (Resolved.issued c false)) a = a.1
  Answer-IssuedFor store now (ok Resolved.unsupported) a = tt
  Answer-IssuedFor store now (err e) a = tt

  abbrev ResolvedFor : Result Refusal (Result Error Resolved × Option CachedSession) → Type 0
  ResolvedFor (ok (r, session)) = IssuedFor r
  ResolvedFor (err e) = Unit

  Yields-resolved :
      (idp : IdpSection) (context : Context) (now : ℕ) (s : State)
      → Yields ResolvedFor (resolved t target idp context now s)
  unfolding resolved
  Yields-resolved idp context now s = record {
    result = λ b. Answer-IssuedFor (store_of s.credential) now _ (
        resolve-Answer (gateway t) (identity_token t idp now (sign_in_of context))
          (store_of s.credential) (request_of t target) now
          (record { broker = b; session = s.session }));
  }

  -- A credential that is given as the bearer fits the target.
  abbrev pub BearerFor : Result Refusal Bearer → Type 0
  BearerFor (ok (Bearer.credential c)) = CredentialFor target (some c)
  BearerFor (ok (Bearer.identity_token token expires_at)) = Unit
  BearerFor (err refusal) = Unit

  module _ (mode : is_idp target.mode ≡ true) (idp : IdpSection) (context : Context) (now : ℕ) where
    Keeps-keep_resolved :
        (r : Result Error Resolved) (session : Option CachedSession)
        → IssuedFor r
        → Keeps (Fixed target) (keep_resolved t idp context now r session)
    unfolding keep_resolved
    Keeps-keep_resolved (ok (Resolved.issued c changed)) session v =
        Keeps-bind _ _ (Keeps-modify_state target (with_session session) (λ s f. f)) (λ _.
          Keeps-bind _ _
            (Keeps-modify_state target (with_credential c)
              (λ s f. record { of_key = f.of_key; of_credential = (v.gateway, v.team, mode) }))
            (λ _. Keeps-pure _))
    Keeps-keep_resolved (ok Resolved.unsupported) session v =
        Keeps-bind _ _ (Keeps-identity idp context now session) (λ x.
          Keeps-bind _ _ (Keeps-modify_state target (with_session x.1) (λ s f. f))
            (λ _. Keeps-lift _))
    Keeps-keep_resolved (err e) session v =
        Keeps-bind _ _ (Keeps-modify_state target (with_session session) (λ s f. f))
          (λ _. Keeps-fail _)

    Yields-keep_resolved :
        (r : Result Error Resolved) (session : Option CachedSession)
        → IssuedFor r
        → Yields BearerFor (keep_resolved t idp context now r session)
    unfolding keep_resolved
    Yields-keep_resolved (ok (Resolved.issued c changed)) session v =
        Yields-bind _ _ (λ e. tt)
          (λ _. Yields-bind _ _ (λ e. tt) (λ _. Yields-pure _ (v.gateway, v.team, mode)))
    Yields-keep_resolved (ok Resolved.unsupported) session v =
        Yields-bind _ _ (λ e. tt)
          (λ x. Yields-bind _ _ (λ e. tt) (λ _. Yields-lift _ (from_identity-BearerFor x.0 _)))
      where
        from_identity-BearerFor :
            (r : Result Failure String) (expiry : ℕ) → BearerFor (from_identity t r expiry)
        from_identity-BearerFor (ok token) expiry = tt
        from_identity-BearerFor (err e) expiry = tt
    Yields-keep_resolved (err e) session v = Yields-bind _ _ (λ e. tt) (λ _. Yields-fail _ tt)

    pub Keeps-session_credential :
        Keeps (Fixed target) (session_credential t target idp context now)
    unfolding session_credential
    Keeps-session_credential = Keeps-bind _ _ (Keeps-gets _) (λ s.
        Keeps-bind-Yields {Y = ResolvedFor} _ _ (Yields-resolved idp context now s)
          (Keeps-resolved idp context now s) (λ x v. Keeps-keep_resolved x.0 x.1 v))

    pub Yields-session_credential : Yields BearerFor (session_credential t target idp context now)
    unfolding session_credential
    Yields-session_credential =
        Yields-bind _ _ (λ e. tt)
          (λ s.
            Yields-bind-Yields {Y = ResolvedFor} _ _ (Yields-resolved idp context now s) (λ e. tt)
              (λ x v. Yields-keep_resolved x.0 x.1 v))

  module _ (mode : is_idp target.mode ≡ true) (c : CachedCredential) (now : ℕ) where
    Keeps-keep_minted :
        (team : String) (r : Result String MintOutcome)
        → target.team ≡ some team
        → Keeps (Fixed target) (keep_minted t target team c now r)
    unfolding keep_minted
    Keeps-keep_minted team (ok (minted m)) e =
        Keeps-bind _ _
          (Keeps-modify_state target (with_key (minted_key t target team now m))
            (λ s f. record { of_key = (refl, mode, rw e refl); of_credential = f.of_credential }))
          (λ _. Keeps-pure _)
    Keeps-keep_minted team (ok (refused unauthorized)) e = Keeps-pure _
    Keeps-keep_minted team (ok (refused team_permission)) e =
        Keeps-bind _ _ (Keeps-modify_state target _ (λ s f. f)) (λ _. Keeps-pure _)
    Keeps-keep_minted team (ok (refused MintRefusal.other)) e = Keeps-pure _
    Keeps-keep_minted team (err message) e = Keeps-pure _

    Keeps-mint_unless_refused :
        (team : String) (refusal : Option StickyRefusal)
        → target.team ≡ some team
        → Keeps (Fixed target) (mint_unless_refused t target team c now refusal)
    unfolding mint_unless_refused
    Keeps-mint_unless_refused team (some refusal) e = Keeps-pure _
    Keeps-mint_unless_refused team none e =
        Keeps-bind _ _ (Keeps-outside t target _) (λ r. Keeps-keep_minted team r e)

    Keeps-key_for :
        (team : Option String)
        → target.team ≡ team
        → Keeps (Fixed target) (key_for t target team c now)
    unfolding key_for
    Keeps-key_for none e = Keeps-pure _
    Keeps-key_for (some team) e =
        Keeps-bind _ _ (Keeps-gets _) (λ s. Keeps-mint_unless_refused team _ e)

    pub Keeps-key_or_credential : Keeps (Fixed target) (key_or_credential t target c now)
    Keeps-key_or_credential = Keeps-key_for target.team refl
