-- ===== src/AiTools/Token/Renewal.antt =====
-- How a run for a token ends (`advance` and `ensure_with` in src/ai_tools/token.rs).
use litellm_relay.Common.{
  String, ℕ, ◌+◌, ◌<◌, ◌≡◌, ◌⊎◌, inl, inr, refl, ap, subst, ◌∙◌, true, Bool-cases, Option-cases,
  Option, none, some, List, ◌∷◌, arith,
}
use litellm_relay.Common.Action.{Result, ok, err}
use litellm_relay.AiTools.Idp.{IdpSection, Session, is_configured}
use litellm_relay.AiTools.Token.{
  CachedSession, Advanced, reused, renewed, SignIn, allowed, cached_only, Step, reuse, refresh,
  sign_in, Failure, next_step, Event, refreshed, signed_in, wrote, Device, Env, file, provider,
  continue, ◌>>=◌, from_session, renewed_from, browser_sign_in, sign_in_again, after_refresh,
  take_step, advance, is_for, parsed, read_cache, write_cache, keep, renew_under_lock, or_renew,
  ensure_with,
}
use litellm_relay.AiTools.Token.Steps.{fallback, fallback-next_step_iff}

-- Nothing was asked of the identity provider, or one refresh that gave nothing.
abbrev pub Missed : List Event → List Event → Type 0
Missed before after = (after ≡ before) ⊎ ((t : String) × (after ≡ refreshed t none ∷ before))

-- The provider gave a session: to the refresh, or, where a browser is allowed, to a sign-in.
abbrev pub Got : SignIn → Session → List Event → List Event → Type 0
Got mode s before after =
    ((t : String) × (after ≡ refreshed t (some s) ∷ before))
    ⊎ ((middle : List Event) × (mode ≡ allowed)
        × Missed before middle
        × (after ≡ signed_in (some s) ∷ middle))

-- What was asked of the provider when the run failed.
abbrev pub Tried : SignIn → List Event → List Event → Type 0
Tried mode before after =
    Missed before after
    ⊎ ((s : Session) × Got mode s before after)
    ⊎ ((middle : List Event) × (mode ≡ allowed)
        × Missed before middle
        × (after ≡ signed_in none ∷ middle))

module _ (d : Device) (idp : IdpSection) where
  pub data Moved (mode : SignIn) (step : Step) (before : List Event) (r : Result Failure Advanced)
      (after : List Event) : Type 0 where
    kept :
        (token : String)
        → r ≡ ok (reused token)
        → fallback step ≡ some token
        → Missed before after
        → Moved mode step before r after
    moved :
        (c : CachedSession) (s : Session)
        → r ≡ ok (renewed c)
        → from_session d idp s ≡ ok c
        → Got mode s before after
        → Moved mode step before r after
    failed : (f : Failure) → r ≡ err f → Tried mode before after → Moved mode step before r after

  -- The end of a run: a token of the cache that is for this provider and lasts, a session that the
  -- provider just gave and that is written to the cache, or a failure.
  pub data Ended (now : ℕ) (mode : SignIn) (before : List Event) (r : Result Failure String)
      (after : List Event) : Type 0 where
    cached :
        (c : CachedSession) (text : String)
        → d.parse text ≡ some c
        → is_for d idp c ≡ true
        → now + 60 < c.exp
        → r ≡ ok c.token
        → Missed before after
        → Ended now mode before r after
    stored :
        (c : CachedSession) (s : Session) (middle : List Event)
        → from_session d idp s ≡ ok c
        → r ≡ ok c.token
        → Got mode s before middle
        → after ≡ wrote c ∷ middle
        → Ended now mode before r after
    failed : (f : Failure) → r ≡ err f → Tried mode before after → Ended now mode before r after

  Result-cases : {E A : Type 0} (r : Result E A) → ((a : A) × (r ≡ ok a)) ⊎ ((e : E) × (r ≡ err e))
  Result-cases (ok a) = inl (a, refl)
  Result-cases (err e) = inr (e, refl)

  renewed_from-Moved :
      (mode : SignIn) (step : Step) (before : List Event) (s : Session) (env : Env d)
      → Got mode s before env.events
      → Moved mode step before (renewed_from d idp s env).0 (renewed_from d idp s env).1.events
  renewed_from-Moved mode step before s env got = elim (Result-cases (from_session d idp s)) [
    | inl (c, e) ↦ rw e (moved c s refl e got)
    | inr (f, e) ↦ rw e (Moved.failed f refl (inr (inl (s, got))))
  ]

  sign_in_again-Moved :
      (mode : SignIn) (step : Step) (before : List Event) (env : Env d)
      → Missed before env.events
      → Moved mode step before
          (sign_in_again d idp mode env).0
          (sign_in_again d idp mode env).1.events
  unfolding sign_in_again browser_sign_in provider ◌>>=◌
  sign_in_again-Moved cached_only step before env missed = Moved.failed _ refl (inl missed)
  sign_in_again-Moved allowed step before env missed =
      elim (Result-cases (d.sign_in idp env.world).0) [
        | inl (s, e) ↦ rw e (
            renewed_from-Moved allowed step before s
              (record {
                world = (d.sign_in idp env.world).1;
                events = signed_in (some s) ∷ env.events;
              })
              (inr (env.events, refl, missed, refl)))
        | inr (f, e) ↦ rw e (Moved.failed _ refl (inr (inr (env.events, refl, missed, refl))))
      ]

  pub take_step-Moved :
      (mode : SignIn) (step : Step) (env : Env d)
      → Moved mode step env.events
          (take_step d idp mode step env).0
          (take_step d idp mode step env).1.events
  unfolding take_step after_refresh provider ◌>>=◌
  take_step-Moved mode (reuse token) env = kept token refl refl (inl refl)
  take_step-Moved mode sign_in env = sign_in_again-Moved mode sign_in env.events env (inl refl)
  take_step-Moved mode (refresh t v) env =
      let asked : Option Session → Env d = λ o. record {
        world = (d.refresh idp t env.world).1;
        events = refreshed t o ∷ env.events;
      } in
      elim (Result-cases (d.refresh idp t env.world).0) [
        | inl (s, e) ↦
            rw e
              (renewed_from-Moved mode (refresh t v) env.events s (asked (some s)) (inl (t, refl)))
        | inr (f, e) ↦ rw e (elim (Option-cases v) [
          | inl e' ↦
              rw e'
                (sign_in_again-Moved mode (refresh t none) env.events (asked none) (inr (t, refl)))
          | inr (token, e') ↦ rw e' (kept token refl refl (inr (t, refl)))
        ])
      ]

  -- A cache that was read for this provider.
  abbrev Read : Option CachedSession → Type 0
  Read none = Unit
  Read (some c) = ((text : String) × (d.parse text ≡ some c)) × (is_for d idp c ≡ true)

  Read-parsed : (contents : Option String) → Read (parsed d idp contents)
  Read-parsed none = tt
  Read-parsed (some text) = elim (Option-cases (d.parse text)) [
    | inl e ↦ rw e tt
    | inr (c, e) ↦
        rw e (elim (Bool-cases (is_for d idp c)) [ inl b ↦ rw b ((text, e), b) | inr b ↦ rw b tt ])
  ]

  reused-Ended :
      (now : ℕ) (mode : SignIn) (o : Option CachedSession) (token : String) (before : List Event)
      (r : Result Failure String) (after : List Event)
      → Read o
      → fallback (next_step o now) ≡ some token
      → r ≡ ok token
      → Missed before after
      → Ended now mode before r after
  unfolding next_step
  reused-Ended now mode none token before r after read e same missed = ground arith
  reused-Ended now mode (some c) token before r after ((text, parsed), for) e same missed =
      let (named, lasts) = (fallback-next_step_iff c now token).0 e in
      cached c text parsed for lasts (same ∙ ap (λ t. ok t) named) missed

  keep-Ended :
      (now : ℕ) (mode : SignIn) (o : Option CachedSession) (before : List Event)
      (r : Result Failure Advanced) (env : Env d)
      → Read o
      → Moved mode (next_step o now) before r env.events
      → Ended now mode before (continue r (keep d idp) env).0 (continue r (keep d idp) env).1.events
  unfolding keep write_cache file ◌>>=◌
  keep-Ended now mode o before r env read (kept token e fits missed) =
      rw e (reused-Ended now mode o token before (ok token) env.events read fits refl missed)
  keep-Ended now mode o before r env read (Moved.failed f e tried) =
      rw e (Ended.failed f refl tried)
  keep-Ended now mode o before r env read (moved c s e fits got) =
      rw e (elim (Result-cases (d.write_file (d.print c) env.world).0) [
        | inl (u, w) ↦ rw w (stored c s env.events fits refl got refl)
        | inr (f, w) ↦ rw w (Ended.failed _ refl (inr (inl (s, got))))
      ])

  -- The file is read without an event, and what it gives is for this provider.
  read_cache-Read :
      (env : Env d)
      → ((read_cache d idp env).1.events ≡ env.events)
        × (((o : Option CachedSession) × ((read_cache d idp env).0 ≡ ok o) × Read o)
            ⊎ ((f : Failure) × ((read_cache d idp env).0 ≡ err f)))
  unfolding read_cache file ◌>>=◌
  read_cache-Read env = elim (Result-cases (d.read_file env.world).0) [
    | inl (contents, e) ↦ rw e (refl, inl (parsed d idp contents, refl, Read-parsed contents))
    | inr (f, e) ↦ rw e (refl, inr (_, refl))
  ]

  Ended-before :
      {now : ℕ} {mode : SignIn} {before middle : List Event} {r : Result Failure String}
      {after : List Event}
      → middle ≡ before
      → Ended now mode middle r after
      → Ended now mode before r after
  Ended-before {now} {mode} {r = r} {after = after} e ended =
      subst (λ l. Ended now mode l r after) e ended

  renew_under_lock-Ended :
      (now : ℕ) (mode : SignIn) (env : Env d)
      → Ended now mode env.events
          (renew_under_lock d idp now mode env).0
          (renew_under_lock d idp now mode env).1.events
  unfolding renew_under_lock advance file ◌>>=◌
  renew_under_lock-Ended now mode env = elim (Result-cases (d.lock_file env.world).0) [
    | inr (f, e) ↦ rw e (Ended.failed _ refl (inl (inl refl)))
    | inl (u, e) ↦
        let locked : Env d = record { world = (d.lock_file env.world).1; events = env.events } in
        let (same, read) = read_cache-Read locked in
        rw e (elim read [
          | inr (f, e') ↦ rw e' (Ended.failed f refl (inl (inl same)))
          | inl (o, e', fits) ↦
              let opened = (read_cache d idp locked).1 in
              let went = take_step d idp mode (next_step o now) opened in
              rw e' (
                Ended-before same (
                  keep-Ended now mode o opened.events went.0 went.1 fits
                    (take_step-Moved mode (next_step o now) opened)))
        ])
  ]

  or_renew-Ended :
      (now : ℕ) (mode : SignIn) (o : Option CachedSession) (step : Step) (env : Env d)
      → Read o
      → next_step o now ≡ step
      → Ended now mode env.events
          (or_renew d idp now mode step env).0
          (or_renew d idp now mode step env).1.events
  or_renew-Ended now mode o (reuse token) env read e =
      reused-Ended now mode o token env.events (ok token) env.events read (ap fallback e) refl
        (inl refl)
  or_renew-Ended now mode o (refresh _ _) env read e = renew_under_lock-Ended now mode env
  or_renew-Ended now mode o sign_in env read e = renew_under_lock-Ended now mode env

  -- Every run ends in one of three ways. It gives the token of a cached session of this provider and
  -- client of which more than sixty seconds are left, having asked the provider for nothing but perhaps one
  -- refresh that failed. Or it gives the ID token of a session that the provider just gave, whose expiry it
  -- read and which it wrote to the cache last. Or it fails. There is at most one refresh and after it at most
  -- one browser sign-in, and a sign-in only where the caller allows it.
  pub ensure_with-Ended :
      (now : ℕ) (mode : SignIn) (env : Env d)
      → Ended now mode env.events
          (ensure_with d idp now mode env).0
          (ensure_with d idp now mode env).1.events
  unfolding ensure_with ◌>>=◌
  ensure_with-Ended now mode env = elim (Bool-cases (is_configured d.classes idp)) [
    | inr e ↦ rw e (Ended.failed _ refl (inl (inl refl)))
    | inl e ↦
        let (same, read) = read_cache-Read env in
        rw e (elim read [
          | inr (f, e') ↦ rw e' (Ended.failed f refl (inl (inl same)))
          | inl (o, e', fits) ↦ rw e' (
              Ended-before same
                (or_renew-Ended now mode o (next_step o now) (read_cache d idp env).1 fits refl))
        ])
  ]
