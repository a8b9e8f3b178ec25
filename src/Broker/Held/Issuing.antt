-- ===== src/Broker/Held/Issuing.antt =====
-- A whole request for a bearer, and the minute's tick (src/broker/mod.rs).
use litellm_relay.Common.{ℕ, ◌≡◌, refl, ap, true, Option, none, some}
use litellm_relay.Common.Action.{
  Result, ok, err, Keeps, Keeps-pure, Keeps-fail, Keeps-bind, Keeps-gets, Keeps-if, Keeps-attempt,
}
use litellm_relay.Common.Action.Outcomes.{Keeps-bind-Yields, Attempted, Yields-attempt}
use litellm_relay.AiTools.Idp.{IdpSection}
use litellm_relay.AiTools.Credential.Types.{CachedCredential}
use litellm_relay.Broker.Types.{
  Context, non_interactive, Issued, Refusal, Target, Bearer, Mode, idp, static_key, unconfigured,
  is_idp,
}
use litellm_relay.Broker.Host.{Host, Broker, Threads, free, read_state}
use litellm_relay.Broker.Issue.{
  serve, issue_configured, issue_from_session, issue_under_renewal_lock, issue_waiting,
  issue_from_idp, issue, extend_with, tick_held, tick_for, tick,
}
use litellm_relay.Broker.Held.{
  CredentialFor, Held, Fixed, Keeps-Fixed, Keeps-with_state, Held-modify_state, Keeps-outside,
  Held-outside, free-Held,
}
use litellm_relay.Broker.Held.Refreshing.{Held-refresh}
use litellm_relay.Broker.Held.Bearing.{
  BearerFor, Keeps-session_credential, Yields-session_credential,
}
use litellm_relay.Broker.Held.Answering.{
  Keeps-issue_configured, Keeps-count_completed, Keeps-issue_unless_held, Keeps-extend_key,
}

module _ {h : Host} (t : Threads h) where
  module _ (target : Target) where
    Keeps-issue_from_session :
        (mode : Mode) (context : Context)
        → target.mode ≡ mode
        → Keeps (Fixed target) (issue_from_session t mode target context)
    unfolding issue_from_session
    Keeps-issue_from_session (idp section) context e =
        Keeps-bind _ _ (Keeps-outside t target h.now) (λ now.
          Keeps-bind _ _ (Keeps-gets _)
            (λ s. Keeps-issue_unless_held t target (ap is_idp e) section context now _))
    Keeps-issue_from_session (static_key key) context e = Keeps-issue_configured t target _
    Keeps-issue_from_session (unconfigured hint) context e = Keeps-issue_configured t target _

    pub Keeps-issue_under_renewal_lock :
        (context : Context) → Keeps (Fixed target) (issue_under_renewal_lock t target context)
    unfolding issue_under_renewal_lock
    Keeps-issue_under_renewal_lock context =
        Keeps-bind _ _ (Keeps-issue_from_session target.mode context refl)
          (λ issued. Keeps-count_completed t target context issued)

    module _ (mode : is_idp target.mode ≡ true) (section : IdpSection) (now : ℕ) where
      Keeps-extend_with :
          (held : CachedCredential) (r : Result Refusal Bearer)
          → CredentialFor target (some held)
          → BearerFor t target r
          → Keeps (Fixed target) (extend_with t target section held now r)
      unfolding extend_with
      Keeps-extend_with held (ok (Bearer.credential c)) e v =
          Keeps-extend_key t target mode section c now v
      Keeps-extend_with held (ok (Bearer.identity_token token expires_at)) e v = Keeps-pure _
      Keeps-extend_with held (err refusal) e v = Keeps-extend_key t target mode section held now e

      Keeps-tick_held :
          (c : Option CachedCredential)
          → CredentialFor target c
          → Keeps (Fixed target) (tick_held t target section now c)
      unfolding tick_held
      Keeps-tick_held none e = Keeps-pure _
      Keeps-tick_held (some c) e = Keeps-if _ _ _ (Keeps-extend_key t target mode section c now e) (
          Keeps-bind-Yields {Y = Attempted (BearerFor t target)} _ _
            (Yields-attempt _ (Yields-session_credential t target mode section non_interactive now))
            (Keeps-attempt _ (Keeps-session_credential t target mode section non_interactive now))
            (λ r v. Keeps-extend_with c r e v))

    Keeps-tick_for :
        (mode : Mode) → target.mode ≡ mode → Keeps (Fixed target) (tick_for t mode target)
    unfolding tick_for
    Keeps-tick_for (idp section) e = Keeps-bind _ _ (Keeps-outside t target h.now) (λ now.
        Keeps-with_state target _
          (λ s f. Keeps-tick_held (ap is_idp e) section now s.credential f.of_credential))
    Keeps-tick_for (static_key key) e = Keeps-pure _
    Keeps-tick_for (unconfigured hint) e = Keeps-pure _

  Held-serve : (issued : Issued) → Keeps (Held h) (serve t issued)
  unfolding serve
  Held-serve issued = Keeps-bind _ _ (Held-modify_state _ (λ target s f. f)) (λ _. Keeps-pure _)

  Held-issue_configured : (mode : Mode) → Keeps (Held h) (issue_configured t mode)
  unfolding issue_configured
  Held-issue_configured (static_key key) = Held-serve _
  Held-issue_configured (idp section) = Keeps-fail _
  Held-issue_configured (unconfigured hint) = Keeps-fail _

  module _ (others : Keeps (Held h) (free t)) where
    pub Held-read_state : Keeps (Held h) (read_state t)
    unfolding read_state
    Held-read_state = Keeps-bind _ _ others (λ _. Keeps-gets _)

    Held-issue_waiting :
        (context : Context) (held : Option Issued) → Keeps (Held h) (issue_waiting t context held)
    unfolding issue_waiting
    Held-issue_waiting context (some issued) = Held-serve issued
    Held-issue_waiting context none =
        Keeps-bind _ _ others
          (λ _. Keeps-Fixed _ (λ target. Keeps-issue_under_renewal_lock target context))

    Held-issue_from_idp : (context : Context) → Keeps (Held h) (issue_from_idp t context)
    unfolding issue_from_idp
    Held-issue_from_idp context =
        Keeps-bind _ _ (Held-outside t h.now)
          (λ now. Keeps-bind _ _ Held-read_state (λ s. Held-issue_waiting context _))

    pub Held-issue : (mode : Mode) (context : Context) → Keeps (Held h) (issue t mode context)
    unfolding issue
    Held-issue (idp section) context = Held-issue_from_idp context
    Held-issue (static_key key) context = Held-issue_configured _
    Held-issue (unconfigured hint) context = Held-issue_configured _

    ticked-Held : Keeps (Held h) (tick t)
    unfolding tick
    ticked-Held = Keeps-bind _ _ (Held-refresh t others) (λ _.
        Keeps-bind _ _ others
          (λ _. Keeps-Fixed _ (λ target. Keeps-tick_for target target.mode refl)))

-- If the other threads keep a held key and a held credential of the settings in force, so does the minute's
-- tick, which renews the one and extends the other.
pub tick-Held :
    {h : Host} (t : Threads h)
    → ((b : Broker h) → Held h b → Held h (t.free b))
    → (b : Broker h) → Held h b
    → Held h (tick t b).1
tick-Held t others b v = (ticked-Held t (free-Held t others)).at b v
