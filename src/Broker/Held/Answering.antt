-- ===== src/Broker/Held/Answering.antt =====
-- Issuing a bearer, and the minute's tick, keep what is held true to the settings (src/broker/mod.rs).
use litellm_relay.Common.{
  String, ℕ, ◌≡◌, refl, true, Option, none, some, if◌then◌else◌, ◌==◌, string_eq, arith, map_option,
}
use litellm_relay.Common.Action.{
  Result, ok, err, Keeps, Keeps-pure, Keeps-fail, Keeps-bind, Keeps-gets, Keeps-attempt,
}
use litellm_relay.Common.Action.Outcomes.{Keeps-bind-Yields}
use litellm_relay.AiTools.Idp.{IdpSection}
use litellm_relay.AiTools.Credential.Types.{CachedCredential}
use litellm_relay.Broker.Types.{
  Context, interactive, non_interactive, Issued, Refusal, Target, MintedKey, Bearer, Mode, idp,
  static_key, unconfigured, is_idp, KeyOutcome, dead_bearer, ExtendOutcome, extended,
}
use litellm_relay.Broker.Host.{Host, Threads, modify_state}
use litellm_relay.Broker.Hold.{dead_state, mark_dead}
use litellm_relay.Broker.Issue.{
  on_key, serve, issue_second, issue_again, issue_after_dead_bearer, issue_first, issue_with,
  issue_unless_held, issue_configured, count_completed, mint_again, keep_extended, extend_due,
  extend_key,
}
use litellm_relay.Broker.Held.{KeyFor, CredentialFor, Fixed, Keeps-modify_state, Keeps-outside}
use litellm_relay.Broker.Held.Bearing.{
  BearerFor, Keeps-session_credential, Yields-session_credential, Keeps-key_or_credential,
}

module _ {h : Host} (t : Threads h) where
  module _ (target : Target) where
    pub Keeps-serve : (issued : Issued) → Keeps (Fixed target) (serve t issued)
    unfolding serve
    Keeps-serve issued = Keeps-bind _ _ (Keeps-modify_state target _ (λ s f. f)) (λ _. Keeps-pure _)

    Keeps-mark_dead :
        (c : CachedCredential) (now : ℕ)
        → CredentialFor target (some c)
        → Keeps (Fixed target) (mark_dead t c now)
    unfolding mark_dead
    Keeps-mark_dead c now e =
        Keeps-modify_state target (dead_state c now)
          (λ s f. record { of_key = tt; of_credential = e })

    pub Keeps-issue_configured : (mode : Mode) → Keeps (Fixed target) (issue_configured t mode)
    unfolding issue_configured
    Keeps-issue_configured (static_key key) = Keeps-serve _
    Keeps-issue_configured (idp section) = Keeps-fail _
    Keeps-issue_configured (unconfigured hint) = Keeps-fail _

    pub Keeps-count_completed :
        (context : Context) (issued : Issued)
        → Keeps (Fixed target) (count_completed t context issued)
    unfolding count_completed
    Keeps-count_completed interactive issued =
        Keeps-bind _ _ (Keeps-modify_state target _ (λ s f. f)) (λ _. Keeps-pure _)
    Keeps-count_completed non_interactive issued = Keeps-pure _

    module _ (mode : is_idp target.mode ≡ true) where
      Keeps-issue_second : (outcome : KeyOutcome) → Keeps (Fixed target) (issue_second t outcome)
      unfolding issue_second
      Keeps-issue_second (KeyOutcome.issued issued) = Keeps-serve issued
      Keeps-issue_second dead_bearer = Keeps-fail _

      Keeps-issue_again :
          (now : ℕ) (bearer : Bearer) → Keeps (Fixed target) (issue_again t target now bearer)
      unfolding issue_again
      Keeps-issue_again now (Bearer.credential c) =
          Keeps-bind _ _ (Keeps-key_or_credential t target mode c now) Keeps-issue_second
      Keeps-issue_again now (Bearer.identity_token token expires_at) = Keeps-fail _

      Keeps-issue_after_dead_bearer :
          (section : IdpSection) (context : Context) (c : CachedCredential)
          → CredentialFor target (some c)
          → Keeps (Fixed target) (issue_after_dead_bearer t target section context c)
      unfolding issue_after_dead_bearer
      Keeps-issue_after_dead_bearer section context c e =
          Keeps-bind _ _ (Keeps-outside t target h.now) (λ now.
            Keeps-bind _ _ (Keeps-mark_dead c now e) (λ _.
              Keeps-bind _ _ (Keeps-session_credential t target mode section context now)
                (λ bearer. Keeps-issue_again now bearer)))

      Keeps-issue_first :
          (section : IdpSection) (context : Context) (c : CachedCredential) (outcome : KeyOutcome)
          → CredentialFor target (some c)
          → Keeps (Fixed target) (issue_first t target section context c outcome)
      unfolding issue_first
      Keeps-issue_first section context c (KeyOutcome.issued issued) e = Keeps-serve issued
      Keeps-issue_first section context c dead_bearer e =
          Keeps-issue_after_dead_bearer section context c e

      Keeps-issue_with :
          (section : IdpSection) (context : Context) (now : ℕ) (bearer : Bearer)
          → BearerFor t target (ok bearer)
          → Keeps (Fixed target) (issue_with t target section context now bearer)
      unfolding issue_with
      Keeps-issue_with section context now (Bearer.credential c) e =
          Keeps-bind _ _ (Keeps-key_or_credential t target mode c now)
            (λ outcome. Keeps-issue_first section context c outcome e)
      Keeps-issue_with section context now (Bearer.identity_token token expires_at) e =
          Keeps-serve _

      pub Keeps-issue_unless_held :
          (section : IdpSection) (context : Context) (now : ℕ) (held : Option Issued)
          → Keeps (Fixed target) (issue_unless_held t target section context now held)
      unfolding issue_unless_held
      Keeps-issue_unless_held section context now (some issued) = Keeps-serve issued
      Keeps-issue_unless_held section context now none =
          Keeps-bind-Yields {Y = BearerFor t target} _ _
            (Yields-session_credential t target mode section context now)
            (Keeps-session_credential t target mode section context now)
            (λ bearer e. Keeps-issue_with section context now bearer e)

      Keeps-mint_again :
          (now : ℕ) (r : Result Refusal Bearer) → Keeps (Fixed target) (mint_again t target now r)
      unfolding mint_again
      Keeps-mint_again now (ok (Bearer.credential c)) =
          Keeps-bind _ _ (Keeps-key_or_credential t target mode c now) (λ _. Keeps-pure _)
      Keeps-mint_again now (ok (Bearer.identity_token token expires_at)) = Keeps-pure _
      Keeps-mint_again now (err refusal) = Keeps-pure _

      -- A change of the held key that leaves its Gateway.
      KeyFor-on_key :
          (token : String) (f : MintedKey → MintedKey) (key : Option MintedKey)
          → ((k : MintedKey) → (f k).gateway_url ≡ k.gateway_url)
          → KeyFor target key
          → KeyFor target (map_option (λ (k : MintedKey). if k.token == token then f k else k) key)
      KeyFor-on_key token f none e v = tt
      KeyFor-on_key token f (some k) e v = ground (arith, e k)

      Keeps-on_key :
          (token : String) (f : MintedKey → MintedKey)
          → ((k : MintedKey) → (f k).gateway_url ≡ k.gateway_url)
          → Keeps (Fixed target) (modify_state {h = h} (on_key token f))
      Keeps-on_key token f e = Keeps-modify_state target (on_key token f) (λ s v. record {
        of_key = KeyFor-on_key token f s.key e v.of_key;
        of_credential = v.of_credential;
      })

      Keeps-keep_extended :
          (section : IdpSection) (bearer : CachedCredential) (now : ℕ) (key : MintedKey)
          (r : Result String ExtendOutcome)
          → CredentialFor target (some bearer)
          → Keeps (Fixed target) (keep_extended t target section bearer now key r)
      unfolding keep_extended
      Keeps-keep_extended section bearer now key (ok (extended expires_at)) e =
          Keeps-on_key key.token _ (λ k. refl)
      Keeps-keep_extended section bearer now key (ok ExtendOutcome.unauthorized) e =
          Keeps-bind _ _ (Keeps-mark_dead bearer now e) (λ _.
            Keeps-bind _ _
              (Keeps-attempt _ (Keeps-session_credential t target mode section non_interactive now))
              (λ r. Keeps-mint_again now r))
      Keeps-keep_extended section bearer now key (err message) e =
          Keeps-on_key key.token _ (λ k. refl)

      Keeps-extend_due :
          (section : IdpSection) (bearer : CachedCredential) (now : ℕ) (due : Option MintedKey)
          → CredentialFor target (some bearer)
          → Keeps (Fixed target) (extend_due t target section bearer now due)
      unfolding extend_due
      Keeps-extend_due section bearer now none e = Keeps-pure _
      Keeps-extend_due section bearer now (some key) e =
          Keeps-bind _ _ (Keeps-outside t target _)
            (λ r. Keeps-keep_extended section bearer now key r e)

      pub Keeps-extend_key :
          (section : IdpSection) (bearer : CachedCredential) (now : ℕ)
          → CredentialFor target (some bearer)
          → Keeps (Fixed target) (extend_key t target section bearer now)
      unfolding extend_key
      Keeps-extend_key section bearer now e =
          Keeps-bind _ _ (Keeps-gets _) (λ s. Keeps-extend_due section bearer now _ e)
