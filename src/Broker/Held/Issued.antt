-- ===== src/Broker/Held/Issued.antt =====
-- Every token that is issued under the renewal lock is of what is held then (src/broker/mod.rs).
use litellm_relay.Common.{ℕ, ◌≡◌, refl, Option, none, some}
use litellm_relay.Common.Action.{ok, pure, fail, gets, ◌>>=◌}
use litellm_relay.Common.Action.Outcomes.{Ensures, Ensures-bind, Ensures-then}
use litellm_relay.AiTools.Idp.{IdpSection}
use litellm_relay.AiTools.Credential.Types.{CachedCredential}
use litellm_relay.Broker.Held.Origin.{
  of_session, of_settings, Any, IssuedFrom, OutcomeFrom, BearerFrom, any, fresh_key-Origin,
  serve-From, key_for-From, session_credential-From,
}
use litellm_relay.Broker.Types.{
  Context, non_interactive, Issued, Target, Bearer, Mode, idp, static_key, unconfigured, KeyOutcome,
  dead_bearer,
}
use litellm_relay.Broker.Host.{Host, Broker, Threads}
use litellm_relay.Broker.Issue.{
  raw_identity, configured_key, fresh_key, issue_second, issue_again, issue_after_dead_bearer,
  issue_first, issue_with, issue_unless_held, issue_configured, issue_from_session, count_completed,
  issue_under_renewal_lock,
}

module _ {h : Host} (t : Threads h) (target : Target) where
  module _ (section : IdpSection) (context : Context) where
    issue_second-From :
        (outcome : KeyOutcome)
        → Ensures (OutcomeFrom t target (ok outcome)) (issue_second t outcome) (IssuedFrom t target)
    unfolding issue_second fail
    issue_second-From (KeyOutcome.issued issued) = serve-From t target issued
    issue_second-From dead_bearer = record { at = λ b _. tt }

    issue_again-From :
        (now : ℕ) (bearer : Bearer)
        → Ensures
            (BearerFrom t target (ok bearer))
            (issue_again t target now bearer)
            (IssuedFrom t target)
    unfolding issue_again fail
    issue_again-From now (Bearer.credential c) =
        Ensures-then {Mid = (OutcomeFrom t target)} _ _ (key_for-From t target target.team c now)
          (λ e b. tt) issue_second-From
    issue_again-From now (Bearer.identity_token token expires_at) = record { at = λ b _. tt }

    issue_after_dead_bearer-From :
        (c : CachedCredential)
        → Ensures
            (Any t target)
            (issue_after_dead_bearer t target section context c)
            (IssuedFrom t target)
    unfolding issue_after_dead_bearer
    issue_after_dead_bearer-From c =
        Ensures-bind _ _ (any t target) (λ e b. tt)
          (λ now.
            Ensures-bind _ _ (any t target) (λ e b. tt)
              (λ _.
                Ensures-then {Mid = (BearerFrom t target)} _ _
                  (session_credential-From t target section context now) (λ e b. tt)
                  (issue_again-From now)))

    issue_first-From :
        (c : CachedCredential) (outcome : KeyOutcome)
        → Ensures
            (OutcomeFrom t target (ok outcome))
            (issue_first t target section context c outcome)
            (IssuedFrom t target)
    unfolding issue_first
    issue_first-From c (KeyOutcome.issued issued) = serve-From t target issued
    issue_first-From c dead_bearer = record { at = λ b _. (issue_after_dead_bearer-From c).at b tt }

    issue_with-From :
        (now : ℕ) (bearer : Bearer)
        → Ensures
            (BearerFrom t target (ok bearer))
            (issue_with t target section context now bearer)
            (IssuedFrom t target)
    unfolding issue_with
    issue_with-From now (Bearer.credential c) =
        Ensures-then {Mid = (OutcomeFrom t target)} _ _ (key_for-From t target target.team c now)
          (λ e b. tt) (issue_first-From c)
    issue_with-From now (Bearer.identity_token token expires_at) = record {
      at = λ b k.
          (serve-From t target (raw_identity target token expires_at)).at b
            (of_session k.0 k.1 k.2);
    }

    issue_unless_held-From :
        (now : ℕ) (b : Broker h) (held : Option Issued)
        → fresh_key b.state now ≡ held
        → let after = issue_unless_held t target section context now held b in
          (IssuedFrom t target) after.0 after.1
    unfolding issue_unless_held
    issue_unless_held-From now b none e =
        let whole : Ensures (Any t target) (issue_unless_held t target section context now none)
            (IssuedFrom t target) =
          Ensures-then {Mid = (BearerFrom t target)} _ _
            (session_credential-From t target section context now) (λ e b. tt)
            (issue_with-From now) in
        whole.at b tt
    issue_unless_held-From now b (some issued) e =
        (serve-From t target issued).at b (fresh_key-Origin t target now b.state _ issued refl e)

  issue_configured-From :
      (mode : Mode)
      → target.mode ≡ mode
      → Ensures (Any t target) (issue_configured t mode) (IssuedFrom t target)
  unfolding issue_configured fail
  issue_configured-From (static_key key) e = record {
    at = λ b _. (serve-From t target (configured_key key)).at b (of_settings e);
  }
  issue_configured-From (idp section) e = record { at = λ b _. tt }
  issue_configured-From (unconfigured hint) e = record { at = λ b _. tt }

  issue_from_session-From :
      (mode : Mode) (context : Context)
      → target.mode ≡ mode
      → Ensures (Any t target) (issue_from_session t mode target context) (IssuedFrom t target)
  unfolding issue_from_session
  issue_from_session-From (idp section) context e =
      Ensures-bind _ _ (any t target) (λ e b. tt)
        (λ now. record {
          at = λ b _.
              unfold gets ◌>>=◌ in
              issue_unless_held-From section context now b (fresh_key b.state now) refl;
        })
  issue_from_session-From (static_key key) context e = issue_configured-From _ e
  issue_from_session-From (unconfigured hint) context e = issue_configured-From _ e

  -- What is issued for the proxy is of what is held when it is issued.
  pub issued-From :
      Ensures
        (Any t target)
        (issue_under_renewal_lock t target non_interactive)
        (IssuedFrom t target)
  unfolding issue_under_renewal_lock count_completed pure
  issued-From =
      Ensures-then {Mid = (IssuedFrom t target)} _ _
        (issue_from_session-From target.mode non_interactive refl) (λ e b. tt)
        (λ issued. record { at = λ b o. o })
