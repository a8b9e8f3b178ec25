-- ===== src/Broker/Held/Serving.antt =====
-- The requests for a bearer, signing in and out, and the status keep what is held true to the settings
-- (src/broker/mod.rs).
use litellm_relay.Common.{String, Bool, true, false, Option, none, some}
use litellm_relay.Common.Action.{
  Result, ok, err, Keeps, Keeps-pure, Keeps-fail, Keeps-bind, Keeps-gets, Keeps-if, Keeps-attempt,
}
use litellm_relay.Broker.Caller.{Peer}
use litellm_relay.Broker.Types.{
  Context, interactive, non_interactive, Issued, Refusal, Target, MintedKey, State, Mode, idp,
  static_key, unconfigured,
}
use litellm_relay.Broker.Host.{Host, Broker, Threads, free}
use litellm_relay.Broker.Serve.{
  admitted, admit, credential, known_or_new, proxy_credential, proxy_bearer_held, bearer_for_known,
  bearer_for_proxy, open_pending, signed_in_as, sign_in_anew, sign_in_with, sign_in_on, sign_in,
  sign_out_of, sign_out, status, running,
}
use litellm_relay.Broker.Held.{
  Held, Fixed, Keeps-Fixed, Keeps-modify_state, Held-modify_state, Held-outside, Held-locally,
}
use litellm_relay.Broker.Held.Settings.{Keeps-forget}
use litellm_relay.Broker.Held.Refreshing.{
  Held-read_target, Held-refresh, Held-refresh_unless_renewing,
}
use litellm_relay.Broker.Held.Issuing.{Keeps-issue_under_renewal_lock, Held-issue, Held-read_state}

module _ {h : Host} (t : Threads h) (others : Keeps (Held h) (free t)) where
  Held-admitted : (target : Target) (fine : Bool) → Keeps (Held h) (admitted t target fine)
  unfolding admitted
  Held-admitted target true = Keeps-pure _
  Held-admitted target false =
      Keeps-bind _ _ others
        (λ _. Keeps-bind _ _ (Held-modify_state _ (λ target s f. f)) (λ _. Keeps-fail _))

  pub Held-admit : (peer : Peer) → Keeps (Held h) (admit t peer)
  unfolding admit
  Held-admit peer = Keeps-bind _ _ (Held-refresh t others) (λ _.
      Keeps-bind _ _ (Held-read_target t others)
        (λ target. Keeps-bind _ _ (Held-outside t _) (λ fine. Held-admitted target fine)))

  pub Held-credential :
      (context : Context) (peer : Peer) → Keeps (Held h) (credential t context peer)
  unfolding credential
  Held-credential context peer =
      Keeps-bind _ _ (Held-admit peer) (λ target. Held-issue t others target.mode context)

  Held-known_or_new : (token : Option String) → Keeps (Held h) (known_or_new t token)
  unfolding known_or_new
  Held-known_or_new (some token) = Keeps-pure _
  Held-known_or_new none =
      Keeps-bind _ _ (Held-locally _)
        (λ token. Keeps-bind _ _ (Held-modify_state _ (λ target s f. f)) (λ _. Keeps-pure _))

  pub Held-proxy_credential :
      (context : Context) (peer : Peer) → Keeps (Held h) (proxy_credential t context peer)
  unfolding proxy_credential
  Held-proxy_credential context peer = Keeps-bind _ _ (Held-admit peer) (λ target.
      Keeps-bind _ _ (Held-issue t others target.mode context) (λ issued.
        Keeps-bind _ _ (Held-read_state t others)
          (λ s. Keeps-bind _ _ (Held-known_or_new _) (λ token. Keeps-pure _))))

  Held-proxy_bearer_held : (key : Option MintedKey) → Keeps (Held h) (proxy_bearer_held t key)
  unfolding proxy_bearer_held
  Held-proxy_bearer_held (some key) =
      Keeps-bind _ _ (Held-modify_state _ (λ target s f. f)) (λ _. Keeps-pure _)
  Held-proxy_bearer_held none = Keeps-bind _ _ others (λ _. Keeps-Fixed _ (λ target.
      Keeps-bind _ _ (Keeps-issue_under_renewal_lock t target non_interactive)
        (λ issued. Keeps-pure _)))

  Held-bearer_for_known : (known : Bool) → Keeps (Held h) (bearer_for_known t known)
  unfolding bearer_for_known
  Held-bearer_for_known false = Keeps-fail _
  Held-bearer_for_known true =
      Keeps-bind _ _ (Held-outside t h.now)
        (λ now. Keeps-bind _ _ (Held-read_state t others) (λ s. Held-proxy_bearer_held _))

  pub bearer_for_proxy-Held : (presented : String) → Keeps (Held h) (bearer_for_proxy t presented)
  unfolding bearer_for_proxy
  bearer_for_proxy-Held presented =
      Keeps-bind _ _ (Held-refresh t others)
        (λ _. Keeps-bind _ _ (Held-read_state t others) (λ s. Held-bearer_for_known _))

  Held-open_pending : (page : Option String) → Keeps (Held h) (open_pending t page)
  unfolding open_pending
  Held-open_pending none = Keeps-pure _
  Held-open_pending (some page) = Held-outside t _

  Keeps-signed_in_as :
      {P : Broker h → Type 0} (r : Result Refusal Issued) (s : State) → Keeps P (signed_in_as t r s)
  unfolding signed_in_as
  Keeps-signed_in_as (ok issued) s = Keeps-pure _
  Keeps-signed_in_as (err refusal) s = Keeps-fail _

  Keeps-sign_in_anew : (target : Target) → Keeps (Fixed target) (sign_in_anew t target)
  unfolding sign_in_anew
  Keeps-sign_in_anew target = Keeps-bind _ _ (Keeps-forget t target target.gateway_url true) (λ _.
      Keeps-bind _ _ (Keeps-modify_state target (running true) (λ s f. f)) (λ _.
        Keeps-bind _ _ (Keeps-attempt _ (Keeps-issue_under_renewal_lock t target interactive)) (λ r.
          Keeps-bind _ _ (Keeps-modify_state target (running false) (λ s f. f))
            (λ _. Keeps-bind _ _ (Keeps-gets _) (λ s. Keeps-signed_in_as r s)))))

  Keeps-sign_in_on :
      (mode : Mode) (target : Target) (at_start : State)
      → Keeps (Fixed target) (sign_in_on t mode target at_start)
  unfolding sign_in_on sign_in_with
  Keeps-sign_in_on (idp section) target at_start = Keeps-bind _ _ (Keeps-gets _) (λ s.
      Keeps-if _ _ _ (Keeps-pure _) (Keeps-if _ _ _ (Keeps-fail _) (Keeps-sign_in_anew target)))
  Keeps-sign_in_on (static_key key) target at_start = Keeps-fail _
  Keeps-sign_in_on (unconfigured hint) target at_start = Keeps-fail _

  pub Held-sign_in : Keeps (Held h) (sign_in t)
  unfolding sign_in
  Held-sign_in = Keeps-bind _ _ (Held-read_state t others) (λ at_start.
      Keeps-bind _ _ (Held-open_pending _) (λ _. Keeps-bind _ _ (Held-refresh t others) (λ _.
        Keeps-bind _ _ others
          (λ _. Keeps-Fixed _ (λ target. Keeps-sign_in_on target.mode target at_start)))))

  Keeps-sign_out_of : (target : Target) → Keeps (Fixed target) (sign_out_of t target)
  unfolding sign_out_of
  Keeps-sign_out_of target =
      Keeps-if _ _ _ (Keeps-fail _)
        (Keeps-bind _ _ (Keeps-forget t target target.gateway_url true) (λ _. Keeps-pure _))

  pub Held-sign_out : Keeps (Held h) (sign_out t)
  unfolding sign_out
  Held-sign_out =
      Keeps-bind _ _ (Held-refresh t others)
        (λ _. Keeps-bind _ _ others (λ _. Keeps-Fixed _ Keeps-sign_out_of))

  pub Held-status : Keeps (Held h) (status t)
  unfolding status
  Held-status = Keeps-bind _ _ (Held-refresh_unless_renewing t others) (λ _.
      Keeps-bind _ _ (Held-read_target t others) (λ target.
        Keeps-bind _ _ (Held-outside t h.now)
          (λ now. Keeps-bind _ _ (Held-read_state t others) (λ s. Keeps-pure _))))
