-- ===== src/AiTools/Token/Reusing.antt =====
-- A token that is reused is that of the cached session (src/ai_tools/token.rs).
use litellm_relay.Common.{String, ℕ, ◌≡◌, refl, sym, Option, none, some, List, arith}
use litellm_relay.Common.Action.{Result, ok, err}
use litellm_relay.AiTools.Idp.{IdpSection}
use litellm_relay.AiTools.Token.{
  CachedSession, Advanced, reused, renewed, SignIn, next_step, Failure, Event, Device, Env, advance,
}
use litellm_relay.AiTools.Token.Steps.{fallback, fallback-next_step_iff}
use litellm_relay.AiTools.Token.Renewal.{Moved, kept, moved, failed, take_step-Moved}

-- The session is held and has this token.
abbrev pub HasToken : String → Option CachedSession → Type 0
HasToken token session = (held : CachedSession) × (session ≡ some held) × (held.token ≡ token)

abbrev pub ReusedFrom : Option CachedSession → Result Failure Advanced → Type 0
ReusedFrom cached (ok (reused token)) = HasToken token cached
ReusedFrom cached (ok (renewed session)) = Unit
ReusedFrom cached (err e) = Unit

fallback-HasToken :
    (cached : Option CachedSession) (now : ℕ) (token : String)
    → fallback (next_step cached now) ≡ some token
    → HasToken token cached
unfolding next_step
fallback-HasToken none now token e = absurd (ground arith)
fallback-HasToken (some c) now token e = (c, refl, sym ((fallback-next_step_iff c now token).0 e).0)

Moved-ReusedFrom :
    {d : Device} {idp : IdpSection} {mode : SignIn} {before after : List Event}
    (cached : Option CachedSession) (now : ℕ) (r : Result Failure Advanced)
    → Moved d idp mode (next_step cached now) before r after
    → ReusedFrom cached r
Moved-ReusedFrom cached now r (kept token e f m) = rw e (fallback-HasToken cached now token f)
Moved-ReusedFrom cached now r (moved c s e g k) = rw e tt
Moved-ReusedFrom cached now r (failed f e m) = rw e tt

-- The token that a run reuses is that of the session that it was given.
pub advance-ReusedFrom :
    (d : Device) (idp : IdpSection) (cached : Option CachedSession) (now : ℕ) (mode : SignIn)
    (env : Env d)
    → ReusedFrom cached (advance d idp cached now mode env).0
unfolding advance
advance-ReusedFrom d idp cached now mode env =
    Moved-ReusedFrom cached now _ (take_step-Moved d idp mode (next_step cached now) env)
