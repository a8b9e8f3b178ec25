-- ===== src/AiTools/Token/Steps.antt =====
-- When a cached token is reused, renewed and given up (`next_step` in src/ai_tools/token.rs).
use litellm_relay.Common.{
  String, ℕ, ◌+◌, ◌<◌, ◌≤◌, ◌≡◌, ◌↔◌, inl, inr, refl, Bool-cases, Option-cases, Option, none, some,
  arith, ltb,
}
use litellm_relay.AiTools.Token.{CachedSession, Step, reuse, refresh, sign_in, next_step}

-- The token that a step can end with when the identity provider gives nothing.
abbrev pub fallback : Step → Option String
fallback (reuse token) = some token
fallback (refresh _ still_valid) = still_valid
fallback sign_in = none

-- Without the identity provider, a step can end with a token exactly if it is the cached one and more
-- than sixty seconds are left of it.
pub fallback-next_step_iff :
    (cached : CachedSession) (now : ℕ) (token : String)
    → (fallback (next_step (some cached) now) ≡ some token)
      ↔ ((token ≡ cached.token) × (now + 60 < cached.exp))
unfolding next_step
fallback-next_step_iff cached now token = elim (Option-cases cached.refresh_token) [
  | inl e ↦ rw e (ground arith)
  | inr (r, e) ↦ rw e (ground arith)
]

-- A cached session is refreshed exactly if it holds a refresh token and at most ten minutes are left of
-- its token.
pub next_step-refresh_iff :
    (cached : CachedSession) (now : ℕ)
    → ((r : String) × (v : Option String) × (next_step (some cached) now ≡ refresh r v))
      ↔ (((r : String) × (cached.refresh_token ≡ some r)) × (cached.exp ≤ now + 600))
unfolding next_step
next_step-refresh_iff cached now = elim (Option-cases cached.refresh_token) [
  | inl e ↦ rw e (ground arith)
  | inr (r, e) ↦ rw e (elim (Bool-cases (ltb (now + 600) cached.exp)) [
    | inl l ↦ rw l (ground arith)
    | inr l ↦ rw l ((λ _. ((r, refl), ground arith)), λ _. (r, _, refl))
  ])
]
