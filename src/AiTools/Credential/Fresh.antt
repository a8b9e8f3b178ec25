-- ===== src/AiTools/Credential/Fresh.antt =====
-- Fresh, valid and dead credentials (`CachedCredential` in src/ai_tools/gateway_credential.rs).
use litellm_relay.Common.{ℕ, ◌+◌, ◌≤◌, ◌≡◌, ◌↔◌, true, arith}
use litellm_relay.AiTools.Credential.Types.{
  CachedCredential, Renewal, near_expiry, half_life, is_fresh, is_valid, dead,
}

-- A credential that needs no renewal is one that the Gateway still accepts, unless it was issued at a time
-- that the clock has not reached any more.
is_fresh-is_valid :
    (c : CachedCredential) (now : ℕ) (renewal : Renewal)
    → c.issued_at ≤ c.expires_at
    → is_fresh c now renewal ≡ true
    → is_valid c now ≡ true
unfolding is_fresh
is_fresh-is_valid c now near_expiry ordered fresh = ground arith
is_fresh-is_valid c now half_life ordered fresh = ground arith

-- A credential that is marked dead counts as fresh at that moment, by the half-life rule, exactly if the
-- clock reads two seconds or more before the time it was issued at.
pub is_fresh-dead_iff :
    (c : CachedCredential) (now : ℕ)
    → (is_fresh (dead c now) now half_life ≡ true) ↔ (now + 2 ≤ c.issued_at)
unfolding is_fresh
is_fresh-dead_iff c now = ground arith
