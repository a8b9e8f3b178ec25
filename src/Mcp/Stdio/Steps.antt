-- ===== src/Mcp/Stdio/Steps.antt =====
-- The cases of a step of the daemon (`Step` in src/mcp/stdio.rs).
use litellm_relay.Common.{String, ◌≡◌, ◌⊎◌, inl, inr, refl}
use litellm_relay.Mcp.Stdio.Types.{Step, ask, done, refused, unknown}

pub Step-cases :
    (s : Step)
    → (s ≡ unknown)
      ⊎ ((m : String) × (s ≡ ask m))
      ⊎ ((v : _) × (s ≡ done v))
      ⊎ ((r : String) × (m : String) × (s ≡ refused r m))
Step-cases unknown = inl refl
Step-cases (ask m) = inr (inl (m, refl))
Step-cases (done v) = inr (inr (inl (v, refl)))
Step-cases (refused r m) = inr (inr (inr (r, m, refl)))
