-- ===== src/Mcp/Slots/Tests.antt =====
-- Runs of `CallSlots` (src/mcp/service.rs).
use litellm_relay.Common.{ℕ, ◌+◌, ◌<◌, ◌≡◌, ◌↔◌, refl, some, arith}
use litellm_relay.Mcp.Slots.{CallSlots, new, resize, acquire, release, return_permit}
use litellm_relay.Mcp.Slots.Accounting.{
  IsBalanced, Reach, here, next, resizes, starts, ends, returns, Anytime, BetweenReturns,
  Reach-IsBalanced, acquire_iff,
}

abbrev slots : (available cap owed running returning : ℕ) → CallSlots
slots available cap owed running returning = record {
  available = available;
  ledger = record { cap = cap; owed = owed };
  running = running;
  returning = returning;
}

-- Two calls run when the cap falls from 2 to 1, and one of them ends.
one_left_is_reached : Reach 100 BetweenReturns (new 100 2) (slots 0 1 0 1 0)
unfolding new resize acquire release
one_left_is_reached =
    next
      (next {t = slots 0 2 0 2 0} {u = slots 0 1 1 2 0}
        (next {t = slots 1 2 0 1 0} (next here (starts refl)) (starts refl)) (resizes 1 refl refl))
      (ends (omega arith) refl)

-- Two calls run, one of them ends, and the cap falls from 2 to 1 before its permit is back: a call starts
-- then although one runs already.
above_the_cap_is_reached : Reach 100 Anytime (new 100 2) (slots 0 1 1 2 0)
unfolding new resize acquire release return_permit
above_the_cap_is_reached =
    next {t = slots 1 1 1 1 0}
      (next {t = slots 0 1 1 1 1}
        (next {t = slots 0 2 0 1 1}
          (next {t = slots 0 2 0 2 0}
            (next {t = slots 1 2 0 1 0} (next here (starts refl)) (starts refl))
            (ends (omega arith) refl))
          (resizes 1 tt refl))
        (returns (omega arith) refl))
      (starts refl)

Reach-IsBalanced_example : IsBalanced 100 (slots 0 1 1 2 0)
Reach-IsBalanced_example = Reach-IsBalanced 100 2 above_the_cap_is_reached

acquire_iff_example : ((t : CallSlots) × (acquire (slots 0 1 0 1 0) ≡ some t)) ↔ (1 + 0 < 1)
acquire_iff_example = acquire_iff 100 2 one_left_is_reached
