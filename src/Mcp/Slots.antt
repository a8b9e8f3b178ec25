-- ===== src/Mcp/Slots.antt =====
-- src/mcp/service.rs, `CallSlots`: how many tool calls may run at once. The semaphore is tokio's, as
-- its documentation states it: `available` counts its free permits, `add_permits n` adds n of them,
-- `forget_permits n` takes away n or as many as there are and returns how many, `acquire_owned` waits
-- for one and takes it, and a permit that is dropped goes back while a permit that is forgotten does
-- not. `max_permits` is `Semaphore::MAX_PERMITS`.
pub mod Accounting
pub mod Tests
use litellm_relay.Common.{ℕ, zero, suc, ◌+◌, ◌-◌, min, Option, none, some, if◌then◌else◌, ltb, eq_ℕ}

pub record SlotLedger : Type 0 where
  pub cap : ℕ
  pub owed : ℕ

-- The slots, with the number of `CallSlot`s that were handed out and not dropped yet, and that of the
-- permits of ended calls that are still to go back to the semaphore.
pub record CallSlots : Type 0 where
  pub available : ℕ
  pub ledger : SlotLedger
  pub open ledger use *
  pub running : ℕ
  pub returning : ℕ

-- Semaphore::add_permits
abbrev add_permits : ℕ → CallSlots → CallSlots
add_permits n s = record s { available = s.available + n }

-- Semaphore::forget_permits: how many were taken away, and what is left.
abbrev forget_permits : ℕ → CallSlots → ℕ × CallSlots
forget_permits n s =
    let taken = min n s.available in (taken, record s { available = s.available - taken })

module _ (max_permits : ℕ) where
  pub new : ℕ → CallSlots
  new cap =
      let bounded = min cap max_permits in
      record {
        available = bounded;
        ledger = record { cap = bounded; owed = 0 };
        running = 0;
        returning = 0;
      }

  grow : ℕ → CallSlots → CallSlots
  grow bounded s =
      let added = bounded - s.cap in
      let repaid = min added s.owed in
      add_permits (added - repaid)
        (record s { ledger = record { cap = s.cap; owed = s.owed - repaid } })

  shrink : ℕ → CallSlots → CallSlots
  shrink bounded s =
      let removed = s.cap - bounded in
      let (forgotten, t) = forget_permits removed s in
      record t { ledger = record { cap = s.cap; owed = s.owed + (removed - forgotten) } }

  pub resize : ℕ → CallSlots → CallSlots
  unfolding grow shrink
  resize cap s =
      let bounded = min cap max_permits in
      let t = if ltb s.cap bounded then grow bounded s else s in
      let u = if ltb bounded t.cap then shrink bounded t else t in
      record u { ledger = record { cap = bounded; owed = u.owed } }

-- `none` while no permit is free: the caller waits.
pub acquire : CallSlots → Option CallSlots
acquire s =
    if eq_ℕ s.available 0
    then none
    else some (record s { available = s.available - 1; running = s.running + 1 })

-- Drop for CallSlot, under the lock of the ledger: a debt is paid with the permit, or the permit is left to
-- be dropped.
pub release : CallSlots → CallSlots
release s =
    if eq_ℕ s.owed 0
    then record s { running = s.running - 1; returning = s.returning + 1 }
    else record s { ledger = record { cap = s.cap; owed = s.owed - 1 }; running = s.running - 1 }

-- The end of that drop, where the ledger is unlocked already: the permit that is left is dropped.
pub return_permit : CallSlots → CallSlots
return_permit s = record s { available = s.available + 1; returning = s.returning - 1 }
