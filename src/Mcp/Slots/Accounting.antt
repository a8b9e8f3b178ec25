-- ===== src/Mcp/Slots/Accounting.antt =====
-- The permits, the cap and the calls that run (src/mcp/service.rs, `CallSlots`).
use litellm_relay.Common.{ℕ, ◌+◌, ◌-◌, ◌≤◌, ◌<◌, ◌≡◌, ◌↔◌, some, arith}
use litellm_relay.Mcp.Slots.{CallSlots, new, resize, acquire, release, return_permit}

-- What can happen to the slots: a change of the settings, at a moment that `may_resize` allows, a call
-- that starts, one that ends, and a permit of an ended call that goes back.
pub data Step (max_permits : ℕ) (may_resize : CallSlots → Type 0) (s t : CallSlots) : Type 0 where
  resizes :
      (cap : ℕ) → may_resize s → t ≡ resize max_permits cap s → Step max_permits may_resize s t
  starts : acquire s ≡ some t → Step max_permits may_resize s t
  ends : 0 < s.running → t ≡ release s → Step max_permits may_resize s t
  returns : 0 < s.returning → t ≡ return_permit s → Step max_permits may_resize s t

pub data Reach (max_permits : ℕ) (may_resize : CallSlots → Type 0) (s : CallSlots)
    : CallSlots → Type 0 where
  here : Reach max_permits may_resize s s
  next :
      {t u : CallSlots}
      → Reach max_permits may_resize s t
      → Step max_permits may_resize t u
      → Reach max_permits may_resize s u

-- At any moment, and only while no permit of an ended call is on its way back.
abbrev pub Anytime : CallSlots → Type 0
Anytime s = Unit

abbrev pub BetweenReturns : CallSlots → Type 0
BetweenReturns s = s.returning ≡ 0

pub record IsBalanced (max_permits : ℕ) (s : CallSlots) : Type 0 where
  pub permits : s.available + s.returning + s.running ≡ s.cap + s.owed
  pub bounded : s.cap ≤ max_permits

pub record IsExact (s : CallSlots) : Type 0 where
  pub free : s.available ≡ s.cap - (s.running + s.returning)
  pub debt : s.owed ≡ s.running + s.returning - s.cap
  pub paid_first : (0 < s.owed → s.returning ≡ 0)

module _ (max_permits : ℕ) where
  resize-IsBalanced :
      (cap : ℕ) (s : CallSlots)
      → IsBalanced max_permits s
      → IsBalanced max_permits (resize max_permits cap s)
  unfolding resize
  resize-IsBalanced cap s v = ground arith

  Step-IsBalanced :
      {may_resize : CallSlots → Type 0} {s t : CallSlots}
      → Step max_permits may_resize s t
      → IsBalanced max_permits s
      → IsBalanced max_permits t
  unfolding acquire release return_permit
  Step-IsBalanced {s = s} (resizes cap m e) v = rw e (resize-IsBalanced cap s v)
  Step-IsBalanced (starts e) v = ground arith
  Step-IsBalanced {s = s} {t = t} (ends h e) v = rw e (ground arith)
  Step-IsBalanced (returns h e) v = rw e (ground arith)

  -- However calls start and end while the cap is changed, and wherever a change falls between the two
  -- halves of a call's end, no permit is lost or made up: the permits that are free, on their way back or
  -- held by calls are together the cap and the permits still owed. The cap is within the semaphore's bound.
  pub Reach-IsBalanced :
      (cap : ℕ) {s : CallSlots}
      → Reach max_permits Anytime (new max_permits cap) s
      → IsBalanced max_permits s
  unfolding new
  Reach-IsBalanced cap here = record { permits = omega arith; bounded = omega arith }
  Reach-IsBalanced cap (next r st) = Step-IsBalanced st (Reach-IsBalanced cap r)

  resize-IsExact :
      (cap : ℕ) (s : CallSlots) → s.returning ≡ 0 → IsExact s → IsExact (resize max_permits cap s)
  unfolding resize
  resize-IsExact cap s m v = ground arith

  Step-IsExact : {s t : CallSlots} → Step max_permits BetweenReturns s t → IsExact s → IsExact t
  unfolding acquire release return_permit
  Step-IsExact {s = s} (resizes cap m e) v = rw e (resize-IsExact cap s m v)
  Step-IsExact (starts e) v = ground arith
  Step-IsExact (ends h e) v = rw e (ground arith)
  Step-IsExact (returns h e) v = rw e (ground arith)

  Reach-IsExact :
      (cap : ℕ) {s : CallSlots}
      → Reach max_permits BetweenReturns (new max_permits cap) s
      → IsExact s
  unfolding new
  Reach-IsExact cap here = record {
    free = omega arith;
    debt = omega arith;
    paid_first = λ h. omega arith;
  }
  Reach-IsExact cap (next r st) = Step-IsExact st (Reach-IsExact cap r)

  -- If the cap is only changed while no permit of an ended call is on its way back, a call can start exactly
  -- while the calls that run and the permits on their way back are together fewer than the cap.
  pub acquire_iff :
      (cap : ℕ) {s : CallSlots}
      → Reach max_permits BetweenReturns (new max_permits cap) s
      → ((t : CallSlots) × (acquire s ≡ some t)) ↔ (s.running + s.returning < s.cap)
  unfolding acquire
  acquire_iff cap {s} r =
      let v = Reach-IsExact cap r in
      (
        λ (t, e). ground arith,
        λ h. (record s { available = s.available - 1; running = s.running + 1 }, ground arith),
      )
