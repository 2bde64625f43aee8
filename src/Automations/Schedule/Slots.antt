-- ===== src/Automations/Schedule/Slots.antt =====
-- Where the next slot of a recurring schedule lies.
use mathlib.Core.Path.{subst}
use gummy_os.Common.{ℕ, ◌+◌, ◌-◌, ◌/◌, ◌*◌, ◌≤◌, ◌<◌, ◌≡◌, some, arith, leb, Bool-cases, inl, inr}
use gummy_os.Models.{AutomationSchedule}
use gummy_os.Automations.Schedule.{day, step, jump, next_occurrence}

-- The first slot after `after`, of the slots that lie a whole number of steps behind the anchor:
-- it is one of them, it is strictly after `after`, and no other one after `after` is earlier.
pub record IsNextSlot (schedule : AutomationSchedule) (after anchor next other : ℕ) : Type 0 where
  pub is_after : after < next
  pub is_first : next ≤ anchor + step schedule * other
  pub steps : ℕ
  pub is_slot : next ≡ anchor + step schedule * steps

-- The jump of one period. The arithmetic is linear only at a given period.
daily-jump :
    (after anchor k : ℕ)
    → after < anchor + day * k
    → IsNextSlot AutomationSchedule.daily after anchor (jump day after anchor) k
unfolding step jump
daily-jump after anchor k h = elim (Bool-cases (leb anchor after)) [
  | inl due ↦ record {
    is_after = ground arith;
    is_first = ground arith;
    steps = (after - anchor) / day + 1;
    is_slot = ground arith;
  }
  | inr early ↦ record {
    is_after = ground arith;
    is_first = ground arith;
    steps = 0;
    is_slot = ground arith;
  }
]

weekly-jump :
    (after anchor k : ℕ)
    → after < anchor + 7 * day * k
    → IsNextSlot AutomationSchedule.weekly after anchor (jump (7 * day) after anchor) k
unfolding step jump
weekly-jump after anchor k h = elim (Bool-cases (leb anchor after)) [
  | inl due ↦ record {
    is_after = ground arith;
    is_first = ground arith;
    steps = (after - anchor) / (7 * day) + 1;
    is_slot = ground arith;
  }
  | inr early ↦ record {
    is_after = ground arith;
    is_first = ground arith;
    steps = 0;
    is_slot = ground arith;
  }
]

-- The next occurrence of a daily or weekly schedule is strictly after `after`, is a whole number of
-- steps after the anchor, and is the first such: every slot `anchor + step * k` that is after
-- `after` is no earlier.
pub next_occurrence-IsNextSlot :
    (schedule : AutomationSchedule) (after anchor next k : ℕ)
    → next_occurrence schedule after anchor ≡ some next
    → after < anchor + step schedule * k
    → IsNextSlot schedule after anchor next k
unfolding next_occurrence step
next_occurrence-IsNextSlot AutomationSchedule.once after anchor next k e h = cc
next_occurrence-IsNextSlot AutomationSchedule.daily after anchor next k e h =
    let same : jump day after anchor ≡ next = ground arith in
    subst (λ n. IsNextSlot AutomationSchedule.daily after anchor n k) same
      (daily-jump after anchor k h)
next_occurrence-IsNextSlot AutomationSchedule.weekly after anchor next k e h =
    let same : jump (7 * day) after anchor ≡ next = ground arith in
    subst (λ n. IsNextSlot AutomationSchedule.weekly after anchor n k) same
      (weekly-jump after anchor k h)
