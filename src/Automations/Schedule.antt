-- ===== src/Automations/Schedule.antt =====
-- `next_occurrence` of backend/app/services/automation/automation_service.py.
pub mod Slots
use gummy_os.Common.{ℕ, ◌+◌, ◌-◌, ◌*◌, ◌/◌, Option, none, some, leb, if◌then◌else◌}
use gummy_os.Models.{AutomationSchedule}

-- `timedelta(days=1)` in microseconds.
abbrev pub day : ℕ
day = 86400 * 1000000

-- `step`: the recurring schedules' period.
unfoldable pub step : AutomationSchedule → ℕ
step schedule = elim schedule [ AutomationSchedule.daily ↦ day | _ ↦ 7 * day ]

-- The jump from the anchor to the first slot after `after`. `after - anchor` is at least 0 in its
-- branch, so the subtraction and the division are Python's.
unfoldable pub jump : (step after anchor : ℕ) → ℕ
jump step after anchor =
    if leb anchor after then anchor + step * ((after - anchor) / step + 1) else anchor

unfoldable pub next_occurrence : AutomationSchedule → (after anchor : ℕ) → Option ℕ
unfolding step jump
next_occurrence schedule after anchor = elim schedule [
  | AutomationSchedule.once ↦ none
  | s ↦ some (jump (step s) after anchor)
]
