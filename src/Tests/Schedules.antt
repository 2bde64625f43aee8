-- ===== src/Tests/Schedules.antt =====
-- backend/app/services/automation/automation_service.py at one daily reminder.
use gummy_os.Common.{
  ◌+◌, ◌*◌, ◌≤◌, Text, codes, count_if, Bool, true, false, List, [], ◌∷◌, none, some, Result, err,
  ◌≡◌, refl, arith,
}
use gummy_os.Models.{AutomationKind, AutomationSchedule, AutomationStatus}
use gummy_os.Tools.{Value, null}
use gummy_os.Automations.{Automation, Db}
use gummy_os.Automations.Repository.{is_claim, is_due, claim_run}
use gummy_os.Automations.Schedule.{day, next_occurrence}
use gummy_os.Automations.Schedule.Slots.{IsNextSlot, next_occurrence-IsNextSlot}
use gummy_os.Automations.Service.{run_once, render}
use gummy_os.Automations.Claims.{Event, created, toggled, ticked, worker, serve, slot_fires_once}
use gummy_os.Automations.Invariant.{IsConsistent}
use gummy_os.Automations.Lifecycle.{serve-IsConsistent}
use gummy_os.Automations.Liveness.{IsFired, run_once-IsFired}

-- A run missed by three days and a bit is followed by the slot of the fourth.
missed_days : next_occurrence AutomationSchedule.daily (3 * day + 100) 40 ≡ some (4 * day + 40)
unfolding next_occurrence
missed_days = refl

-- A slot at the very instant is in the past.
this_instant : next_occurrence AutomationSchedule.weekly 40 40 ≡ some (7 * day + 40)
unfolding next_occurrence
this_instant = refl

next_occurrence-IsNextSlot_example :
    IsNextSlot AutomationSchedule.daily (3 * day + 100) 40 (4 * day + 40) 5
unfolding next_occurrence
next_occurrence-IsNextSlot_example =
    next_occurrence-IsNextSlot AutomationSchedule.daily (3 * day + 100) 40 (4 * day + 40) 5 refl
      (omega arith)

-- No float is printed or tested in these runs.
abbrev float_bool : Text → Bool
float_bool literal = true

abbrev str_of : Value → Result Text Text
str_of value = err (codes "unprintable")

abbrev empty : Db
empty = record { automations = []; runs = []; next_id = 0 }

abbrev reminder : Automation
reminder = record {
  id = 0;
  user_id = 1;
  name = codes "tea";
  description = none;
  kind = AutomationKind.reminder;
  schedule = AutomationSchedule.daily;
  status = AutomationStatus.active;
  enabled = true;
  next_run_at = some 40;
  last_run_at = none;
  last_error = none;
  failure_count = 0;
  payload = null;
}

abbrev one_reminder : Db
one_reminder = record { automations = reminder ∷ []; runs = []; next_id = 1 }

-- The reminder is made, fires, fires again from rows that were read before, and is paused.
abbrev events : List Event
events =
    created 1 (codes "tea") AutomationKind.reminder AutomationSchedule.daily 40 none null
    ∷ ticked 100
    ∷ worker (reminder ∷ []) 101
    ∷ toggled 1 0 false 102
    ∷ []

slot_fires_once_example : count_if (is_claim 0 40) (serve float_bool str_of events empty).runs ≤ 1
slot_fires_once_example = slot_fires_once float_bool str_of events empty 0 40 refl

-- The one slot did fire.
one_run : count_if (is_claim 0 40) (serve float_bool str_of events empty).runs ≡ 1
unfolding serve is_claim claim_run render next_occurrence
one_run = refl

abbrev fresh_events : List Event
fresh_events =
    created 1 (codes "tea") AutomationKind.reminder AutomationSchedule.daily 40 none null
    ∷ ticked 100
    ∷ toggled 1 0 true 102
    ∷ []

empty-IsConsistent : IsConsistent empty
empty-IsConsistent = record { behind = tt; patient = tt; known = tt; owned = tt }

serve-IsConsistent_example : IsConsistent (serve float_bool str_of fresh_events empty)
serve-IsConsistent_example =
    serve-IsConsistent float_bool str_of fresh_events empty (refl, (refl, (refl, tt)))
      empty-IsConsistent

one_reminder-IsConsistent : IsConsistent one_reminder
one_reminder-IsConsistent = record {
  behind = (tt, tt);
  patient = (refl, tt);
  known = (omega arith, tt);
  owned = tt;
}

run_once-IsFired_example :
    IsFired float_bool str_of 100 reminder one_reminder
      (run_once float_bool str_of reminder 100 one_reminder).1
      (run_once float_bool str_of reminder 100 one_reminder).0
unfolding is_due
run_once-IsFired_example =
    run_once-IsFired float_bool str_of 100 reminder one_reminder one_reminder-IsConsistent refl refl

-- A one-off that ran is completed; resuming it makes it active and enabled, with no slot to fire at.
abbrev one_off : List Event
one_off =
    created 1 (codes "tea") AutomationKind.reminder AutomationSchedule.once 40 none null
    ∷ ticked 100
    ∷ toggled 1 0 true 102
    ∷ []

resumed_one_off :
    (serve float_bool str_of one_off empty).automations
    ≡ record reminder {
      schedule = AutomationSchedule.once;
      next_run_at = none;
      last_run_at = some 100;
    }
      ∷ []
unfolding serve claim_run render next_occurrence
resumed_one_off = refl
