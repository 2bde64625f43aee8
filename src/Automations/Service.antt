-- ===== src/Automations/Service.antt =====
-- backend/app/services/automation/automation_service.py: the lifecycle of an automation, and its
-- firing.
use gummy_os.Common.{
  ℕ, suc, Text, codes, strip, Bool, true, false, List, [], ◌∷◌, ◌++◌, Option, none, some, leb, take,
  if◌then◌else◌, Result, ok, err,
}
use gummy_os.Models.{AutomationKind, AutomationSchedule, AutomationStatus, AutomationRunStatus}
use gummy_os.Tools.Values.{get_field, truthy}
use gummy_os.Tools.{Value, str, obj, Fields, end}
use gummy_os.Automations.{Automation, AutomationRun, Db}
use gummy_os.Automations.Repository.{
  create_automation, get_automation, is_active, list_due, claim_run, finish_run, delete_automation,
  save,
}
use gummy_os.Automations.Schedule.{next_occurrence}

-- `MAX_CONSECUTIVE_FAILURES`
abbrev pub max_consecutive_failures : ℕ
max_consecutive_failures = 3

-- `SCHEDULER_BATCH_SIZE`
abbrev pub scheduler_batch_size : ℕ
scheduler_batch_size = 20

pub data AutomationNotFoundError : Type 0 where
  automation_not_found : (automation_id : ℕ) → AutomationNotFoundError

unfoldable pub create :
    (user_id : ℕ) (name : Text)
    → AutomationKind
    → AutomationSchedule
    → (run_at : ℕ) (description : Option Text) (payload : Value) → Db
    → Automation × Db
unfolding create_automation strip
create user_id name kind schedule run_at description payload db =
    create_automation user_id (take 200 (strip name)) description kind schedule (some run_at)
      payload db

unfoldable pub get : (user_id automation_id : ℕ) → Db → Result AutomationNotFoundError Automation
unfolding get_automation
get user_id automation_id db = elim (get_automation automation_id user_id db) [
  | none ↦ err (automation_not_found automation_id)
  | some a ↦ ok a
]

-- The new slot and status of an automation that is resumed at `now`.
unfoldable pub resume : (now : ℕ) → Automation → Automation
resume now a =
    let active = record a {
      enabled = true;
      status = AutomationStatus.active;
      failure_count = 0;
      last_error = none;
    } in
    elim a.next_run_at [
      | none ↦ active
      | some n ↦
          if leb n now
          then elim (next_occurrence a.schedule now n) [
            | none ↦ record active { next_run_at = none; status = AutomationStatus.completed }
            | some next ↦ record active { next_run_at = some next }
          ]
          else active
    ]

unfoldable pub set_enabled :
    (user_id automation_id : ℕ) (enabled : Bool) (now : ℕ)
    → Db
    → Result AutomationNotFoundError (Automation × Db)
unfolding get resume save
set_enabled user_id automation_id enabled now db = elim (get user_id automation_id db) [
  | err e ↦ err e
  | ok a ↦
      let changed =
        if enabled
        then resume now a
        else record a { enabled = false; status = AutomationStatus.paused } in
      ok (changed, save changed db)
]

unfoldable pub delete : (user_id automation_id : ℕ) → Db → Result AutomationNotFoundError Db
unfolding get delete_automation
delete user_id automation_id db = elim (get user_id automation_id db) [
  | err e ↦ err e
  | ok a ↦ ok (delete_automation a db)
]

-- `description or name`
unfoldable note_of : Automation → Text
note_of a = elim a.description [ none ↦ a.name | some [] ↦ a.name | some (c ∷ s) ↦ c ∷ s ]

-- The body's outcome on the automation: a success clears the failures, a failure counts, and the
-- third in a row parks the automation.
unfoldable pub note_outcome : Result Text Text → Automation → Automation
note_outcome outcome a = elim outcome [
  | ok output ↦ record a { failure_count = 0; last_error = none }
  | err exc ↦
      let failed = record a {
        failure_count = suc a.failure_count;
        last_error = some (take 500 exc);
      } in
      if leb max_consecutive_failures (suc a.failure_count)
      then record failed { status = AutomationStatus.failed; enabled = false }
      else failed
]

-- The schedule moves on, whether the body succeeded or failed.
unfoldable pub advance : (now slot : ℕ) → Automation → Automation
unfolding is_active
advance now slot a =
    let moved = record a {
      last_run_at = some now;
      next_run_at = next_occurrence a.schedule now slot;
    } in
    elim (next_occurrence a.schedule now slot) [
      | some next ↦ moved
      | none ↦
          if is_active a.status
          then record moved { status = AutomationStatus.completed; enabled = false }
          else moved
    ]

-- The run's row at its end.
unfoldable pub finish : Result Text Text → AutomationRun → (now : ℕ) → Db → AutomationRun × Db
unfolding finish_run
finish outcome run now db = elim outcome [
  | ok output ↦ finish_run run AutomationRunStatus.succeeded now (some output) none db
  | err exc ↦ finish_run run AutomationRunStatus.failed now none (some (take 500 exc)) db
]

-- The slot that a firing is for.
unfoldable pub slot_or : (now : ℕ) → Automation → ℕ
slot_or now a = elim a.next_run_at [ none ↦ now | some n ↦ n ]

-- How Python reads a float's truth and prints a value that is not a text; printing can raise, with
-- a text (a number of too many digits).
module _ (float_bool : Text → Bool) (str_of : Value → Result Text Text) where
  unfoldable pub print : Value → Result Text Text
  print value = elim value [ str text ↦ ok text | v ↦ str_of v ]

  unfoldable pub render : Automation → Result Text Text
  unfolding get_field truthy note_of print
  render a =
      let payload : Fields = elim a.payload [ obj fields ↦ fields | _ ↦ end ] in
      elim a.kind [
        | AutomationKind.reminder ↦
            let message = get_field (codes "message") payload in
            let note : Result Text Text =
              if truthy float_bool message then print message else ok (note_of a) in
            elim note [ ok text ↦ ok (codes "Reminder: " ++ text) | err e ↦ err e ]
        | AutomationKind.goal_check_in ↦ ok (
            codes "Goal check-in: "
            ++ a.name
            ++ codes ". Worth a look at where this stands and what the next small step is.")
        | AutomationKind.digest ↦ ok (a.name ++ codes ": your scheduled summary is ready.")
      ]

  unfoldable pub run_once : Automation → (now : ℕ) → Db → Option AutomationRun × Db
  unfolding slot_or note_outcome advance finish save
  run_once a now db =
      let slot = slot_or now a in
      elim (claim_run a slot db) [
        | none ↦ (none, db)
        | some (run, claimed) ↦
            let outcome = render a in
            let (finished, db1) = finish outcome run now claimed in
            (some finished, save (advance now slot (note_outcome outcome a)) db1)
      ]

  -- The loop of `run_due` over the automations that were due.
  unfoldable pub run_each : List Automation → (now : ℕ) → Db → List AutomationRun × Db
  unfolding run_once
  run_each [] now db = ([], db)
  run_each (a ∷ rest) now db =
      let (run, db1) = run_once a now db in
      let (executed, db2) = run_each rest now db1 in
      (elim run [ none ↦ executed | some r ↦ r ∷ executed ], db2)

  unfoldable pub run_due : (now limit : ℕ) → Db → List AutomationRun × Db
  unfolding run_each list_due
  run_due now limit db = run_each (list_due now limit db) now db
