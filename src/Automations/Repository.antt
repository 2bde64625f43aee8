-- ===== src/Automations/Repository.antt =====
-- backend/app/repositories/automation_repository.py, over the tables as lists of rows.
use gummy_os.Common.{
  ℕ, ◌+◌, Text, Bool, true, false, List, [], ◌∷◌, ◌++◌, Option, none, some, ◌==◌, ◌&&◌, not, leb,
  any, find, update, filter, take, if◌then◌else◌,
}
use gummy_os.Models.{AutomationKind, AutomationSchedule, AutomationStatus, AutomationRunStatus}
use gummy_os.Tools.{Value}
use gummy_os.Automations.{Automation, AutomationRun, Db}

-- The defaults of the columns `status`, `enabled` and `failure_count` hold for a new row.
unfoldable pub create_automation :
    (user_id : ℕ) (name : Text) (description : Option Text)
    → AutomationKind
    → AutomationSchedule
    → (next_run_at : Option ℕ) (payload : Value) → Db
    → Automation × Db
create_automation user_id name description kind schedule next_run_at payload db =
    let automation : Automation = record {
      id = db.next_id;
      user_id = user_id;
      name = name;
      description = description;
      kind = kind;
      schedule = schedule;
      status = AutomationStatus.active;
      enabled = true;
      next_run_at = next_run_at;
      last_run_at = none;
      last_error = none;
      failure_count = 0;
      payload = payload;
    } in
    (
      automation,
      record db { automations = db.automations ++ automation ∷ []; next_id = db.next_id + 1 },
    )

unfoldable pub get_automation : (automation_id user_id : ℕ) → Db → Option Automation
get_automation automation_id user_id db =
    find (λ a. a.id == automation_id && a.user_id == user_id) db.automations

unfoldable pub is_active : AutomationStatus → Bool
is_active status = elim status [ AutomationStatus.active ↦ true | _ ↦ false ]

-- The `where` clause of `list_due`.
unfoldable pub is_due : (now : ℕ) → Automation → Bool
unfolding is_active
is_due now a =
    a.enabled && is_active a.status && elim a.next_run_at [ none ↦ false | some n ↦ leb n now ]

-- `next_run_at` of a due row, which has one.
unfoldable pub slot_of : Automation → ℕ
slot_of a = elim a.next_run_at [ none ↦ 0 | some n ↦ n ]

-- `order_by(next_run_at)`. The database may order rows of one time as it likes; here they keep the
-- order of the table.
unfoldable pub insert_by_slot : Automation → List Automation → List Automation
unfolding slot_of
insert_by_slot a [] = a ∷ []
insert_by_slot a (b ∷ rest) =
    let later = insert_by_slot a rest in
    if leb (slot_of a) (slot_of b) then a ∷ b ∷ rest else b ∷ later

unfoldable pub order_by_slot : List Automation → List Automation
unfolding insert_by_slot
order_by_slot [] = []
order_by_slot (a ∷ rest) = insert_by_slot a (order_by_slot rest)

unfoldable pub list_due : (now limit : ℕ) → Db → List Automation
unfolding order_by_slot is_due
list_due now limit db = take limit (order_by_slot (filter (is_due now) db.automations))

-- The key of `uq_automation_runs_automation_id_scheduled_for`.
unfoldable pub is_claim : (automation_id scheduled_for : ℕ) → AutomationRun → Bool
is_claim automation_id scheduled_for run =
    run.automation_id == automation_id && run.scheduled_for == scheduled_for

-- The insert fails on the unique key, and on the foreign key of a deleted automation; the
-- savepoint then leaves the tables as they were.
unfoldable pub claim_run : Automation → (scheduled_for : ℕ) → Db → Option (AutomationRun × Db)
unfolding is_claim
claim_run automation scheduled_for db =
    let run : AutomationRun = record {
      id = db.next_id;
      automation_id = automation.id;
      user_id = automation.user_id;
      scheduled_for = scheduled_for;
      status = AutomationRunStatus.running;
      finished_at = none;
      output = none;
      error = none;
    } in
    if any (is_claim automation.id scheduled_for) db.runs
    then none
    else if not (any (λ (a : Automation). a.id == automation.id) db.automations)
    then none
    else some (run, record db { runs = db.runs ++ run ∷ []; next_id = db.next_id + 1 })

-- The row with `finish_run`'s assignments.
unfoldable pub ended :
    AutomationRunStatus
    → (finished_at : ℕ) (output error : Option Text) → AutomationRun
    → AutomationRun
ended status finished_at output error run = record run {
  status = status;
  finished_at = some finished_at;
  output = output;
  error = error;
}

unfoldable pub finish_run :
    AutomationRun
    → AutomationRunStatus
    → (finished_at : ℕ) (output error : Option Text) → Db
    → AutomationRun × Db
unfolding ended
finish_run run status finished_at output error db = (
  ended status finished_at output error run,
  record db { runs = update (λ r. r.id == run.id) (ended status finished_at output error) db.runs },
)

-- The rows of `automation_runs` go by the foreign key's cascade.
unfoldable pub delete_automation : Automation → Db → Db
delete_automation automation db = record db {
  automations = filter (λ a. not (a.id == automation.id)) db.automations;
  runs = filter (λ r. not (r.automation_id == automation.id)) db.runs;
}

-- What a commit writes of a changed row.
unfoldable pub save : Automation → Db → Db
save automation db = record db {
  automations = update (λ a. a.id == automation.id) (λ _. automation) db.automations;
}
