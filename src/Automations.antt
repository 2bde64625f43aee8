-- ===== src/Automations.antt =====
-- The rows of backend/app/models/automation.py. An instant is a number of microseconds, counted
-- from the first instant that a `datetime` can hold; a naive `datetime` stands for the same instant
-- in UTC (`_utc`). Instants are far enough from the last one that a week can be added.
pub mod Repository
pub mod Schedule
pub mod Service
pub mod Scheduler
pub mod Claims
pub mod Invariant
pub mod Firing
pub mod Lifecycle
pub mod Liveness
use gummy_os.Common.{ℕ, Text, Bool, List, Option}
use gummy_os.Models.{AutomationKind, AutomationSchedule, AutomationStatus, AutomationRunStatus}
use gummy_os.Tools.{Value}

pub record Automation : Type 0 where
  pub id : ℕ
  pub user_id : ℕ
  pub name : Text
  pub description : Option Text
  pub kind : AutomationKind
  pub schedule : AutomationSchedule
  pub status : AutomationStatus
  pub enabled : Bool
  pub next_run_at : Option ℕ
  pub last_run_at : Option ℕ
  pub last_error : Option Text
  pub failure_count : ℕ
  pub payload : Value

pub record AutomationRun : Type 0 where
  pub id : ℕ
  pub automation_id : ℕ
  pub user_id : ℕ
  pub scheduled_for : ℕ
  pub status : AutomationRunStatus
  pub finished_at : Option ℕ
  pub output : Option Text
  pub error : Option Text

-- The two tables and the next fresh id.
pub record Db : Type 0 where
  pub automations : List Automation
  pub runs : List AutomationRun
  pub next_id : ℕ
