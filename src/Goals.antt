-- ===== src/Goals.antt =====
-- Goals, their milestones and tasks: the rows of backend/app/models/goal.py, goal_milestone.py and
-- task.py, and the partial updates of backend/app/schemas/goal.py and task.py. An `agent_context` is
-- kept as its text.
pub mod Service
pub mod Milestones
pub mod Tasks
pub mod Requests
pub mod Stamps
pub mod Completion
pub mod Distinct
pub mod Progress
use gummy_os.Common.{ℕ, String, Text, Bool, true, false, List, Option, none, some, Result, ok, err}
use gummy_os.Models.{GoalStatus, GoalPriority, TaskStatus}
use gummy_os.Tools.{Value}

pub record Goal : Type 0 where
  pub id : ℕ
  pub user_id : ℕ
  pub title : Text
  pub description : Option Text
  pub category : Option Text
  pub status : GoalStatus
  pub priority : GoalPriority
  pub agent_context : String
  pub progress_percentage : ℕ
  pub target_date : Option ℕ
  pub completed_at : Option ℕ

pub record GoalMilestone : Type 0 where
  pub id : ℕ
  pub user_id : ℕ
  pub goal_id : ℕ
  pub title : Text
  pub completed : Bool
  pub completed_at : Option ℕ
  pub order_index : ℕ

pub record Task : Type 0 where
  pub id : ℕ
  pub user_id : ℕ
  pub goal_id : Option ℕ
  pub agent_key : Option String
  pub agent_run_id : Option ℕ
  pub title : Text
  pub status : TaskStatus
  pub seq : ℕ
  pub result_ref : Option Value

-- The three tables and the next fresh id.
pub record Db : Type 0 where
  pub goals : List Goal
  pub milestones : List GoalMilestone
  pub tasks : List Task
  pub next_id : ℕ

-- A field of a partial update: not given, given as null, or given with a value.
pub data Change (A : Type 0) : Type 0 where
  unset : Change A
  null : Change A
  to : A → Change A

unfoldable pub is_set : {A : Type 0} → Change A → Bool
is_set unset = false
is_set null = true
is_set (to a) = true

unfoldable pub is_null : {A : Type 0} → Change A → Bool
is_null null = true
is_null unset = false
is_null (to a) = false

-- `setattr` on a column that may be null.
unfoldable pub set_nullable : {A : Type 0} → Change A → Option A → Option A
set_nullable unset old = old
set_nullable null old = none
set_nullable (to a) old = some a

-- `setattr` on a column that may not be null, in a row that the commit accepts.
unfoldable pub set_required : {A : Type 0} → Change A → A → A
set_required unset old = old
set_required null old = old
set_required (to a) old = a

-- The errors of the three services; `integrity_error` is the commit's on a null in a column that may
-- not be null, and `attribute_error` that of reading the value of a null status.
pub data GoalError : Type 0 where
  goal_not_found : (goal_id : ℕ) → GoalError
  milestone_not_found : (milestone_id : ℕ) → GoalError
  task_not_found : (task_id : ℕ) → GoalError
  empty_update : GoalError
  invalid_task_transition : (current target : TaskStatus) → GoalError
  integrity_error : GoalError
  attribute_error : GoalError
