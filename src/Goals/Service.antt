-- ===== src/Goals/Service.antt =====
-- backend/app/services/goals/goal_service.py and the queries it makes of
-- backend/app/repositories/goal_repository.py and milestone_repository.py. The tracing spans are left
-- out.
use gummy_os.Common.{
  ℕ, suc, String, Text, Bool, ◌&&◌, ◌||◌, not, ◌==◌, ltb, List, [], ◌∷◌, ◌++◌, find, update, filter,
  count_if, map, Option, none, some, Result, ok, err, if◌then◌else◌,
}
use gummy_os.Models.{GoalStatus, GoalPriority}
use gummy_os.Goals.{
  Goal, GoalMilestone, Task, Db, Change, unset, null, to, is_set, is_null, set_nullable,
  set_required, GoalError, goal_not_found, empty_update, integrity_error,
}

pub record GoalCreate : Type 0 where
  pub title : Text
  pub description : Option Text
  pub category : Option Text
  pub agent_context : String
  pub priority : GoalPriority
  pub progress_percentage : ℕ
  pub target_date : Option ℕ

pub record GoalUpdate : Type 0 where
  pub title : Change Text
  pub description : Change Text
  pub category : Change Text
  pub status : Change GoalStatus
  pub agent_context : Change String
  pub priority : Change GoalPriority
  pub progress_percentage : Change ℕ
  pub target_date : Change ℕ

-- The service and the repository's insert; the defaults of the columns `status` and `completed_at`
-- hold.
unfoldable pub create_goal : (user_id : ℕ) → GoalCreate → Db → Goal × Db
create_goal user_id payload db =
    let goal : Goal = record {
      id = db.next_id;
      user_id = user_id;
      title = payload.title;
      description = payload.description;
      category = payload.category;
      status = GoalStatus.active;
      priority = payload.priority;
      agent_context = payload.agent_context;
      progress_percentage = payload.progress_percentage;
      target_date = payload.target_date;
      completed_at = none;
    } in
    (goal, record db { goals = db.goals ++ goal ∷ []; next_id = suc db.next_id })

unfoldable pub get_goal : (user_id goal_id : ℕ) → Db → Result GoalError Goal
get_goal user_id goal_id db = elim (find (λ g. g.id == goal_id && g.user_id == user_id) db.goals) [
  | none ↦ err (goal_not_found goal_id)
  | some goal ↦ ok goal
]

-- What a commit writes of a changed row.
unfoldable pub save_goal : Goal → Db → Db
save_goal goal db = record db { goals = update (λ g. g.id == goal.id) (λ _. goal) db.goals }

unfoldable pub is_milestone_of : (goal_id user_id : ℕ) → GoalMilestone → Bool
is_milestone_of goal_id user_id m = m.goal_id == goal_id && m.user_id == user_id

-- `(completed, total)`
unfoldable pub completion_counts : (goal_id user_id : ℕ) → List GoalMilestone → ℕ × ℕ
unfolding is_milestone_of
completion_counts goal_id user_id milestones = (
  count_if (λ m. is_milestone_of goal_id user_id m && m.completed) milestones,
  count_if (is_milestone_of goal_id user_id) milestones,
)

unfoldable pub apply_status_side_effects : (now : ℕ) → GoalStatus → Goal → Goal
apply_status_side_effects now GoalStatus.completed goal = elim goal.completed_at [
  | none ↦ record goal { completed_at = some now }
  | some t ↦ goal
]
apply_status_side_effects now GoalStatus.active goal = record goal { completed_at = none }
apply_status_side_effects now GoalStatus.archived goal = record goal { completed_at = none }

-- `not changes`
unfoldable pub is_empty : GoalUpdate → Bool
unfolding is_set
is_empty changes = not (
    is_set changes.title
    || is_set changes.description
    || is_set changes.category
    || is_set changes.status
    || is_set changes.agent_context
    || is_set changes.priority
    || is_set changes.progress_percentage
    || is_set changes.target_date)

-- The side effects of a status that is given; one that is given as null is not `COMPLETED`.
unfoldable pub status_effects : (now : ℕ) → Change GoalStatus → Goal → Goal
unfolding apply_status_side_effects
status_effects now unset goal = goal
status_effects now null goal = record goal { completed_at = none }
status_effects now (to status) goal = apply_status_side_effects now status goal

-- A null in a column that may not be null.
unfoldable pub has_null : GoalUpdate → Change ℕ → Bool
unfolding is_null
has_null changes progress =
    is_null changes.title
    || is_null changes.status
    || is_null changes.agent_context
    || is_null changes.priority
    || is_null progress

-- The `setattr` loop.
unfoldable pub apply_changes : GoalUpdate → Change ℕ → Goal → Goal
unfolding set_nullable set_required
apply_changes changes progress goal = record goal {
  title = set_required changes.title goal.title;
  description = set_nullable changes.description goal.description;
  category = set_nullable changes.category goal.category;
  status = set_required changes.status goal.status;
  agent_context = set_required changes.agent_context goal.agent_context;
  priority = set_required changes.priority goal.priority;
  progress_percentage = set_required progress goal.progress_percentage;
  target_date = set_nullable changes.target_date goal.target_date;
}

-- `changes["progress_percentage"]`, dropped where the goal has milestones.
unfoldable pub manual_progress : GoalUpdate → Goal → Db → Change ℕ
unfolding completion_counts
manual_progress changes goal db =
    if ltb 0 (completion_counts goal.id goal.user_id db.milestones).1
    then unset
    else changes.progress_percentage

unfoldable pub update_goal :
    (user_id goal_id : ℕ) → GoalUpdate → (now : ℕ) → Db → Result GoalError (Goal × Db)
unfolding is_empty get_goal status_effects manual_progress has_null apply_changes save_goal
update_goal user_id goal_id changes now db =
    if is_empty changes then err empty_update else elim (get_goal user_id goal_id db) [
      | err e ↦ err e
      | ok goal ↦
          let progress = manual_progress changes goal db in
          let changed = apply_changes changes progress (status_effects now changes.status goal) in
          if has_null changes progress
          then err integrity_error
          else ok (changed, save_goal changed db)
    ]

-- `complete_goal` and `archive_goal`.
unfoldable pub move_goal :
    GoalStatus → (user_id goal_id now : ℕ) → Db → Result GoalError (Goal × Db)
unfolding get_goal apply_status_side_effects save_goal
move_goal status user_id goal_id now db = elim (get_goal user_id goal_id db) [
  | err e ↦ err e
  | ok goal ↦
      let moved = apply_status_side_effects now status (record goal { status = status }) in
      ok (moved, save_goal moved db)
]

unfoldable pub complete_goal : (user_id goal_id now : ℕ) → Db → Result GoalError (Goal × Db)
unfolding move_goal
complete_goal = move_goal GoalStatus.completed

unfoldable pub archive_goal : (user_id goal_id now : ℕ) → Db → Result GoalError (Goal × Db)
unfolding move_goal
archive_goal = move_goal GoalStatus.archived

-- `ON DELETE SET NULL` on a task's goal.
unfoldable forget_goal : (goal_id : ℕ) → Task → Task
forget_goal goal_id task = elim task.goal_id [
  | none ↦ task
  | some g ↦ if g == goal_id then record task { goal_id = none } else task
]

unfoldable pub delete_goal : (user_id goal_id : ℕ) → Db → Result GoalError Db
unfolding get_goal forget_goal
delete_goal user_id goal_id db = elim (get_goal user_id goal_id db) [
  | err e ↦ err e
  | ok goal ↦ ok (record db {
    goals = filter (λ g. not (g.id == goal.id)) db.goals;
    milestones = filter (λ m. not (m.goal_id == goal.id)) db.milestones;
    tasks = map (forget_goal goal.id) db.tasks;
  })
]

-- `round(completed / total * 100)` is arithmetic on doubles, and a parameter.
unfoldable pub recompute_progress :
    (percent : ℕ → ℕ → ℕ) → (user_id : ℕ) → Goal → List GoalMilestone → Goal
unfolding completion_counts
recompute_progress percent user_id goal milestones =
    let (completed, total) = completion_counts goal.id user_id milestones in
    if ltb 0 total then record goal { progress_percentage = percent completed total } else goal
