-- ===== src/Goals/Tasks.antt =====
-- backend/app/services/agents/task_service.py, with the insert and the read of
-- backend/app/repositories/task_repository.py. A flush and a commit write the same row.
pub mod Requests
pub mod Terminal
use gummy_os.Common.{
  ℕ, suc, ◌+◌, String, Text, Bool, true, false, ◌&&◌, ◌||◌, not, ◌==◌, List, [], ◌∷◌, ◌++◌, find,
  update, Option, none, some, Result, ok, err, if◌then◌else◌,
}
use gummy_os.Models.{TaskStatus}
use gummy_os.Tools.{Value}
use gummy_os.Goals.{
  Goal, Task, Db, Change, unset, null, to, is_set, is_null, set_nullable, set_required, GoalError,
  task_not_found, empty_update, invalid_task_transition, integrity_error, attribute_error,
}
use gummy_os.Goals.Service.{get_goal}

pub record TaskCreate : Type 0 where
  pub title : Text
  pub goal_id : Option ℕ
  pub agent_key : Option String
  pub seq : ℕ

pub record TaskUpdate : Type 0 where
  pub title : Change Text
  pub status : Change TaskStatus
  pub goal_id : Change ℕ
  pub agent_key : Change String
  pub seq : Change ℕ
  pub result_ref : Change Value

unfoldable pub same_status : TaskStatus → TaskStatus → Bool
same_status TaskStatus.pending TaskStatus.pending = true
same_status TaskStatus.in_progress TaskStatus.in_progress = true
same_status TaskStatus.blocked TaskStatus.blocked = true
same_status TaskStatus.done TaskStatus.done = true
same_status TaskStatus.cancelled TaskStatus.cancelled = true
same_status _ _ = false

-- `_TERMINAL`
unfoldable pub is_terminal : TaskStatus → Bool
is_terminal status = elim status [
  | TaskStatus.done ↦ true
  | TaskStatus.cancelled ↦ true
  | _ ↦ false
]

-- `_guard_transition`. For a null status the error's text reads `target.value`, which raises.
unfoldable pub guard_transition : TaskStatus → Change TaskStatus → Result {0} GoalError Unit
unfolding same_status is_terminal
guard_transition current unset = ok tt
guard_transition current null = if is_terminal current then err attribute_error else ok tt
guard_transition current (to target) =
    if same_status current target
    then ok tt
    else if is_terminal current
    then err (invalid_task_transition current target)
    else ok tt

-- `get_goal` where a goal is given.
unfoldable pub check_goal : (user_id : ℕ) → Option ℕ → Db → Result {0} GoalError Unit
unfolding get_goal
check_goal user_id goal_id db = elim goal_id [
  | none ↦ ok tt
  | some g ↦ elim (get_goal user_id g db) [ err e ↦ err e | ok goal ↦ ok tt ]
]

unfoldable pub create_task :
    (user_id : ℕ) → TaskCreate → (agent_run_id : Option ℕ) → Db → Result GoalError (Task × Db)
unfolding check_goal
create_task user_id payload agent_run_id db = elim (check_goal user_id payload.goal_id db) [
  | err e ↦ err e
  | ok _ ↦
      let task : Task = record {
        id = db.next_id;
        user_id = user_id;
        goal_id = payload.goal_id;
        agent_key = payload.agent_key;
        agent_run_id = agent_run_id;
        title = payload.title;
        status = TaskStatus.pending;
        seq = payload.seq;
        result_ref = none;
      } in
      ok (task, record db { tasks = db.tasks ++ task ∷ []; next_id = suc db.next_id })
]

unfoldable pub get_task : (user_id task_id : ℕ) → Db → Result GoalError Task
get_task user_id task_id db = elim (find (λ t. t.id == task_id && t.user_id == user_id) db.tasks) [
  | none ↦ err (task_not_found task_id)
  | some task ↦ ok task
]

-- What a flush or a commit writes of a changed row.
unfoldable pub save_task : Task → Db → Db
save_task task db = record db { tasks = update (λ t. t.id == task.id) (λ _. task) db.tasks }

-- `changes.get("goal_id")`
unfoldable pub new_goal : Change ℕ → Option ℕ
new_goal unset = none
new_goal null = none
new_goal (to g) = some g

-- The `setattr` loop.
unfoldable pub apply_changes : TaskUpdate → Task → Task
unfolding set_nullable set_required
apply_changes changes task = record task {
  title = set_required changes.title task.title;
  status = set_required changes.status task.status;
  goal_id = set_nullable changes.goal_id task.goal_id;
  agent_key = set_nullable changes.agent_key task.agent_key;
  seq = set_required changes.seq task.seq;
  result_ref = set_nullable changes.result_ref task.result_ref;
}

unfoldable pub is_empty : TaskUpdate → Bool
unfolding is_set
is_empty changes = not (
    is_set changes.title
    || is_set changes.status
    || is_set changes.goal_id
    || is_set changes.agent_key
    || is_set changes.seq
    || is_set changes.result_ref)

unfoldable pub update_task : (user_id task_id : ℕ) → TaskUpdate → Db → Result GoalError (Task × Db)
unfolding is_empty get_task guard_transition check_goal new_goal apply_changes save_task is_null
update_task user_id task_id changes db =
    if is_empty changes then err empty_update else elim (get_task user_id task_id db) [
      | err e ↦ err e
      | ok task ↦ elim (guard_transition task.status changes.status) [
        | err e ↦ err e
        | ok _ ↦ elim (check_goal user_id (new_goal changes.goal_id) db) [
          | err e ↦ err e
          | ok _ ↦
              if is_null changes.title || is_null changes.status || is_null changes.seq
              then err integrity_error
              else ok (apply_changes changes task, save_task (apply_changes changes task) db)
        ]
      ]
    ]

-- The status one step on.
unfoldable pub next_status : TaskStatus → Result GoalError TaskStatus
next_status status = elim status [
  | TaskStatus.pending ↦ ok TaskStatus.in_progress
  | TaskStatus.in_progress ↦ ok TaskStatus.done
  | TaskStatus.blocked ↦ ok TaskStatus.done
  | ended ↦ err (invalid_task_transition ended TaskStatus.done)
]

unfoldable pub advance_task : (user_id task_id : ℕ) → Db → Result GoalError (Task × Db)
unfolding get_task next_status save_task
advance_task user_id task_id db = elim (get_task user_id task_id db) [
  | err e ↦ err e
  | ok task ↦ elim (next_status task.status) [
    | err e ↦ err e
    | ok status ↦
        ok (record task { status = status }, save_task (record task { status = status }) db)
  ]
]

unfoldable pub block_task : (user_id task_id : ℕ) → Db → Result GoalError (Task × Db)
unfolding get_task is_terminal save_task
block_task user_id task_id db = elim (get_task user_id task_id db) [
  | err e ↦ err e
  | ok task ↦
      let blocked = record task { status = TaskStatus.blocked } in
      if is_terminal task.status
      then err (invalid_task_transition task.status TaskStatus.blocked)
      else ok (blocked, save_task blocked db)
]

unfoldable pub complete_task :
    (user_id task_id : ℕ) (result_ref : Option Value) → Db → Result GoalError (Task × Db)
unfolding get_task is_terminal save_task
complete_task user_id task_id result_ref db = elim (get_task user_id task_id db) [
  | err e ↦ err e
  | ok task ↦
      let done = record task {
        status = TaskStatus.done;
        result_ref = elim result_ref [ none ↦ task.result_ref | some ref ↦ some ref ];
      } in
      if is_terminal task.status
      then err (invalid_task_transition task.status TaskStatus.done)
      else ok (done, save_task done db)
]
