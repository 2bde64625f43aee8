-- ===== src/Tests/Plans.antt =====
-- backend/app/services/goals and backend/app/services/agents/task_service.py at one goal and one task.
use gummy_os.Common.{ℕ, ◌*◌, ◌/◌, codes, true, List, [], ◌∷◌, none, err, ◌≡◌, refl, arith}
use gummy_os.Models.{GoalStatus, GoalPriority, TaskStatus}
use gummy_os.Goals.{Db, unset, null, to, invalid_task_transition}
use gummy_os.Goals.Service.{GoalCreate, GoalUpdate, update_goal, complete_goal, create_goal}
use gummy_os.Goals.Milestones.{MilestoneUpdate, update_milestone, add_milestone}
use gummy_os.Goals.Requests as Goals
use gummy_os.Goals.Requests.{GoalRequest}
use gummy_os.Goals.Stamps.{AllStamped}
use gummy_os.Goals.Completion.{serve-AllStamped}
use gummy_os.Goals.Distinct.{IsDistinct}
use gummy_os.Goals.Progress.{IsSynced}
use gummy_os.Goals.Progress.Served.{serve-IsSynced}
use gummy_os.Goals.Tasks.{
  TaskCreate, TaskUpdate, is_terminal, same_status, create_task, advance_task,
}
use gummy_os.Goals.Tasks.Requests as Tasks
use gummy_os.Goals.Tasks.Requests.{TaskRequest}
use gummy_os.Goals.Tasks.Terminal.{IsEnded, serve-IsEnded}

abbrev empty : Db
empty = record { goals = []; milestones = []; tasks = []; next_id = 0 }

-- Whole percents, rounded down: enough for a test.
abbrev percent : ℕ → ℕ → ℕ
percent completed total = completed * 100 / total

abbrev new_goal : GoalCreate
new_goal = record {
  title = codes "read";
  description = none;
  category = none;
  agent_context = "general";
  priority = GoalPriority.low;
  progress_percentage = 0;
  target_date = none;
}

abbrev ticked_off : MilestoneUpdate
ticked_off = record { title = unset; completed = to true; order_index = unset }

abbrev reopened : GoalUpdate
reopened = record {
  title = unset;
  description = null;
  category = unset;
  status = to GoalStatus.active;
  agent_context = unset;
  priority = unset;
  progress_percentage = to 77;
  target_date = unset;
}

-- A goal with two steps, one of them done, completed, and opened again.
abbrev requests : List GoalRequest
requests =
    GoalRequest.create 7 new_goal
    ∷ GoalRequest.add_step 7 0 (codes "one")
    ∷ GoalRequest.add_step 7 0 (codes "two")
    ∷ GoalRequest.change_step 7 1 ticked_off 50
    ∷ GoalRequest.complete 7 0 60
    ∷ GoalRequest.change 7 0 reopened 70
    ∷ []

serve-AllStamped_example : AllStamped (Goals.serve percent requests empty)
serve-AllStamped_example = serve-AllStamped percent requests empty tt

empty-IsSynced : IsSynced percent empty
empty-IsSynced = record {
  synced = tt;
  distinct = unfold IsDistinct in tt;
  known_goals = tt;
  known_milestones = tt;
  owned = tt;
}

serve-IsSynced_example : IsSynced percent (Goals.serve percent requests empty)
serve-IsSynced_example = serve-IsSynced percent requests empty empty-IsSynced

-- Half the steps are done, and the manual progress was dropped.
half_done :
    (Goals.serve percent requests empty).goals
    ≡ record {
      id = 0;
      user_id = 7;
      title = codes "read";
      description = none;
      category = none;
      status = GoalStatus.active;
      priority = GoalPriority.low;
      agent_context = "general";
      progress_percentage = 50;
      target_date = none;
      completed_at = none;
    }
      ∷ []
unfolding Goals.serve update_goal complete_goal update_milestone add_milestone create_goal
half_done = refl

abbrev errand : TaskCreate
errand = record { title = codes "buy"; goal_id = none; agent_key = none; seq = 0 }

abbrev done_errand : Db
done_errand = record {
  goals = [];
  milestones = [];
  tasks =
      record {
        id = 0;
        user_id = 7;
        goal_id = none;
        agent_key = none;
        agent_run_id = none;
        title = codes "buy";
        status = TaskStatus.done;
        seq = 0;
        result_ref = none;
      }
      ∷ [];
  next_id = 1;
}

-- Two steps forward finish a new task.
two_steps :
    Tasks.serve
      (TaskRequest.create 7 errand none ∷ TaskRequest.advance 7 0 ∷ TaskRequest.advance 7 0 ∷ [])
      empty
    ≡ done_errand
unfolding Tasks.serve advance_task create_task
two_steps = refl

no_third_step :
    advance_task 7 0 done_errand ≡ err (invalid_task_transition TaskStatus.done TaskStatus.done)
unfolding advance_task
no_third_step = refl

abbrev back_to_work : TaskUpdate
back_to_work = record {
  title = unset;
  status = to TaskStatus.pending;
  goal_id = unset;
  agent_key = unset;
  seq = unset;
  result_ref = unset;
}

serve-IsEnded_example : IsEnded 0 TaskStatus.done (
    Tasks.serve
      (TaskRequest.change 7 0 back_to_work ∷ TaskRequest.block 7 0 ∷ TaskRequest.advance 7 0 ∷ [])
      done_errand)
unfolding is_terminal same_status
serve-IsEnded_example =
    serve-IsEnded 0 TaskStatus.done
      (TaskRequest.change 7 0 back_to_work ∷ TaskRequest.block 7 0 ∷ TaskRequest.advance 7 0 ∷ [])
      done_errand refl (record { statuses = (refl, tt); known = omega arith })
