-- ===== src/Goals/Requests.antt =====
-- The requests that the goal and the milestone services (backend/app/services/goals) serve, one at
-- a time.
use gummy_os.Common.{ℕ, Text, List, [], ◌∷◌, Result, ok, err}
use gummy_os.Goals.{Db, GoalError}
use gummy_os.Goals.Service.{
  GoalCreate, GoalUpdate, create_goal, update_goal, complete_goal, archive_goal, delete_goal,
}
use gummy_os.Goals.Milestones.{MilestoneUpdate, add_milestone, update_milestone, delete_milestone}

pub data GoalRequest : Type 0 where
  create : (user_id : ℕ) → GoalCreate → GoalRequest
  change : (user_id goal_id : ℕ) → GoalUpdate → (now : ℕ) → GoalRequest
  complete : (user_id goal_id now : ℕ) → GoalRequest
  archive : (user_id goal_id now : ℕ) → GoalRequest
  delete : (user_id goal_id : ℕ) → GoalRequest
  add_step : (user_id goal_id : ℕ) (title : Text) → GoalRequest
  change_step : (user_id milestone_id : ℕ) → MilestoneUpdate → (now : ℕ) → GoalRequest
  delete_step : (user_id milestone_id : ℕ) → GoalRequest

-- The tables after a request; one that raises leaves them as they are.
unfoldable pub kept : {A : Type 0} → Db → Result GoalError (A × Db) → Db
kept db (ok (a, d)) = d
kept db (err e) = db

unfoldable pub kept_db : Db → Result GoalError Db → Db
kept_db db (ok d) = d
kept_db db (err e) = db

module _ (percent : ℕ → ℕ → ℕ) where
  unfoldable pub handle : GoalRequest → Db → Db
  unfolding kept kept_db
  handle (create user_id payload) db = (create_goal user_id payload db).1
  handle (change user_id goal_id changes now) db =
      kept db (update_goal user_id goal_id changes now db)
  handle (complete user_id goal_id now) db = kept db (complete_goal user_id goal_id now db)
  handle (archive user_id goal_id now) db = kept db (archive_goal user_id goal_id now db)
  handle (delete user_id goal_id) db = kept_db db (delete_goal user_id goal_id db)
  handle (add_step user_id goal_id title) db =
      kept db (add_milestone percent user_id goal_id title db)
  handle (change_step user_id milestone_id changes now) db =
      kept db (update_milestone percent user_id milestone_id changes now db)
  handle (delete_step user_id milestone_id) db =
      kept_db db (delete_milestone percent user_id milestone_id db)

  unfoldable pub serve : List GoalRequest → Db → Db
  unfolding handle
  serve [] db = db
  serve (request ∷ rest) db = serve rest (handle request db)
