-- ===== src/Goals/Progress/Served.antt =====
-- The requests that the goal and the milestone services serve, one after the other, and the progress of
-- the goals.
use gummy_os.Common.{ℕ, ◌≡◌, refl, List, [], ◌∷◌, Result, ok, err}
use gummy_os.Models.{GoalStatus}
use gummy_os.Goals.{Db, GoalError}
use gummy_os.Goals.Service.{complete_goal, archive_goal}
use gummy_os.Goals.Requests.{
  GoalRequest, create, change, complete, archive, delete, add_step, change_step, delete_step, kept,
  kept_db, handle, serve,
}
use gummy_os.Goals.Progress.{IsSynced}
use gummy_os.Goals.Progress.Writes.{
  create-IsSynced, update_goal-IsSynced, move_goal-IsSynced, delete_goal-IsSynced,
}
use gummy_os.Goals.Progress.Steps.{add-IsSynced}
use gummy_os.Goals.Progress.Changes.{change_step-IsSynced, delete_step-IsSynced}

module _ (percent : ℕ → ℕ → ℕ) where
  -- A request that raises leaves the tables, and with them what held of them.
  module _ (db : Db) (h : IsSynced percent db) where
    kept-IsSynced :
        {A : Type 0} (r : Result GoalError (A × Db))
        → ((a : A) (d : Db) → r ≡ ok (a, d) → IsSynced percent d)
        → IsSynced percent (kept db r)
    unfolding kept
    kept-IsSynced (err e) k = h
    kept-IsSynced (ok (a, d)) k = k a d refl

    kept_db-IsSynced :
        (r : Result GoalError Db)
        → ((d : Db) → r ≡ ok d → IsSynced percent d)
        → IsSynced percent (kept_db db r)
    unfolding kept_db
    kept_db-IsSynced (err e) k = h
    kept_db-IsSynced (ok d) k = k d refl

    handle-IsSynced : (request : GoalRequest) → IsSynced percent (handle percent request db)
    unfolding handle
    handle-IsSynced (create user_id payload) = create-IsSynced percent db h user_id payload
    handle-IsSynced (change user_id goal_id changes now) =
        kept-IsSynced _ (update_goal-IsSynced percent db h user_id goal_id changes now)
    handle-IsSynced (complete user_id goal_id now) =
        kept-IsSynced (complete_goal user_id goal_id now db) (λ b d e.
          move_goal-IsSynced percent db h GoalStatus.completed user_id goal_id now b d
            (unfold complete_goal in e))
    handle-IsSynced (archive user_id goal_id now) =
        kept-IsSynced (archive_goal user_id goal_id now db) (λ b d e.
          move_goal-IsSynced percent db h GoalStatus.archived user_id goal_id now b d
            (unfold archive_goal in e))
    handle-IsSynced (delete user_id goal_id) =
        kept_db-IsSynced _ (delete_goal-IsSynced percent db h user_id goal_id)
    handle-IsSynced (add_step user_id goal_id title) =
        kept-IsSynced _ (add-IsSynced percent db h user_id goal_id title)
    handle-IsSynced (change_step user_id milestone_id changes now) =
        kept-IsSynced _ (change_step-IsSynced percent db h user_id milestone_id changes now)
    handle-IsSynced (delete_step user_id milestone_id) =
        kept_db-IsSynced _ (delete_step-IsSynced percent db h user_id milestone_id)

  -- A goal that has milestones shows the progress of its completed and total milestones: if that holds
  -- of all goals, milestone ids are distinct, and the ids of goals and milestones, and the goal ids of
  -- milestones, are below the next fresh id, then all of this holds after any requests that the goal
  -- and the milestone services serve.
  pub serve-IsSynced :
      (requests : List GoalRequest) (db : Db)
      → IsSynced percent db
      → IsSynced percent (serve percent requests db)
  unfolding serve
  serve-IsSynced [] db h = h
  serve-IsSynced (request ∷ rest) db h =
      serve-IsSynced rest (handle percent request db) (handle-IsSynced db h request)
