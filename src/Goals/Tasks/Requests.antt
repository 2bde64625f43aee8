-- ===== src/Goals/Tasks/Requests.antt =====
-- The requests that the task service (backend/app/services/agents/task_service.py) serves, one at a
-- time.
use gummy_os.Common.{ℕ, List, [], ◌∷◌, Option, Result, ok, err}
use gummy_os.Tools.{Value}
use gummy_os.Goals.{Task, Db, GoalError}
use gummy_os.Goals.Tasks.{
  TaskCreate, TaskUpdate, create_task, update_task, advance_task, block_task, complete_task,
}

-- The operations of the task service that write.
pub data TaskRequest : Type 0 where
  create : (user_id : ℕ) → TaskCreate → (agent_run_id : Option ℕ) → TaskRequest
  change : (user_id task_id : ℕ) → TaskUpdate → TaskRequest
  advance : (user_id task_id : ℕ) → TaskRequest
  block : (user_id task_id : ℕ) → TaskRequest
  complete : (user_id task_id : ℕ) → (result_ref : Option Value) → TaskRequest

-- The tables after a request; one that raises leaves them as they are.
unfoldable pub kept : Db → Result GoalError (Task × Db) → Db
kept db result = elim result [ ok written ↦ written.1 | err e ↦ db ]

unfoldable pub handle : TaskRequest → Db → Db
unfolding kept
handle (create user_id payload agent_run_id) db =
    kept db (create_task user_id payload agent_run_id db)
handle (change user_id task_id changes) db = kept db (update_task user_id task_id changes db)
handle (advance user_id task_id) db = kept db (advance_task user_id task_id db)
handle (block user_id task_id) db = kept db (block_task user_id task_id db)
handle (complete user_id task_id result_ref) db =
    kept db (complete_task user_id task_id result_ref db)

unfoldable pub serve : List TaskRequest → Db → Db
unfolding handle
serve [] db = db
serve (request ∷ rest) db = serve rest (handle request db)
