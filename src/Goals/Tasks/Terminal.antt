-- ===== src/Goals/Tasks/Terminal.antt =====
-- That a task leaves no terminal status.
use mathlib.Core.Path.{subst}
use gummy_os.Common.{
  ℕ, ◌<◌, ◌≡◌, refl, Bool, Bool-cases, true, false, ◌&&◌, ◌||◌, not, ◌==◌, List, [], ◌∷◌, ◌++◌, All,
  All-append, All-update, All-find, Option, inl, inr, Result, Result-cases, ok, err, arith,
}
use gummy_os.Models.{TaskStatus}
use gummy_os.Tools.{Value}
use gummy_os.Goals.{Task, Db, Change, unset, null, to, set_required, GoalError}
use gummy_os.Goals.Tasks.Requests.{
  TaskRequest, create, change, advance, block, complete, kept, handle, serve,
}
use gummy_os.Goals.Tasks.{
  TaskCreate, TaskUpdate, same_status, is_terminal, guard_transition, check_goal, create_task,
  get_task, save_task, new_goal, apply_changes, update_task, next_status, advance_task, block_task,
  complete_task,
}

-- The row is another task's, or has the status.
abbrev has_status : ℕ → TaskStatus → Task → Bool
has_status i status task = not (task.id == i) || same_status task.status status

pub record IsEnded (i : ℕ) (status : TaskStatus) (db : Db) : Type 0 where
  pub statuses : All (λ t. has_status i status t ≡ true) db.tasks
  pub known : i < db.next_id

same_status→≡ : (s t : TaskStatus) → same_status s t ≡ true → s ≡ t
unfolding same_status
same_status→≡ TaskStatus.pending t h = ground arith
same_status→≡ TaskStatus.in_progress t h = ground arith
same_status→≡ TaskStatus.blocked t h = ground arith
same_status→≡ TaskStatus.done t h = ground arith
same_status→≡ TaskStatus.cancelled t h = ground arith

same_status_refl : (s : TaskStatus) → same_status s s ≡ true
unfolding same_status
same_status_refl TaskStatus.pending = refl
same_status_refl TaskStatus.in_progress = refl
same_status_refl TaskStatus.blocked = refl
same_status_refl TaskStatus.done = refl
same_status_refl TaskStatus.cancelled = refl

-- The guard keeps a terminal status.
guarded-same :
    (current : TaskStatus) (change : Change TaskStatus)
    → is_terminal current ≡ true
    → guard_transition current change ≡ ok tt
    → set_required change current ≡ current
unfolding guard_transition set_required
guarded-same current unset ended e = refl
guarded-same current null ended e = refl
guarded-same current (to target) ended e = ground (arith, same_status→≡ current target)

terminal-same : (s t : TaskStatus) → same_status s t ≡ true → is_terminal t ≡ is_terminal s
unfolding same_status is_terminal
terminal-same TaskStatus.pending t h = ground arith
terminal-same TaskStatus.in_progress t h = ground arith
terminal-same TaskStatus.blocked t h = ground arith
terminal-same TaskStatus.done t h = ground arith
terminal-same TaskStatus.cancelled t h = ground arith

-- A row that is not terminal is another task's.
other_task :
    (i : ℕ) (status : TaskStatus) (t : Task)
    → is_terminal status ≡ true
    → has_status i status t ≡ true
    → is_terminal t.status ≡ false
    → (t.id == i) ≡ false
other_task i status t ended h live = ground (arith, terminal-same t.status status)

module _ (i : ℕ) (status : TaskStatus) (ended : is_terminal status ≡ true) (db : Db)
    (h : IsEnded i status db) where
  save-IsEnded : (b : Task) → has_status i status b ≡ true → IsEnded i status (save_task b db)
  unfolding save_task
  save-IsEnded b same = record {
    statuses = All-update _ (λ t. t.id == b.id) (λ _. b) db.tasks (λ _ _ _. same) h.statuses;
    known = h.known;
  }

  found-status :
      (user_id task_id : ℕ) (t : Task)
      → get_task user_id task_id db ≡ ok t
      → has_status i status t ≡ true
  unfolding get_task
  found-status user_id task_id t found =
      All-find (λ t. has_status i status t ≡ true) (λ t. t.id == task_id && t.user_id == user_id)
        db.tasks t h.statuses (ground arith)

  -- A request that raises writes nothing.
  kept-IsEnded :
      (r : Result GoalError (Task × Db))
      → ((t : Task) (d : Db) → r ≡ ok (t, d) → IsEnded i status d)
      → IsEnded i status (kept db r)
  unfolding kept
  kept-IsEnded (err e) k = h
  kept-IsEnded (ok (t, d)) k = k t d refl

  create-IsEnded :
      (user_id : ℕ) (payload : TaskCreate) (agent_run_id : Option ℕ) (b : Task) (d : Db)
      → create_task user_id payload agent_run_id db ≡ ok (b, d)
      → IsEnded i status d
  unfolding create_task
  create-IsEnded user_id payload agent_run_id b d e =
      elim (Result-cases (check_goal user_id payload.goal_id db)) [
        | inl (u, fine) ↦
            let known : i < db.next_id = h.known in
            let added : db.tasks ++ b ∷ [] ≡ d.tasks = ground arith in
            record {
              statuses =
                  subst (All (λ t. has_status i status t ≡ true)) added
                    (All-append _ db.tasks (b ∷ []) h.statuses (ground arith, tt));
              known = ground arith;
            }
        | inr (x, missing) ↦ absurd (ground arith)
      ]

  -- A row of a task that is not terminal may be replaced by one of any status.
  live-IsEnded :
      (user_id task_id : ℕ) (t b : Task) (d : Db)
      → get_task user_id task_id db ≡ ok t
      → is_terminal t.status ≡ false
      → b.id ≡ t.id
      → save_task b db ≡ d
      → IsEnded i status d
  live-IsEnded user_id task_id t b d found live same saved =
      let other = other_task i status t ended (found-status user_id task_id t found) live in
      subst (IsEnded i status) saved (save-IsEnded b (ground (arith, other)))

  advance-IsEnded :
      (user_id task_id : ℕ) (b : Task) (d : Db)
      → advance_task user_id task_id db ≡ ok (b, d)
      → IsEnded i status d
  unfolding advance_task
  advance-IsEnded user_id task_id b d e = elim (Result-cases (get_task user_id task_id db)) [
    | inr (x, missing) ↦ absurd (ground arith)
    | inl (t, found) ↦ elim (Result-cases (next_status t.status)) [
      | inr (x, refused) ↦ absurd (ground arith)
      | inl (next, moves) ↦
          live-IsEnded user_id task_id t (record t { status = next }) d found
            (unfold next_status is_terminal in ground arith) refl (ground arith)
    ]
  ]

  block-IsEnded :
      (user_id task_id : ℕ) (b : Task) (d : Db)
      → block_task user_id task_id db ≡ ok (b, d)
      → IsEnded i status d
  unfolding block_task
  block-IsEnded user_id task_id b d e = elim (Result-cases (get_task user_id task_id db)) [
    | inr (x, missing) ↦ absurd (ground arith)
    | inl (t, found) ↦
        live-IsEnded user_id task_id t (record t { status = TaskStatus.blocked }) d found
          (ground arith) refl (ground arith)
  ]

  complete-IsEnded :
      (user_id task_id : ℕ) (ref : Option Value) (b : Task) (d : Db)
      → complete_task user_id task_id ref db ≡ ok (b, d)
      → IsEnded i status d
  unfolding complete_task
  complete-IsEnded user_id task_id ref b d e = elim (Result-cases (get_task user_id task_id db)) [
    | inr (x, missing) ↦ absurd (ground arith)
    | inl (t, found) ↦
        live-IsEnded user_id task_id t b d found (ground arith) (ground arith) (ground arith)
  ]

  -- A change of the status passed the guard: the task is not terminal, or its status stays.
  changed-status :
      (t : Task) (changes : TaskUpdate)
      → has_status i status t ≡ true
      → guard_transition t.status changes.status ≡ ok tt
      → has_status i status (apply_changes changes t) ≡ true
  unfolding apply_changes
  changed-status t changes same guarded = elim (Bool-cases (t.id == i)) [
    | inr other ↦ ground arith
    | inl own ↦
        let now : t.status ≡ status = same_status→≡ t.status status (ground arith) in
        let stays = guarded-same t.status changes.status (rw now ended) guarded in
        ground (arith, same_status_refl status)
  ]

  change-IsEnded :
      (user_id task_id : ℕ) (changes : TaskUpdate) (b : Task) (d : Db)
      → update_task user_id task_id changes db ≡ ok (b, d)
      → IsEnded i status d
  unfolding update_task
  change-IsEnded user_id task_id changes b d e = elim (Result-cases (get_task user_id task_id db)) [
    | inr (x, missing) ↦ absurd (ground arith)
    | inl (t, found) ↦ elim (Result-cases (guard_transition t.status changes.status)) [
      | inr (x, refused) ↦ absurd (ground arith)
      | inl (u, guarded) ↦ elim (Result-cases (check_goal user_id (new_goal changes.goal_id) db)) [
        | inr (x, foreign) ↦ absurd (ground arith)
        | inl (v, fine) ↦
            let saved : save_task (apply_changes changes t) db ≡ d = ground arith in
            subst (IsEnded i status) saved (
              save-IsEnded (apply_changes changes t)
                (changed-status t changes (found-status user_id task_id t found) guarded))
      ]
    ]
  ]

module _ (i : ℕ) (status : TaskStatus) (ended : is_terminal status ≡ true) where
  handle-IsEnded :
      (request : TaskRequest) (db : Db) → IsEnded i status db → IsEnded i status (handle request db)
  unfolding handle
  handle-IsEnded (create user_id payload agent_run_id) db h =
      kept-IsEnded i status ended db h _
        (create-IsEnded i status ended db h user_id payload agent_run_id)
  handle-IsEnded (change user_id task_id changes) db h =
      kept-IsEnded i status ended db h _
        (change-IsEnded i status ended db h user_id task_id changes)
  handle-IsEnded (advance user_id task_id) db h =
      kept-IsEnded i status ended db h _ (advance-IsEnded i status ended db h user_id task_id)
  handle-IsEnded (block user_id task_id) db h =
      kept-IsEnded i status ended db h _ (block-IsEnded i status ended db h user_id task_id)
  handle-IsEnded (complete user_id task_id ref) db h =
      kept-IsEnded i status ended db h _ (complete-IsEnded i status ended db h user_id task_id ref)

-- A task that is done or cancelled stays so, whatever requests the task service serves.
pub serve-IsEnded :
    (i : ℕ) (status : TaskStatus) (requests : List TaskRequest) (db : Db)
    → is_terminal status ≡ true
    → IsEnded i status db
    → IsEnded i status (serve requests db)
unfolding serve
serve-IsEnded i status [] db ended h = h
serve-IsEnded i status (request ∷ rest) db ended h =
    serve-IsEnded i status rest (handle request db) ended
      (handle-IsEnded i status ended request db h)
