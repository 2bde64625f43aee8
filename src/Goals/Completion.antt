-- ===== src/Goals/Completion.antt =====
-- When a goal carries `completed_at`, over the requests that the goal and milestone services serve.
use mathlib.Core.Path.{subst}
use gummy_os.Common.{
  ℕ, suc, ◌≡◌, refl, Text, true, false, ◌&&◌, not, ◌==◌, List, [], ◌∷◌, ◌++◌, All, All-kept,
  All-append, All-update, All-find, filter, inl, inr, Result, Result-cases, ok, err, arith,
}
use gummy_os.Models.{GoalStatus}
use gummy_os.Goals.{Goal, GoalMilestone, Db, GoalError}
use gummy_os.Goals.Service.{
  GoalUpdate, create_goal, get_goal, save_goal, apply_status_side_effects, status_effects, has_null,
  apply_changes, manual_progress, update_goal, move_goal, complete_goal, archive_goal, delete_goal,
}
use gummy_os.Goals.Milestones.{
  MilestoneUpdate, add_milestone, update_milestone, delete_milestone, resync, save_milestone,
  get_milestone, stamp,
}
use gummy_os.Goals.Milestones as Milestones
use gummy_os.Goals.Requests.{
  GoalRequest, create, change, complete, archive, delete, add_step, change_step, delete_step, kept,
  kept_db, handle, serve,
}
use gummy_os.Goals.Stamps.{is_stamped, AllStamped, moved-stamped, changed-stamped, resynced-stamped}

save-AllStamped :
    (b : Goal) (db : Db) → is_stamped b ≡ true → AllStamped db → AllStamped (save_goal b db)
unfolding save_goal
save-AllStamped b db new h = All-update _ (λ g. g.id == b.id) (λ _. b) db.goals (λ _ _ _. new) h

found-stamped :
    (user_id goal_id : ℕ) (db : Db) (goal : Goal)
    → AllStamped db
    → get_goal user_id goal_id db ≡ ok goal
    → is_stamped goal ≡ true
unfolding get_goal
found-stamped user_id goal_id db goal h found =
    All-find (λ g. is_stamped g ≡ true) (λ g. g.id == goal_id && g.user_id == user_id) db.goals goal
      h (ground arith)

-- A request that writes a goal's row, writes a stamped one.
kept-AllStamped :
    {A : Type 0} (db : Db) (r : Result GoalError (A × Db))
    → AllStamped db
    → ((a : A) (d : Db) → r ≡ ok (a, d) → AllStamped d)
    → AllStamped (kept db r)
unfolding kept
kept-AllStamped db (err e) h k = h
kept-AllStamped db (ok (a, d)) h k = k a d refl

kept_db-AllStamped :
    (db : Db) (r : Result GoalError Db)
    → AllStamped db
    → ((d : Db) → r ≡ ok d → AllStamped d)
    → AllStamped (kept_db db r)
unfolding kept_db
kept_db-AllStamped db (err e) h k = h
kept_db-AllStamped db (ok d) h k = k d refl

module _ (db : Db) (h : AllStamped db) where
  update_goal-AllStamped :
      (user_id goal_id : ℕ) (changes : GoalUpdate) (now : ℕ) (b : Goal) (d : Db)
      → update_goal user_id goal_id changes now db ≡ ok (b, d)
      → AllStamped d
  unfolding update_goal
  update_goal-AllStamped user_id goal_id changes now b d e =
      elim (Result-cases (get_goal user_id goal_id db)) [
        | inr (x, missing) ↦ absurd (ground arith)
        | inl (goal, found) ↦
            let progress = manual_progress changes goal db in
            let row = apply_changes changes progress (status_effects now changes.status goal) in
            let given : has_null changes progress ≡ false = ground arith in
            let saved : save_goal row db ≡ d = ground arith in
            subst AllStamped saved (
              save-AllStamped row db
                (changed-stamped now changes progress goal
                  (found-stamped user_id goal_id db goal h found) (unfold has_null in ground arith))
                h)
      ]

  move_goal-AllStamped :
      (status : GoalStatus) (user_id goal_id now : ℕ) (b : Goal) (d : Db)
      → move_goal status user_id goal_id now db ≡ ok (b, d)
      → AllStamped d
  unfolding move_goal
  move_goal-AllStamped status user_id goal_id now b d e =
      elim (Result-cases (get_goal user_id goal_id db)) [
        | inr (x, missing) ↦ absurd (ground arith)
        | inl (goal, found) ↦
            let row = apply_status_side_effects now status (record goal { status = status }) in
            let saved : save_goal row db ≡ d = ground arith in
            subst AllStamped saved (save-AllStamped row db (moved-stamped now status goal) h)
      ]

  delete_goal-AllStamped :
      (user_id goal_id : ℕ) (d : Db) → delete_goal user_id goal_id db ≡ ok d → AllStamped d
  unfolding delete_goal
  delete_goal-AllStamped user_id goal_id d e = elim (Result-cases (get_goal user_id goal_id db)) [
    | inr (x, missing) ↦ absurd (ground arith)
    | inl (goal, found) ↦
        let left : filter (λ (g : Goal). not (g.id == goal.id)) db.goals ≡ d.goals = ground arith in
        subst (All (λ g. is_stamped g ≡ true)) left
          (All-kept _ (λ (g : Goal). not (g.id == goal.id)) db.goals h)
  ]

  module _ (percent : ℕ → ℕ → ℕ) where
    -- A recomputed goal goes back with the stamp it had.
    resync-AllStamped :
        (user_id : ℕ) (goal : Goal) (mid : Db)
        → mid.goals ≡ db.goals
        → is_stamped goal ≡ true
        → AllStamped (resync percent user_id goal mid)
    unfolding resync
    resync-AllStamped user_id goal mid same stamped =
        save-AllStamped _ mid (resynced-stamped percent user_id goal mid.milestones stamped)
          (rw same h)

    add-AllStamped :
        (user_id goal_id : ℕ) (title : Text) (m : GoalMilestone) (d : Db)
        → add_milestone percent user_id goal_id title db ≡ ok (m, d)
        → AllStamped d
    unfolding add_milestone
    add-AllStamped user_id goal_id title m d e = elim (Result-cases (get_goal user_id goal_id db)) [
      | inr (x, missing) ↦ absurd (ground arith)
      | inl (goal, found) ↦
          let mid = record db { milestones = db.milestones ++ m ∷ []; next_id = suc db.next_id } in
          let saved : resync percent user_id goal mid ≡ d = ground arith in
          subst AllStamped saved (
            resync-AllStamped user_id goal mid refl (found-stamped user_id goal_id db goal h found))
    ]

    change_step-AllStamped :
        (user_id milestone_id : ℕ) (changes : MilestoneUpdate) (now : ℕ) (m : GoalMilestone)
        (d : Db)
        → update_milestone percent user_id milestone_id changes now db ≡ ok (m, d)
        → AllStamped d
    unfolding update_milestone
    change_step-AllStamped user_id milestone_id changes now m d e =
        elim (Result-cases (get_milestone user_id milestone_id db)) [
          | inr (x, missing) ↦ absurd (ground arith)
          | inl (old, there) ↦
              let changed = Milestones.apply_changes changes (stamp now changes.completed old) in
              let mid = save_milestone changed db in
              elim (Result-cases (get_goal user_id changed.goal_id mid)) [
                | inr (x, missing) ↦ absurd (ground arith)
                | inl (goal, found) ↦
                    let same : mid.goals ≡ db.goals = unfold save_milestone in refl in
                    let saved : resync percent user_id goal mid ≡ d = ground arith in
                    subst AllStamped saved (
                      resync-AllStamped user_id goal mid same
                        (found-stamped user_id changed.goal_id mid goal (rw same h) found))
              ]
        ]

    delete_step-AllStamped :
        (user_id milestone_id : ℕ) (d : Db)
        → delete_milestone percent user_id milestone_id db ≡ ok d
        → AllStamped d
    unfolding delete_milestone
    delete_step-AllStamped user_id milestone_id d e =
        elim (Result-cases (get_milestone user_id milestone_id db)) [
          | inr (x, missing) ↦ absurd (ground arith)
          | inl (m, there) ↦
              let mid = record db {
                milestones = filter (λ (x : GoalMilestone). not (x.id == m.id)) db.milestones;
              } in
              elim (Result-cases (get_goal user_id m.goal_id mid)) [
                | inr (x, missing) ↦ absurd (ground arith)
                | inl (goal, found) ↦
                    let saved : resync percent user_id goal mid ≡ d = ground arith in
                    subst AllStamped saved (
                      resync-AllStamped user_id goal mid refl
                        (found-stamped user_id m.goal_id mid goal h found))
              ]
        ]

    handle-AllStamped : (request : GoalRequest) → AllStamped (handle percent request db)
    unfolding handle
    handle-AllStamped (create user_id payload) =
        unfold create_goal in All-append _ db.goals _ h (refl, tt)
    handle-AllStamped (change user_id goal_id changes now) =
        kept-AllStamped db _ h (update_goal-AllStamped user_id goal_id changes now)
    handle-AllStamped (complete user_id goal_id now) =
        kept-AllStamped db (complete_goal user_id goal_id now db) h (λ b d e.
          move_goal-AllStamped GoalStatus.completed user_id goal_id now b d
            (unfold complete_goal in e))
    handle-AllStamped (archive user_id goal_id now) =
        kept-AllStamped db (archive_goal user_id goal_id now db) h (λ b d e.
          move_goal-AllStamped GoalStatus.archived user_id goal_id now b d
            (unfold archive_goal in e))
    handle-AllStamped (delete user_id goal_id) =
        kept_db-AllStamped db _ h (delete_goal-AllStamped user_id goal_id)
    handle-AllStamped (add_step user_id goal_id title) =
        kept-AllStamped db _ h (add-AllStamped user_id goal_id title)
    handle-AllStamped (change_step user_id milestone_id changes now) =
        kept-AllStamped db _ h (change_step-AllStamped user_id milestone_id changes now)
    handle-AllStamped (delete_step user_id milestone_id) =
        kept_db-AllStamped db _ h (delete_step-AllStamped user_id milestone_id)

-- A goal carries `completed_at` exactly where its status is completed: if that holds of all goals, it
-- holds after any requests that the goal and the milestone services serve.
pub serve-AllStamped :
    (percent : ℕ → ℕ → ℕ) (requests : List GoalRequest) (db : Db)
    → AllStamped db
    → AllStamped (serve percent requests db)
unfolding serve
serve-AllStamped percent [] db h = h
serve-AllStamped percent (request ∷ rest) db h =
    serve-AllStamped percent rest (handle percent request db)
      (handle-AllStamped db h percent request)
