-- ===== src/Goals/Progress/Writes.antt =====
-- Each request of the goal and the milestone services, and the progress of the goals.
use mathlib.Core.Path.{subst}
use gummy_os.Common.{
  ℕ, ◌<◌, ◌≡◌, refl, Bool-cases, true, not, ◌==◌, ltb, All, All-imp, All-kept, All-append,
  All-filter, filter, Option-cases, inl, inr, Result-cases, ok, arith,
}
use gummy_os.Models.{GoalStatus}
use gummy_os.Goals.{Goal, GoalMilestone, Db, Change, unset, null, to, set_required}
use gummy_os.Goals.Service.{
  GoalCreate, GoalUpdate, create_goal, get_goal, save_goal, completion_counts,
  apply_status_side_effects, status_effects, apply_changes, manual_progress, update_goal, move_goal,
  delete_goal,
}
use gummy_os.Goals.Distinct.{IsDistinct, filter-IsDistinct}
use gummy_os.Goals.Progress.{
  is_synced, IsSynced, IsElsewhere, save-IsSynced, keyed, found-all, fresh-synced, same-synced,
  empty-synced,
}
use gummy_os.Goals.Progress.{synced-elsewhere}
use gummy_os.Goals.Progress.Steps.{counts-drop}

-- The side effects of a status keep the goal's id, owner and progress.
record IsSameGoal (goal b : Goal) : Type 0 where
  id_eq : b.id ≡ goal.id
  user_eq : b.user_id ≡ goal.user_id
  progress_eq : b.progress_percentage ≡ goal.progress_percentage

side_effects-IsSameGoal :
    (now : ℕ) (status : GoalStatus) (goal : Goal)
    → IsSameGoal goal (apply_status_side_effects now status goal)
unfolding apply_status_side_effects
side_effects-IsSameGoal now GoalStatus.active goal = record {
  id_eq = refl;
  user_eq = refl;
  progress_eq = refl;
}
side_effects-IsSameGoal now GoalStatus.archived goal = record {
  id_eq = refl;
  user_eq = refl;
  progress_eq = refl;
}
side_effects-IsSameGoal now GoalStatus.completed goal = elim (Option-cases goal.completed_at) [
  | inl never ↦ record { id_eq = ground arith; user_eq = ground arith; progress_eq = ground arith }
  | inr (t, e) ↦ record { id_eq = ground arith; user_eq = ground arith; progress_eq = ground arith }
]

effects-IsSameGoal :
    (now : ℕ) (status : Change GoalStatus) (goal : Goal)
    → IsSameGoal goal (status_effects now status goal)
unfolding status_effects
effects-IsSameGoal now unset goal = record { id_eq = refl; user_eq = refl; progress_eq = refl }
effects-IsSameGoal now null goal = record { id_eq = refl; user_eq = refl; progress_eq = refl }
effects-IsSameGoal now (to status) goal = side_effects-IsSameGoal now status goal

module _ (percent : ℕ → ℕ → ℕ) where
  module _ (db : Db) (h : IsSynced percent db) where
    -- A row of a goal with its id, owner and progress kept, or with no milestone.
    changed-IsSynced :
        (goal b : Goal)
        → b.id ≡ goal.id
        → goal.id < db.next_id
        → is_synced percent db.milestones b ≡ true
        → IsSynced percent (save_goal b db)
    changed-IsSynced goal b same known new =
        save-IsSynced percent b db.milestones db (keyed percent db h) (omega (arith, same)) new
          (λ g. unfold IsElsewhere in (λ other. refl)) h.synced

    pub create-IsSynced :
        (user_id : ℕ) (payload : GoalCreate) → IsSynced percent (create_goal user_id payload db).1
    unfolding create_goal
    create-IsSynced user_id payload = record {
      synced = All-append _ db.goals _ h.synced (fresh-synced percent db.milestones _ h.owned, tt);
      distinct = h.distinct;
      known_goals =
          All-append _ db.goals _ (All-imp _ _ db.goals (λ g k. omega arith) h.known_goals)
            (omega arith, tt);
      known_milestones = All-imp _ _ db.milestones (λ m k. omega arith) h.known_milestones;
      owned = All-imp _ _ db.milestones (λ m k. omega arith) h.owned;
    }

    changed-synced :
        (changes : GoalUpdate) (now : ℕ) (goal : Goal)
        → is_synced percent db.milestones goal ≡ true
        → is_synced percent db.milestones (
            apply_changes changes
              (manual_progress changes goal db)
              (status_effects now changes.status goal))
          ≡ true
    changed-synced changes now goal synced =
        let same = effects-IsSameGoal now changes.status goal in
        let b =
          apply_changes changes (manual_progress changes goal db)
            (status_effects now changes.status goal) in
        elim (Bool-cases (ltb 0 (completion_counts goal.id goal.user_id db.milestones).1)) [
          | inl some_of ↦
              let dropped : manual_progress changes goal db ≡ unset =
                unfold manual_progress in ground arith in
              same-synced percent db.milestones goal b (unfold apply_changes in same.id_eq)
                (unfold apply_changes in same.user_eq)
                (unfold apply_changes set_required in rw dropped same.progress_eq) synced
          | inr none_of ↦
              empty-synced percent db.milestones goal b (unfold apply_changes in same.id_eq)
                (unfold apply_changes in same.user_eq) none_of
        ]

    pub update_goal-IsSynced :
        (user_id goal_id : ℕ) (changes : GoalUpdate) (now : ℕ) (b : Goal) (d : Db)
        → update_goal user_id goal_id changes now db ≡ ok (b, d)
        → IsSynced percent d
    unfolding update_goal
    update_goal-IsSynced user_id goal_id changes now b d e =
        elim (Result-cases (get_goal user_id goal_id db)) [
          | inr (x, missing) ↦ absurd (ground arith)
          | inl (goal, found) ↦
              let row =
                apply_changes changes (manual_progress changes goal db)
                  (status_effects now changes.status goal) in
              let saved : save_goal row db ≡ d = ground arith in
              subst (IsSynced percent) saved (
                changed-IsSynced goal row
                  (unfold apply_changes in (effects-IsSameGoal now changes.status goal).id_eq)
                  (found-all percent _ user_id goal_id db goal h.known_goals found)
                  (changed-synced changes now goal (
                    found-all percent (λ g. is_synced percent db.milestones g ≡ true) user_id
                      goal_id db goal h.synced found)))
        ]

    pub move_goal-IsSynced :
        (status : GoalStatus) (user_id goal_id now : ℕ) (b : Goal) (d : Db)
        → move_goal status user_id goal_id now db ≡ ok (b, d)
        → IsSynced percent d
    unfolding move_goal
    move_goal-IsSynced status user_id goal_id now b d e =
        elim (Result-cases (get_goal user_id goal_id db)) [
          | inr (x, missing) ↦ absurd (ground arith)
          | inl (goal, found) ↦
              let row = apply_status_side_effects now status (record goal { status = status }) in
              let same = side_effects-IsSameGoal now status (record goal { status = status }) in
              let saved : save_goal row db ≡ d = ground arith in
              subst (IsSynced percent) saved (
                changed-IsSynced goal row same.id_eq
                  (found-all percent _ user_id goal_id db goal h.known_goals found)
                  (same-synced percent db.milestones goal row same.id_eq same.user_eq
                    same.progress_eq
                    (found-all percent (λ g. is_synced percent db.milestones g ≡ true) user_id
                      goal_id db goal h.synced found)))
        ]

    pub delete_goal-IsSynced :
        (user_id goal_id : ℕ) (d : Db) → delete_goal user_id goal_id db ≡ ok d → IsSynced percent d
    unfolding delete_goal
    delete_goal-IsSynced user_id goal_id d e = elim (Result-cases (get_goal user_id goal_id db)) [
      | inr (x, missing) ↦ absurd (ground arith)
      | inl (goal, found) ↦
          let stays = λ (g : Goal). not (g.id == goal.id) in
          let kept = λ (m : GoalMilestone). not (m.goal_id == goal.id) in
          let goals_eq : filter stays db.goals ≡ d.goals = ground arith in
          let steps_eq : filter kept db.milestones ≡ d.milestones = ground arith in
          let next_eq : d.next_id ≡ db.next_id = ground arith in
          record {
            synced =
                subst (λ gs. All (λ g. is_synced percent d.milestones g ≡ true) gs) goals_eq
                  (subst (λ ms. All (λ g. is_synced percent ms g ≡ true) (filter stays db.goals))
                    steps_eq
                    (All-imp (λ g. (stays g ≡ true) × (is_synced percent db.milestones g ≡ true)) _
                      (filter stays db.goals)
                      (λ g k.
                        synced-elsewhere percent db.milestones (filter kept db.milestones) g
                          (counts-drop goal.id db.milestones g (ground (arith, k.0))) k.1)
                      (All-filter _ stays db.goals h.synced)));
            distinct = subst IsDistinct steps_eq (filter-IsDistinct kept db.milestones h.distinct);
            known_goals = rw next_eq (
                subst (All (λ (g : Goal). g.id < db.next_id)) goals_eq
                  (All-kept _ stays db.goals h.known_goals));
            known_milestones = rw next_eq (
                subst (All (λ (m : GoalMilestone). m.id < db.next_id)) steps_eq
                  (All-kept _ kept db.milestones h.known_milestones));
            owned = rw next_eq (
                subst (All (λ (m : GoalMilestone). m.goal_id < db.next_id)) steps_eq
                  (All-kept _ kept db.milestones h.owned));
          }
    ]
