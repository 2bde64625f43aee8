-- ===== src/Goals/Milestones.antt =====
-- backend/app/services/goals/milestone_service.py and backend/app/repositories/milestone_repository.py.
use gummy_os.Common.{
  ℕ, suc, max, Text, Bool, true, false, ◌&&◌, ◌||◌, not, ◌==◌, List, [], ◌∷◌, ◌++◌, find, update,
  filter, Option, none, some, Result, ok, err, if◌then◌else◌,
}
use gummy_os.Goals.{
  Goal, GoalMilestone, Db, Change, unset, null, to, is_set, is_null, set_required, GoalError,
  milestone_not_found, empty_update, integrity_error,
}
use gummy_os.Goals.Service.{get_goal, save_goal, is_milestone_of, recompute_progress}

pub record MilestoneUpdate : Type 0 where
  pub title : Change Text
  pub completed : Change Bool
  pub order_index : Change ℕ

unfoldable pub get_milestone : (user_id milestone_id : ℕ) → Db → Result GoalError GoalMilestone
get_milestone user_id milestone_id db =
    elim (find (λ m. m.id == milestone_id && m.user_id == user_id) db.milestones) [
      | none ↦ err (milestone_not_found milestone_id)
      | some m ↦ ok m
    ]

-- `max_order_index`
unfoldable max_order_index : (goal_id user_id : ℕ) → List GoalMilestone → Option ℕ
unfolding is_milestone_of
max_order_index goal_id user_id [] = none
max_order_index goal_id user_id (m ∷ rest) =
    let highest = max_order_index goal_id user_id rest in
    if is_milestone_of goal_id user_id m
    then some (elim highest [ none ↦ m.order_index | some n ↦ max m.order_index n ])
    else highest

-- `(highest + 1) if highest is not None else 0`
unfoldable next_order_index : (goal_id user_id : ℕ) → List GoalMilestone → ℕ
unfolding max_order_index
next_order_index goal_id user_id milestones = elim (max_order_index goal_id user_id milestones) [
  | none ↦ 0
  | some highest ↦ suc highest
]

-- `completed_at` where `completed` is given; a null is falsy.
unfoldable pub stamp : (now : ℕ) → Change Bool → GoalMilestone → GoalMilestone
stamp now unset m = m
stamp now null m = record m { completed_at = none }
stamp now (to true) m = if m.completed then m else record m { completed_at = some now }
stamp now (to false) m = record m { completed_at = none }

unfoldable pub apply_changes : MilestoneUpdate → GoalMilestone → GoalMilestone
unfolding set_required
apply_changes changes m = record m {
  title = set_required changes.title m.title;
  completed = set_required changes.completed m.completed;
  order_index = set_required changes.order_index m.order_index;
}

unfoldable pub is_empty : MilestoneUpdate → Bool
unfolding is_set
is_empty changes =
    not (is_set changes.title || is_set changes.completed || is_set changes.order_index)

unfoldable pub has_null : MilestoneUpdate → Bool
unfolding is_null
has_null changes = is_null changes.title || is_null changes.completed || is_null changes.order_index

unfoldable pub save_milestone : GoalMilestone → Db → Db
save_milestone milestone db = record db {
  milestones = update (λ m. m.id == milestone.id) (λ _. milestone) db.milestones;
}

module _ (percent : ℕ → ℕ → ℕ) where
  -- The goal's new progress, and the commit.
  unfoldable pub resync : (user_id : ℕ) → Goal → Db → Db
  unfolding recompute_progress save_goal
  resync user_id goal db = save_goal (recompute_progress percent user_id goal db.milestones) db

  unfoldable pub add_milestone :
      (user_id goal_id : ℕ) (title : Text) → Db → Result GoalError (GoalMilestone × Db)
  unfolding get_goal next_order_index resync
  add_milestone user_id goal_id title db = elim (get_goal user_id goal_id db) [
    | err e ↦ err e
    | ok goal ↦
        let milestone : GoalMilestone = record {
          id = db.next_id;
          user_id = user_id;
          goal_id = goal.id;
          title = title;
          completed = false;
          completed_at = none;
          order_index = next_order_index goal.id user_id db.milestones;
        } in
        let added = record db {
          milestones = db.milestones ++ milestone ∷ [];
          next_id = suc db.next_id;
        } in
        ok (milestone, resync user_id goal added)
  ]

  -- The flush before the goal's read raises the integrity error of a null.
  unfoldable pub update_milestone :
      (user_id milestone_id : ℕ)
      → MilestoneUpdate
      → (now : ℕ) → Db
      → Result GoalError (GoalMilestone × Db)
  unfolding get_goal get_milestone stamp apply_changes is_empty has_null save_milestone resync
  update_milestone user_id milestone_id changes now db =
      if is_empty changes then err empty_update else elim (get_milestone user_id milestone_id db) [
        | err e ↦ err e
        | ok m ↦
            let changed = apply_changes changes (stamp now changes.completed m) in
            let flushed = save_milestone changed db in
            if has_null changes
            then err integrity_error
            else elim (get_goal user_id changed.goal_id flushed) [
              | err e ↦ err e
              | ok goal ↦ ok (changed, resync user_id goal flushed)
            ]
      ]

  unfoldable pub delete_milestone : (user_id milestone_id : ℕ) → Db → Result GoalError Db
  unfolding get_goal get_milestone resync
  delete_milestone user_id milestone_id db = elim (get_milestone user_id milestone_id db) [
    | err e ↦ err e
    | ok m ↦
        let deleted = record db { milestones = filter (λ x. not (x.id == m.id)) db.milestones } in
        elim (get_goal user_id m.goal_id deleted) [
          | err e ↦ err e
          | ok goal ↦ ok (resync user_id goal deleted)
        ]
  ]
