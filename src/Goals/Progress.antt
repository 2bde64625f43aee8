-- ===== src/Goals/Progress.antt =====
-- The progress of a goal and its milestones, over the requests that the goal and the milestone services
-- serve.
mod Writes
mod Steps
mod Changes
pub mod Served
use mathlib.Core.Path.{subst}
use gummy_os.Common.{
  ℕ, suc, ◌+◌, ◌≤◌, ◌<◌, ◌≡◌, refl, sym, ap, ◌∙◌, Text, Bool, Bool-cases, true, false, ◌&&◌, ◌||◌,
  not, ◌==◌, ==-refl, ltb, List, [], ◌∷◌, ◌++◌, All, All-pair, All-imp, All-kept, All-append,
  All-update, All-update-split, All-filter, All-find, find, find-some, filter, update, count_if,
  count_if-snoc, count_if-update-All, count_if-filter-All, count_if-All-none, Option, none, some,
  Option-cases, inl, inr, Result, Result-cases, ok, err, arith,
}
use gummy_os.Models.{GoalStatus}
use gummy_os.Goals.{
  Goal, GoalMilestone, Db, Change, unset, null, to, is_null, set_required, GoalError,
}
use gummy_os.Goals.Service.{
  GoalCreate, GoalUpdate, create_goal, get_goal, save_goal, is_milestone_of, completion_counts,
  apply_status_side_effects, status_effects, is_empty, has_null, apply_changes, manual_progress,
  update_goal, move_goal, complete_goal, archive_goal, delete_goal, recompute_progress,
}
use gummy_os.Goals.Milestones.{
  MilestoneUpdate, add_milestone, update_milestone, delete_milestone, resync, save_milestone,
  get_milestone, stamp,
}
use gummy_os.Goals.Milestones as Milestones
use gummy_os.Goals.Requests.{
  GoalRequest, create, change, complete, archive, delete, add_step, change_step, delete_step, kept,
  kept_db, handle, serve,
}
use gummy_os.Goals.Distinct.{
  IsDistinct, found-goal, filter-IsDistinct, append-IsDistinct, update-IsDistinct,
}

module _ (percent : ℕ → ℕ → ℕ) where
  -- The goal has no milestone, or its progress is that of its milestones.
  unfoldable pub is_synced : List GoalMilestone → Goal → Bool
  unfolding completion_counts
  is_synced milestones goal =
      let (completed, total) = completion_counts goal.id goal.user_id milestones in
      not (ltb 0 total) || (goal.progress_percentage == percent completed total)

  pub record IsSynced (db : Db) : Type 0 where
    pub synced : All (λ g. is_synced db.milestones g ≡ true) db.goals
    pub distinct : IsDistinct db.milestones
    pub known_goals : All (λ (g : Goal). g.id < db.next_id) db.goals
    pub known_milestones : All (λ (m : GoalMilestone). m.id < db.next_id) db.milestones
    pub owned : All (λ (m : GoalMilestone). m.goal_id < db.next_id) db.milestones

  -- What a write of the milestones leaves of the count for the goals of other ids.
  pub IsElsewhere : (goal_id : ℕ) → List GoalMilestone → List GoalMilestone → Goal → Type 0
  IsElsewhere goal_id before after g =
      (g.id == goal_id) ≡ false
      → (completion_counts g.id g.user_id after ≡ completion_counts g.id g.user_id before)

  -- The parts of consistency beside the progress.
  pub record IsKeyed (db : Db) : Type 0 where
    pub distinct : IsDistinct db.milestones
    pub known_goals : All (λ (g : Goal). g.id < db.next_id) db.goals
    pub known_milestones : All (λ (m : GoalMilestone). m.id < db.next_id) db.milestones
    pub owned : All (λ (m : GoalMilestone). m.goal_id < db.next_id) db.milestones

  resynced :
      (user_id : ℕ) (goal : Goal) (ms : List GoalMilestone)
      → goal.user_id ≡ user_id
      → is_synced ms (recompute_progress percent user_id goal ms) ≡ true
  unfolding is_synced recompute_progress completion_counts
  resynced user_id goal ms own =
      elim (Bool-cases (ltb 0 (count_if (is_milestone_of goal.id user_id) ms))) [
        | inl some_of ↦ ground arith
        | inr none_of ↦ ground arith
      ]

  recompute-id :
      (user_id : ℕ) (goal : Goal) (ms : List GoalMilestone)
      → (recompute_progress percent user_id goal ms).id ≡ goal.id
  unfolding recompute_progress
  recompute-id user_id goal ms =
      elim (Bool-cases (ltb 0 (completion_counts goal.id user_id ms).1)) [
        | inl some_of ↦ ground arith
        | inr none_of ↦ ground arith
      ]

  pub synced-elsewhere :
      (before after : List GoalMilestone) (g : Goal)
      → completion_counts g.id g.user_id after ≡ completion_counts g.id g.user_id before
      → is_synced before g ≡ true
      → is_synced after g ≡ true
  unfolding is_synced completion_counts
  synced-elsewhere before after g same h =
      ground (arith, ap (λ (c : ℕ × ℕ). c.0) same, ap (λ (c : ℕ × ℕ). c.1) same)

  -- The goals after a row is saved: the new row is synced, and so are those of other ids.
  pub save-IsSynced :
      (b : Goal) (before : List GoalMilestone) (mid : Db)
      → IsKeyed mid
      → b.id < mid.next_id
      → is_synced mid.milestones b ≡ true
      → ((g : Goal) → IsElsewhere b.id before mid.milestones g)
      → All (λ g. is_synced before g ≡ true) mid.goals
      → IsSynced (save_goal b mid)
  unfolding save_goal IsElsewhere
  save-IsSynced b before mid k known new elsewhere h = record {
    synced =
        All-update-split (λ g. is_synced before g ≡ true) (λ g. is_synced mid.milestones g ≡ true)
          (λ g. g.id == b.id) (λ _. b) mid.goals (λ g hit old. new)
          (λ g miss old. synced-elsewhere before mid.milestones g (elsewhere g miss) old) h;
    distinct = k.distinct;
    known_goals =
        All-update _ (λ g. g.id == b.id) (λ _. b) mid.goals (λ _ _ _. known) k.known_goals;
    known_milestones = k.known_milestones;
    owned = k.owned;
  }

  pub resync-IsSynced :
      (user_id : ℕ) (goal : Goal) (before : List GoalMilestone) (mid : Db)
      → IsKeyed mid
      → goal.id < mid.next_id
      → goal.user_id ≡ user_id
      → ((g : Goal) → IsElsewhere goal.id before mid.milestones g)
      → All (λ g. is_synced before g ≡ true) mid.goals
      → IsSynced (resync percent user_id goal mid)
  unfolding resync
  resync-IsSynced user_id goal before mid k known own elsewhere h =
      let same = recompute-id user_id goal mid.milestones in
      let b = recompute_progress percent user_id goal mid.milestones in
      save-IsSynced b before mid k (omega (arith, same)) (resynced user_id goal mid.milestones own)
        (λ g. subst (λ i. IsElsewhere i before mid.milestones g) (sym same) (elsewhere g)) h

  pub keyed : (db : Db) → IsSynced db → IsKeyed db
  keyed db h = record {
    distinct = h.distinct;
    known_goals = h.known_goals;
    known_milestones = h.known_milestones;
    owned = h.owned;
  }

  -- What is known of a goal that was read.
  pub found-own :
      (user_id goal_id : ℕ) (db : Db) (goal : Goal)
      → get_goal user_id goal_id db ≡ ok goal
      → (goal.id ≡ goal_id) × (goal.user_id ≡ user_id)
  unfolding get_goal
  found-own user_id goal_id db goal found =
      let hit =
        find-some (λ (g : Goal). g.id == goal_id && g.user_id == user_id) db.goals goal
          (ground arith) in
      (ground arith, ground arith)

  pub found-all {κ} :
      (P : Goal → Type κ) (user_id goal_id : ℕ) (db : Db) (goal : Goal)
      → All P db.goals
      → get_goal user_id goal_id db ≡ ok goal
      → P goal
  unfolding get_goal
  found-all P user_id goal_id db goal h found =
      All-find P (λ g. g.id == goal_id && g.user_id == user_id) db.goals goal h (ground arith)

  -- A goal that is newer than every milestone has none.
  pub fresh-synced :
      (ms : List GoalMilestone) (goal : Goal)
      → All (λ (m : GoalMilestone). m.goal_id < goal.id) ms
      → is_synced ms goal ≡ true
  unfolding is_synced completion_counts
  fresh-synced ms goal older = ground (
    arith,
    count_if-All-none (is_milestone_of goal.id goal.user_id) ms (
        All-imp (λ (m : GoalMilestone). m.goal_id < goal.id)
          (λ m. is_milestone_of goal.id goal.user_id m ≡ false) ms
          (λ m k. unfold is_milestone_of in ground arith) older),
  )

  -- A row with a synced row's id, owner and progress is synced, and so is any row of a goal without
  -- milestones.
  pub same-synced :
      (ms : List GoalMilestone) (goal b : Goal)
      → b.id ≡ goal.id
      → b.user_id ≡ goal.user_id
      → b.progress_percentage ≡ goal.progress_percentage
      → is_synced ms goal ≡ true
      → is_synced ms b ≡ true
  unfolding is_synced completion_counts
  same-synced ms goal b id_eq user_eq progress_eq h = rw (id_eq, user_eq, progress_eq) h

  pub empty-synced :
      (ms : List GoalMilestone) (goal b : Goal)
      → b.id ≡ goal.id
      → b.user_id ≡ goal.user_id
      → ltb 0 (completion_counts goal.id goal.user_id ms).1 ≡ false
      → is_synced ms b ≡ true
  unfolding is_synced completion_counts
  empty-synced ms goal b id_eq user_eq none_of = rw (id_eq, user_eq) (ground arith)
