-- ===== src/Goals/Progress/Changes.antt =====
-- The change and the deletion of a milestone, and the progress of the goals.
use mathlib.Core.Path.{subst}
use gummy_os.Common.{
  ℕ, ◌<◌, ◌≡◌, refl, Bool, Bool-cases, true, false, ◌&&◌, not, ◌==◌, All, All-imp, All-kept,
  All-update, All-find, find, filter, some, inl, inr, Result-cases, ok, arith,
}
use gummy_os.Goals.{Goal, GoalMilestone, Db, Change, unset, null, to}
use gummy_os.Goals.Service.{get_goal}
use gummy_os.Goals.Milestones.{
  MilestoneUpdate, add_milestone, update_milestone, delete_milestone, resync, save_milestone,
  get_milestone, stamp,
}
use gummy_os.Goals.Milestones as Milestones
use gummy_os.Goals.Distinct.{found-goal, filter-IsDistinct, update-IsDistinct}
use gummy_os.Goals.Progress.{IsSynced, IsElsewhere, IsKeyed, resync-IsSynced, found-own, found-all}
use gummy_os.Goals.Progress.Steps.{counts-update, counts-filter}

-- A change of a milestone keeps its id and its goal.
stamp-keeps :
    (now : ℕ) (completed : Change Bool) (m : GoalMilestone)
    → ((stamp now completed m).id ≡ m.id) × ((stamp now completed m).goal_id ≡ m.goal_id)
unfolding stamp
stamp-keeps now unset m = (refl, refl)
stamp-keeps now null m = (refl, refl)
stamp-keeps now (to false) m = (refl, refl)
stamp-keeps now (to true) m = elim (Bool-cases m.completed) [
  | inl done ↦ (ground arith, ground arith)
  | inr fresh ↦ (ground arith, ground arith)
]

module _ (percent : ℕ → ℕ → ℕ) (db : Db) (h : IsSynced percent db) where
  -- What is known of a milestone that was read.
  module _ (user_id milestone_id : ℕ) (m : GoalMilestone)
      (there : get_milestone user_id milestone_id db ≡ ok m) where
    there-find : find (λ x. x.id == milestone_id && x.user_id == user_id) db.milestones ≡ some m
    unfolding get_milestone
    there-find = ground arith

    there-goal : All (λ x. (x.id == m.id) ≡ true → x.goal_id ≡ m.goal_id) db.milestones
    there-goal = found-goal _ db.milestones m h.distinct there-find

    there-known : m.id < db.next_id
    there-known =
        All-find (λ (x : GoalMilestone). x.id < db.next_id) _ db.milestones m h.known_milestones
          there-find

    there-owned : m.goal_id < db.next_id
    there-owned =
        All-find (λ (x : GoalMilestone). x.goal_id < db.next_id) _ db.milestones m h.owned
          there-find

    save-IsKeyed :
        (b : GoalMilestone)
        → b.id ≡ m.id
        → b.goal_id ≡ m.goal_id
        → IsKeyed percent (save_milestone b db)
    unfolding save_milestone
    save-IsKeyed b id_eq goal_eq =
        let own = λ (x : GoalMilestone). x.id == b.id in
        record {
          distinct = update-IsDistinct b db.milestones h.distinct;
          known_goals = h.known_goals;
          known_milestones =
              All-update _ own (λ _. b) db.milestones (λ _ _ _. omega (arith, id_eq, there-known))
                h.known_milestones;
          owned =
              All-update _ own (λ _. b) db.milestones (λ _ _ _. omega (arith, goal_eq, there-owned))
                h.owned;
        }

    delete-IsKeyed : IsKeyed percent (record db {
      milestones = filter (λ (x : GoalMilestone). not (x.id == m.id)) db.milestones;
    })
    delete-IsKeyed =
        let kept = λ (x : GoalMilestone). not (x.id == m.id) in
        record {
          distinct = filter-IsDistinct kept db.milestones h.distinct;
          known_goals = h.known_goals;
          known_milestones = All-kept _ kept db.milestones h.known_milestones;
          owned = All-kept _ kept db.milestones h.owned;
        }

  pub change_step-IsSynced :
      (user_id milestone_id : ℕ) (changes : MilestoneUpdate) (now : ℕ) (m : GoalMilestone) (d : Db)
      → update_milestone percent user_id milestone_id changes now db ≡ ok (m, d)
      → IsSynced percent d
  unfolding update_milestone
  change_step-IsSynced user_id milestone_id changes now m d e =
      elim (Result-cases (get_milestone user_id milestone_id db)) [
        | inr (x, missing) ↦ absurd (ground arith)
        | inl (old, there) ↦
            let b = Milestones.apply_changes changes (stamp now changes.completed old) in
            let mid = save_milestone b db in
            let id_eq : b.id ≡ old.id =
              unfold Milestones.apply_changes in (stamp-keeps now changes.completed old).0 in
            let goal_eq : b.goal_id ≡ old.goal_id =
              unfold Milestones.apply_changes in (stamp-keeps now changes.completed old).1 in
            elim (Result-cases (get_goal user_id b.goal_id mid)) [
              | inr (x, missing) ↦ absurd (ground arith)
              | inl (goal, found) ↦
                  let saved : resync percent user_id goal mid ≡ d = ground arith in
                  let (own, user_eq) = found-own percent user_id b.goal_id mid goal found in
                  let same : All (λ x. (x.id == b.id) ≡ true → x.goal_id ≡ b.goal_id)
                      db.milestones =
                    All-imp (λ x. (x.id == old.id) ≡ true → x.goal_id ≡ old.goal_id) _ db.milestones
                      (λ x k hit. ground (arith, k (ground (arith, id_eq)), goal_eq))
                      (there-goal user_id milestone_id old there) in
                  let k = save-IsKeyed user_id milestone_id old there b id_eq goal_eq in
                  subst (IsSynced percent) saved (
                    resync-IsSynced percent user_id goal db.milestones mid k
                      (found-all percent (λ (g : Goal). g.id < mid.next_id) user_id b.goal_id mid
                        goal k.known_goals found)
                      user_eq
                      (λ g.
                        unfold IsElsewhere save_milestone in
                        (λ other. counts-update b db.milestones g (ground (arith, own)) same))
                      (unfold save_milestone in h.synced))
            ]
      ]

  pub delete_step-IsSynced :
      (user_id milestone_id : ℕ) (d : Db)
      → delete_milestone percent user_id milestone_id db ≡ ok d
      → IsSynced percent d
  unfolding delete_milestone
  delete_step-IsSynced user_id milestone_id d e =
      elim (Result-cases (get_milestone user_id milestone_id db)) [
        | inr (x, missing) ↦ absurd (ground arith)
        | inl (m, there) ↦
            let mid = record db {
              milestones = filter (λ (x : GoalMilestone). not (x.id == m.id)) db.milestones;
            } in
            elim (Result-cases (get_goal user_id m.goal_id mid)) [
              | inr (x, missing) ↦ absurd (ground arith)
              | inl (goal, found) ↦
                  let saved : resync percent user_id goal mid ≡ d = ground arith in
                  let (own, user_eq) = found-own percent user_id m.goal_id mid goal found in
                  let k = delete-IsKeyed user_id milestone_id m there in
                  subst (IsSynced percent) saved (
                    resync-IsSynced percent user_id goal db.milestones mid k
                      (found-all percent (λ (g : Goal). g.id < mid.next_id) user_id m.goal_id mid
                        goal k.known_goals found)
                      user_eq
                      (λ g.
                        unfold IsElsewhere in
                        (λ other.
                          counts-filter m db.milestones g (ground (arith, own))
                            (there-goal user_id milestone_id m there)))
                      h.synced)
            ]
      ]
