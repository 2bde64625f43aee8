-- ===== src/Goals/Progress/Steps.antt =====
-- The writes of the milestones, and the progress of the goals.
use mathlib.Core.Path.{subst}
use gummy_os.Common.{
  ℕ, suc, ◌<◌, ◌≡◌, Text, true, false, ◌&&◌, not, ◌==◌, List, [], ◌∷◌, ◌++◌, All, All-imp,
  All-every, All-append, filter, update, count_if, count_if-snoc, count_if-update-All,
  count_if-filter-All, inl, inr, Result-cases, ok, arith,
}
use gummy_os.Goals.{Goal, GoalMilestone, Db}
use gummy_os.Goals.Service.{get_goal, is_milestone_of, completion_counts}
use gummy_os.Goals.Milestones.{add_milestone, resync}
use gummy_os.Goals.Distinct.{append-IsDistinct}
use gummy_os.Goals.Progress.{IsSynced, IsElsewhere, IsKeyed, resync-IsSynced, found-own, found-all}

-- The counts of a goal that none of the written rows belongs to.
pub counts-update :
    (b : GoalMilestone) (ms : List GoalMilestone) (g : Goal)
    → (g.id == b.goal_id) ≡ false
    → All (λ x. (x.id == b.id) ≡ true → x.goal_id ≡ b.goal_id) ms
    → completion_counts g.id g.user_id (update (λ x. x.id == b.id) (λ _. b) ms)
      ≡ completion_counts g.id g.user_id ms
unfolding completion_counts is_milestone_of
counts-update b ms g other same =
    let mine = is_milestone_of g.id g.user_id in
    let done = λ (x : GoalMilestone). mine x && x.completed in
    let own = λ (x : GoalMilestone). x.id == b.id in
    let total : count_if mine (update own (λ _. b) ms) ≡ count_if mine ms =
      count_if-update-All mine own (λ _. b) ms
        (All-imp (λ x. own x ≡ true → x.goal_id ≡ b.goal_id) (λ x. own x ≡ true → mine b ≡ mine x)
          ms (λ x k hit. ground (arith, k hit)) same) in
    let completed : count_if done (update own (λ _. b) ms) ≡ count_if done ms =
      count_if-update-All done own (λ _. b) ms
        (All-imp (λ x. own x ≡ true → x.goal_id ≡ b.goal_id) (λ x. own x ≡ true → done b ≡ done x)
          ms (λ x k hit. ground (arith, k hit)) same) in
    cc

pub counts-filter :
    (m : GoalMilestone) (ms : List GoalMilestone) (g : Goal)
    → (g.id == m.goal_id) ≡ false
    → All (λ x. (x.id == m.id) ≡ true → x.goal_id ≡ m.goal_id) ms
    → completion_counts g.id g.user_id (filter (λ x. not (x.id == m.id)) ms)
      ≡ completion_counts g.id g.user_id ms
unfolding completion_counts is_milestone_of
counts-filter m ms g other same =
    let mine = is_milestone_of g.id g.user_id in
    let done = λ (x : GoalMilestone). mine x && x.completed in
    let kept = λ (x : GoalMilestone). not (x.id == m.id) in
    let total : count_if mine (filter kept ms) ≡ count_if mine ms =
      count_if-filter-All mine kept ms (
        All-imp (λ x. (x.id == m.id) ≡ true → x.goal_id ≡ m.goal_id)
          (λ x. kept x ≡ false → mine x ≡ false) ms (λ x k gone. ground (arith, k (ground arith)))
          same) in
    let completed : count_if done (filter kept ms) ≡ count_if done ms =
      count_if-filter-All done kept ms (
        All-imp (λ x. (x.id == m.id) ≡ true → x.goal_id ≡ m.goal_id)
          (λ x. kept x ≡ false → done x ≡ false) ms (λ x k gone. ground (arith, k (ground arith)))
          same) in
    cc

counts-append :
    (m : GoalMilestone) (ms : List GoalMilestone) (g : Goal)
    → (g.id == m.goal_id) ≡ false
    → completion_counts g.id g.user_id (ms ++ m ∷ []) ≡ completion_counts g.id g.user_id ms
unfolding completion_counts is_milestone_of
counts-append m ms g other =
    let mine = is_milestone_of g.id g.user_id in
    let done = λ (x : GoalMilestone). mine x && x.completed in
    let total : count_if mine (ms ++ m ∷ []) ≡ count_if mine ms =
      ground (arith, count_if-snoc mine ms m) in
    let completed : count_if done (ms ++ m ∷ []) ≡ count_if done ms =
      ground (arith, count_if-snoc done ms m) in
    cc

pub counts-drop :
    (goal_id : ℕ) (ms : List GoalMilestone) (g : Goal)
    → (g.id == goal_id) ≡ false
    → completion_counts g.id g.user_id (filter (λ m. not (m.goal_id == goal_id)) ms)
      ≡ completion_counts g.id g.user_id ms
unfolding completion_counts is_milestone_of
counts-drop goal_id ms g other =
    let mine = is_milestone_of g.id g.user_id in
    let done = λ (x : GoalMilestone). mine x && x.completed in
    let kept = λ (x : GoalMilestone). not (x.goal_id == goal_id) in
    let total : count_if mine (filter kept ms) ≡ count_if mine ms =
      count_if-filter-All mine kept ms
        (All-every (λ x. kept x ≡ false → mine x ≡ false) ms (λ x gone. ground arith)) in
    let completed : count_if done (filter kept ms) ≡ count_if done ms =
      count_if-filter-All done kept ms
        (All-every (λ x. kept x ≡ false → done x ≡ false) ms (λ x gone. ground arith)) in
    cc

module _ (percent : ℕ → ℕ → ℕ) (db : Db) (h : IsSynced percent db) where
  pub add-IsSynced :
      (user_id goal_id : ℕ) (title : Text) (m : GoalMilestone) (d : Db)
      → add_milestone percent user_id goal_id title db ≡ ok (m, d)
      → IsSynced percent d
  unfolding add_milestone
  add-IsSynced user_id goal_id title m d e = elim (Result-cases (get_goal user_id goal_id db)) [
    | inr (x, missing) ↦ absurd (ground arith)
    | inl (goal, found) ↦
        let mid = record db { milestones = db.milestones ++ m ∷ []; next_id = suc db.next_id } in
        let saved : resync percent user_id goal mid ≡ d = ground arith in
        let known =
          found-all percent (λ (g : Goal). g.id < db.next_id) user_id goal_id db goal h.known_goals
            found in
        let own : m.goal_id ≡ goal.id = ground arith in
        let fresh : m.id ≡ db.next_id = ground arith in
        let k : IsKeyed percent mid = record {
          distinct =
              append-IsDistinct db.milestones m
                (All-imp (λ (x : GoalMilestone). x.id < db.next_id) _ db.milestones
                  (λ x k. ground arith) h.known_milestones)
                h.distinct;
          known_goals =
              All-imp (λ (g : Goal). g.id < db.next_id) _ db.goals (λ g k. omega arith)
                h.known_goals;
          known_milestones =
              All-append _ db.milestones (m ∷ [])
                (All-imp (λ (x : GoalMilestone). x.id < db.next_id) _ db.milestones
                  (λ x k. omega arith) h.known_milestones)
                (omega (arith, fresh), tt);
          owned =
              All-append _ db.milestones (m ∷ [])
                (All-imp (λ (x : GoalMilestone). x.goal_id < db.next_id) _ db.milestones
                  (λ x k. omega arith) h.owned)
                (omega (arith, own, known), tt);
        } in
        subst (IsSynced percent) saved (
          resync-IsSynced percent user_id goal db.milestones mid k (omega (arith, known))
            (found-own percent user_id goal_id db goal found).1
            (λ g.
              unfold IsElsewhere in
              (λ other. counts-append m db.milestones g (ground (arith, own))))
            h.synced)
  ]
