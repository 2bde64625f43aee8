-- ===== src/Goals/Stamps.antt =====
-- `completed_at` of one goal, over the writes of its row.
use gummy_os.Common.{
  ℕ, ◌≡◌, refl, Bool, Bool-cases, true, false, ltb, List, All, Option, none, some, Option-cases,
  inl, inr, arith,
}
use gummy_os.Models.{GoalStatus}
use gummy_os.Goals.{Goal, GoalMilestone, Db, Change, unset, null, to, is_null, set_required}
use gummy_os.Goals.Service.{
  GoalUpdate, apply_status_side_effects, status_effects, apply_changes, completion_counts,
  recompute_progress,
}

-- `completed_at` is there where the status is `COMPLETED`, and only there.
abbrev is_stamp : GoalStatus → Option ℕ → Bool
is_stamp GoalStatus.completed none = false
is_stamp GoalStatus.completed (some t) = true
is_stamp GoalStatus.active none = true
is_stamp GoalStatus.active (some t) = false
is_stamp GoalStatus.archived none = true
is_stamp GoalStatus.archived (some t) = false

abbrev pub is_stamped : Goal → Bool
is_stamped goal = is_stamp goal.status goal.completed_at

abbrev pub AllStamped : Db → Type 0
AllStamped db = All (λ g. is_stamped g ≡ true) db.goals

effects-stamp :
    (now : ℕ) (status : GoalStatus) (goal : Goal)
    → is_stamp status (apply_status_side_effects now status goal).completed_at ≡ true
unfolding apply_status_side_effects
effects-stamp now GoalStatus.active goal = refl
effects-stamp now GoalStatus.archived goal = refl
effects-stamp now GoalStatus.completed goal = elim (Option-cases goal.completed_at) [
  | inl never ↦ ground arith
  | inr (t, e) ↦ ground arith
]

effects-status :
    (now : ℕ) (status : GoalStatus) (goal : Goal)
    → (apply_status_side_effects now status goal).status ≡ goal.status
unfolding apply_status_side_effects
effects-status now GoalStatus.active goal = refl
effects-status now GoalStatus.archived goal = refl
effects-status now GoalStatus.completed goal = elim (Option-cases goal.completed_at) [
  | inl never ↦ ground arith
  | inr (t, e) ↦ ground arith
]

pub moved-stamped :
    (now : ℕ) (status : GoalStatus) (goal : Goal)
    → is_stamped (apply_status_side_effects now status (record goal { status = status })) ≡ true
moved-stamped now status goal =
    rw (effects-status now status (record goal { status = status }))
      (effects-stamp now status (record goal { status = status }))

changed-stamp :
    (now : ℕ) (change : Change GoalStatus) (goal : Goal)
    → is_stamped goal ≡ true
    → is_null change ≡ false
    → is_stamp
        (set_required change (status_effects now change goal).status)
        (status_effects now change goal).completed_at
      ≡ true
unfolding status_effects is_null set_required
changed-stamp now unset goal h given = h
changed-stamp now null goal h given = cc
changed-stamp now (to status) goal h given = effects-stamp now status goal

pub changed-stamped :
    (now : ℕ) (changes : GoalUpdate) (progress : Change ℕ) (goal : Goal)
    → is_stamped goal ≡ true
    → is_null changes.status ≡ false
    → is_stamped (apply_changes changes progress (status_effects now changes.status goal)) ≡ true
unfolding apply_changes
changed-stamped now changes progress goal h given = changed-stamp now changes.status goal h given

pub resynced-stamped :
    (percent : ℕ → ℕ → ℕ) (user_id : ℕ) (goal : Goal) (milestones : List GoalMilestone)
    → is_stamped goal ≡ true
    → is_stamped (recompute_progress percent user_id goal milestones) ≡ true
unfolding recompute_progress
resynced-stamped percent user_id goal milestones h =
    elim (Bool-cases (ltb 0 (completion_counts goal.id user_id milestones).1)) [
      | inl some_of ↦ unfold completion_counts in ground arith
      | inr none_of ↦ unfold completion_counts in ground arith
    ]
