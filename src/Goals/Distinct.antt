-- ===== src/Goals/Distinct.antt =====
-- Milestones of distinct ids: a row that shares its id with the one that was read is that row.
use gummy_os.Common.{
  ◌≡◌, Bool, Bool-cases, true, false, ◌==◌, List, [], ◌∷◌, ◌++◌, All, All-imp, All-kept, All-append,
  All-update, All-find, find, filter, update, some, inl, inr, arith,
}
use gummy_os.Goals.{GoalMilestone}

-- No two rows have the same id.
unfoldable pub IsDistinct : List GoalMilestone → Type 0
IsDistinct [] = Unit
IsDistinct (m ∷ rest) = All (λ x. (x.id == m.id) ≡ false) rest × IsDistinct rest

-- A row with the id of the row that was read belongs to the same goal.
pub found-goal :
    (p : GoalMilestone → Bool) (ms : List GoalMilestone) (m : GoalMilestone)
    → IsDistinct ms
    → find p ms ≡ some m
    → All (λ x. (x.id == m.id) ≡ true → x.goal_id ≡ m.goal_id) ms
unfolding IsDistinct
found-goal p [] m d found = tt
found-goal p (y ∷ ys) m d found = elim (Bool-cases (p y)) [
  | inl hit ↦ ((λ same. ground arith), All-imp _ _ ys (λ x other same. ground arith) d.0)
  | inr miss ↦
      let later : find p ys ≡ some m = ground arith in
      let other : (m.id == y.id) ≡ false =
        All-find (λ x. (x.id == y.id) ≡ false) p ys m d.0 later in
      ((λ same. ground arith), found-goal p ys m d.1 later)
]

pub filter-IsDistinct :
    (q : GoalMilestone → Bool) (ms : List GoalMilestone) → IsDistinct ms → IsDistinct (filter q ms)
unfolding IsDistinct
filter-IsDistinct q [] d = tt
filter-IsDistinct q (y ∷ ys) d = elim (Bool-cases (q y)) [
  | inl kept ↦ rw kept (All-kept _ q ys d.0, filter-IsDistinct q ys d.1)
  | inr dropped ↦ rw dropped (filter-IsDistinct q ys d.1)
]

pub append-IsDistinct :
    (ms : List GoalMilestone) (m : GoalMilestone)
    → All (λ x. (x.id == m.id) ≡ false) ms
    → IsDistinct ms
    → IsDistinct (ms ++ m ∷ [])
unfolding IsDistinct
append-IsDistinct [] m fresh d = (tt, tt)
append-IsDistinct (y ∷ ys) m fresh d =
    (All-append _ ys (m ∷ []) d.0 (ground (arith, fresh.0), tt), append-IsDistinct ys m fresh.1 d.1)

-- A row is replaced by one with its id.
pub update-IsDistinct :
    (b : GoalMilestone) (ms : List GoalMilestone)
    → IsDistinct ms
    → IsDistinct (update (λ x. x.id == b.id) (λ _. b) ms)
unfolding IsDistinct
update-IsDistinct b [] d = tt
update-IsDistinct b (y ∷ ys) d = elim (Bool-cases (y.id == b.id)) [
  | inl hit ↦ rw hit (
    All-update _ (λ x. x.id == b.id) (λ _. b) ys (λ x k h. ground arith)
        (All-imp _ _ ys (λ x h. ground arith) d.0),
    update-IsDistinct b ys d.1,
  )
  | inr miss ↦ rw miss (
    All-update _ (λ x. x.id == b.id) (λ _. b) ys (λ x k h. ground arith) d.0,
    update-IsDistinct b ys d.1,
  )
]
