-- ===== src/Automations/Claims.antt =====
-- The life of the two tables as a sequence of events, and the claims of slots in it. `ticked` is one
-- pass of a scheduler; `worker` is a pass over rows read earlier, which other events may have changed
-- since.
use mathlib.Core.Path.{subst}
use gummy_os.Common.{
  ℕ, ◌+◌, ◌++◌, ◌==◌, ◌≤◌, ◌≡◌, refl, Text, Bool, Bool-cases, List, [], ◌∷◌, Option, none, some,
  Option-cases, inl, inr, count_if, count_if-update, count_if-filter-le, count_if-none,
  count_if-snoc, any, not, take, false, arith, Result, ok, err,
}
use gummy_os.Models.{AutomationKind, AutomationSchedule, AutomationRunStatus}
use gummy_os.Tools.{Value}
use gummy_os.Automations.{Automation, AutomationRun, Db}
use gummy_os.Automations.Repository.{
  create_automation, is_claim, claim_run, finish_run, delete_automation, get_automation, ended,
  save, list_due,
}
use gummy_os.Automations.Service.{
  create, get, set_enabled, delete, render, finish, slot_or, run_once, run_each, run_due,
  scheduler_batch_size,
}

pub data Event : Type 0 where
  created :
      (user_id : ℕ) (name : Text)
      → AutomationKind
      → AutomationSchedule
      → (run_at : ℕ) (description : Option Text) (payload : Value) → Event
  toggled : (user_id automation_id : ℕ) (enabled : Bool) (now : ℕ) → Event
  deleted : (user_id automation_id : ℕ) → Event
  ticked : (now : ℕ) → Event
  worker : (due : List Automation) (now : ℕ) → Event

module _ (float_bool : Text → Bool) (str_of : Value → Result Text Text) where
  -- The tables after an event; an event that raises leaves them as they are.
  unfoldable pub handle : Event → Db → Db
  unfolding create set_enabled delete run_each run_due
  handle event db = elim event [
    | created user_id name kind schedule run_at description payload ↦
        (create user_id name kind schedule run_at description payload db).1
    | toggled user_id automation_id enabled now ↦
        elim (set_enabled user_id automation_id enabled now db) [
          | err e ↦ db
          | ok result ↦ result.1
        ]
    | deleted user_id automation_id ↦ elim (delete user_id automation_id db) [
      | err e ↦ db
      | ok db1 ↦ db1
    ]
    | ticked now ↦ (run_due float_bool str_of now scheduler_batch_size db).1
    | worker due now ↦ (run_each float_bool str_of due now db).1
  ]

  unfoldable pub serve : List Event → Db → Db
  unfolding handle
  serve [] db = db
  serve (event ∷ rest) db = serve rest (handle event db)

-- What a claim that succeeded did.
pub record IsClaimed (a : Automation) (slot : ℕ) (db db1 : Db) (run : AutomationRun) : Type 0 where
  pub was_free : any (is_claim a.id slot) db.runs ≡ false
  pub is_added : db1.runs ≡ db.runs ++ run ∷ []
  pub automations_eq : db1.automations ≡ db.automations
  pub next_id_eq : db1.next_id ≡ db.next_id + 1
  pub owner : run.automation_id ≡ a.id
  pub slot_eq : run.scheduled_for ≡ slot

pub claim_run-IsClaimed :
    (a : Automation) (slot : ℕ) (db db1 : Db) (run : AutomationRun)
    → claim_run a slot db ≡ some (run, db1)
    → IsClaimed a slot db db1 run
unfolding claim_run
claim_run-IsClaimed a slot db db1 run e = record {
  was_free = ground arith;
  is_added = ground arith;
  automations_eq = ground arith;
  next_id_eq = ground arith;
  owner = ground arith;
  slot_eq = ground arith;
}

module _ (i slot : ℕ) where
  claims : List AutomationRun → ℕ
  claims runs = count_if (is_claim i slot) runs

  claim-claims :
      (a : Automation) (s : ℕ) (db db1 : Db) (run : AutomationRun)
      → IsClaimed a s db db1 run
      → claims db.runs ≤ 1
      → claims db1.runs ≤ 1
  unfolding claims is_claim
  claim-claims a s db db1 run c h = rw c.is_added (elim (Bool-cases (is_claim i slot run)) [
    | inl own ↦
        let none_yet : count_if (is_claim i slot) db.runs ≡ 0 =
          count_if-none (is_claim i slot) db.runs (
            let owner : a.id ≡ i = ground arith in
            let due : s ≡ slot = ground arith in
            subst (λ x. any (is_claim x slot) db.runs ≡ false) owner
              (subst (λ y. any (is_claim a.id y) db.runs ≡ false) due c.was_free)) in
        ground (arith, count_if-snoc (is_claim i slot) db.runs run)
    | inr other ↦ ground (arith, count_if-snoc (is_claim i slot) db.runs run)
  ])

  finish_run-claims :
      (run : AutomationRun) (status : AutomationRunStatus) (now : ℕ) (output error : Option Text)
      (db : Db)
      → claims (finish_run run status now output error db).1.runs ≡ claims db.runs
  unfolding claims finish_run ended is_claim
  finish_run-claims run status now output error db =
      count_if-update (is_claim i slot) (λ r. r.id == run.id) (ended status now output error)
        db.runs (λ r. refl)

  module _ (float_bool : Text → Bool) (str_of : Value → Result Text Text) where
    finish-claims :
        (outcome : Result Text Text) (run : AutomationRun) (now : ℕ) (db : Db)
        → claims (finish outcome run now db).1.runs ≡ claims db.runs
    unfolding finish
    finish-claims (ok output) run now db =
        finish_run-claims run AutomationRunStatus.succeeded now (some output) none db
    finish-claims (err exc) run now db =
        finish_run-claims run AutomationRunStatus.failed now none (some (take 500 exc)) db

    run_once-claims :
        (a : Automation) (now : ℕ) (db : Db)
        → claims db.runs ≤ 1
        → claims (run_once float_bool str_of a now db).1.runs ≤ 1
    run_once-claims a now db h = elim (Option-cases (claim_run a (slot_or now a) db)) [
      | inl refused ↦ unfold run_once slot_or in ground arith
      | inr ((run, db1), claimed) ↦
          let before : claims db1.runs ≤ 1 =
            claim-claims a (slot_or now a) db db1 run
              (claim_run-IsClaimed a (slot_or now a) db db1 run claimed) h in
          unfold run_once slot_or save in
          ground (arith, finish-claims (render float_bool str_of a) run now db1)
    ]

    run_each-claims :
        (due : List Automation) (now : ℕ) (db : Db)
        → claims db.runs ≤ 1
        → claims (run_each float_bool str_of due now db).1.runs ≤ 1
    unfolding run_each
    run_each-claims [] now db h = h
    run_each-claims (a ∷ rest) now db h = run_each-claims rest now _ (run_once-claims a now db h)

    handle-claims :
        (event : Event) (db : Db)
        → claims db.runs ≤ 1
        → claims (handle float_bool str_of event db).runs ≤ 1
    unfolding handle
    handle-claims (created user_id name kind schedule run_at description payload) db h =
        unfold create create_automation in h
    handle-claims (toggled user_id automation_id enabled now) db h =
        elim (Option-cases (get_automation automation_id user_id db)) [
          | inl missing ↦ unfold set_enabled get in ground arith
          | inr (a, found) ↦ unfold set_enabled get save in ground arith
        ]
    handle-claims (deleted user_id automation_id) db h =
        elim (Option-cases (get_automation automation_id user_id db)) [
          | inl missing ↦ unfold delete get in ground arith
          | inr (a, found) ↦
              unfold delete get delete_automation claims in
              ground (
                arith,
                count_if-filter-le (is_claim i slot) (λ r. not (r.automation_id == a.id)) db.runs,
              )
        ]
    handle-claims (ticked now) db h =
        unfold run_due in run_each-claims (list_due now scheduler_batch_size db) now db h
    handle-claims (worker due now) db h = run_each-claims due now db h

    serve-claims :
        (events : List Event) (db : Db)
        → claims db.runs ≤ 1
        → claims (serve float_bool str_of events db).runs ≤ 1
    unfolding serve
    serve-claims [] db h = h
    serve-claims (event ∷ rest) db h =
        serve-claims rest (handle float_bool str_of event db) (handle-claims event db h)

-- From tables without a run, whatever the events, and however stale the rows that a scheduler's
-- pass works from, no slot of an automation has two runs.
pub slot_fires_once :
    (float_bool : Text → Bool) (str_of : Value → Result Text Text) (events : List Event) (db : Db)
    (i slot : ℕ)
    → db.runs ≡ []
    → count_if (is_claim i slot) (serve float_bool str_of events db).runs ≤ 1
slot_fires_once float_bool str_of events db i slot empty =
    unfold claims in serve-claims i slot float_bool str_of events db (rw empty (omega arith))
