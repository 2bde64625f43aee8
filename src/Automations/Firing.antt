-- ===== src/Automations/Firing.antt =====
-- One firing, and one pass over the rows that were due (`run_once`, `run_due`).
use mathlib.Core.Path.{subst}
use gummy_os.Common.{
  ℕ, ◌+◌, ◌≤◌, ◌<◌, ◌≡◌, ◌∙◌, Text, Bool, true, false, Bool-cases, List, [], ◌∷◌, Option,
  Option-cases, inl, inr, All, All-imp, All-filter, All-take, All-pair, All-append,
  All-update-split, ◌==◌, leb, arith, filter, Result,
}
use gummy_os.Models.{AutomationRunStatus}
use gummy_os.Tools.{Value}
use gummy_os.Automations.{Automation, AutomationRun, Db}
use gummy_os.Automations.Repository.{
  is_due, order_by_slot, insert_by_slot, slot_of, list_due, claim_run, ended, save,
}
use gummy_os.Automations.Service.{render, finish, slot_or, run_once, run_each, run_due}
use gummy_os.Automations.Claims.{IsClaimed, claim_run-IsClaimed}
use gummy_os.Automations.Invariant.{
  is_behind, has_arrived, is_patient, IsConsistent, fired, fired-IsAdvanced, advanced-behind,
  finish-All, finish-rest,
}

-- Every run of the automation is for a slot that has arrived.
pub AllArrived : (now : ℕ) → Db → Automation → Type 0
AllArrived now db a = All (λ run. has_arrived now a run ≡ true) db.runs

-- A row that a pass may fire: its slot has arrived, and so have those of its runs.
pub record IsReady (now : ℕ) (db : Db) (a : Automation) : Type 0 where
  pub due : slot_or now a ≤ now
  pub arrived : AllArrived now db a
  pub known : a.id < db.next_id

-- A claim that succeeded, and what the firing makes of it.
module _ (a : Automation) (now : ℕ) (outcome : Result Text Text) (db db1 : Db) (run : AutomationRun)
    (c : IsClaimed a (slot_or now a) db db1 run) where
  after : Db
  after = save (fired outcome now a) (finish outcome run now db1).1

  after-runs {κ} :
      (P : AutomationRun → Type κ)
      → ((r : AutomationRun) (status : AutomationRunStatus) (t : ℕ) (output error : Option Text)
          → P r
          → P (ended status t output error r))
      → P run
      → All P db.runs
      → All P after.runs
  unfolding after save
  after-runs P k new old =
      finish-All P k outcome run now db1
        (rw c.is_added (All-append P db.runs (run ∷ []) old (new, tt)))

  after-AllArrived :
      (b : Automation) → slot_or now a ≤ now → AllArrived now db b → AllArrived now after b
  unfolding AllArrived
  after-AllArrived b due h =
      after-runs (λ r. has_arrived now b r ≡ true) (λ r status t output error p. unfold ended in p)
        (ground (arith, c.slot_eq)) h

  after-behind :
      (x : Automation)
      → (x.id == a.id) ≡ false
      → All (λ r. is_behind x r ≡ true) db.runs
      → All (λ r. is_behind x r ≡ true) after.runs
  after-behind x other h =
      after-runs (λ r. is_behind x r ≡ true) (λ r status t output error p. unfold ended in p)
        (ground (arith, c.owner)) h

  fired-behind :
      slot_or now a ≤ now
      → AllArrived now db a
      → All (λ r. is_behind (fired outcome now a) r ≡ true) after.runs
  unfolding AllArrived
  fired-behind due h =
      after-runs (λ r. is_behind (fired outcome now a) r ≡ true)
        (λ r status t output error p. unfold ended in p)
        (advanced-behind now (slot_or now a) a (fired outcome now a) run
          (fired-IsAdvanced now outcome a) (ground (arith, c.slot_eq)))
        (All-imp _ _ db.runs
          (λ r.
            advanced-behind now (slot_or now a) a (fired outcome now a) r
              (fired-IsAdvanced now outcome a))
          h)

  after-automations {κ} :
      (P : Automation → Type κ) (Q : Automation → Type κ)
      → Q (fired outcome now a)
      → ((x : Automation) → (x.id == a.id) ≡ false → P x → Q x)
      → All P db.automations
      → All Q after.automations
  unfolding after save
  after-automations P Q new keep h = rw (finish-rest outcome run now db1).0 (
      rw c.automations_eq (
        All-update-split P Q _ _ db.automations (λ x _ _. new)
          (λ x miss p. keep x (ground (arith, (fired-IsAdvanced now outcome a).id_eq)) p) h))

  after-next_id : after.next_id ≡ db.next_id + 1
  unfolding after save
  after-next_id = (finish-rest outcome run now db1).1 ∙ c.next_id_eq

  after-IsConsistent : IsReady now db a → IsConsistent db → IsConsistent after
  after-IsConsistent ready h = record {
    behind =
        after-automations _ (λ x. All (λ r. is_behind x r ≡ true) after.runs)
          (fired-behind ready.due ready.arrived) after-behind h.behind;
    patient =
        after-automations _ (λ x. is_patient x ≡ true)
          (fired-IsAdvanced now outcome a).still_patient (λ x _ p. p) h.patient;
    known =
        after-automations _ (λ x. x.id < after.next_id)
          (omega (arith, (fired-IsAdvanced now outcome a).id_eq, after-next_id, ready.known))
          (λ x _ p. omega (arith, after-next_id)) h.known;
    owned =
        after-runs (λ r. r.automation_id < after.next_id)
          (λ r status t output error p. unfold ended in p)
          (omega (arith, c.owner, after-next_id, ready.known))
          (All-imp _ _ db.runs (λ r p. omega (arith, after-next_id)) h.owned);
  }

  after-IsReady : (b : Automation) → slot_or now a ≤ now → IsReady now db b → IsReady now after b
  after-IsReady b due h = record {
    due = h.due;
    arrived = after-AllArrived b due h.arrived;
    known = omega (arith, h.known, after-next_id);
  }

module _ (float_bool : Text → Bool) (str_of : Value → Result Text Text) (now : ℕ) where
  -- A firing of a ready row keeps the tables consistent, and every ready row ready.
  record IsKept (db1 : Db) (rest : List Automation) : Type 0 where
    consistent : IsConsistent db1
    ready : All (IsReady now db1) rest

  run_once-IsKept :
      (a : Automation) (db : Db) (rest : List Automation)
      → IsReady now db a
      → IsConsistent db
      → All (IsReady now db) rest
      → IsKept (run_once float_bool str_of a now db).1 rest
  run_once-IsKept a db rest ready h others = elim (Option-cases (claim_run a (slot_or now a) db)) [
    | inl refused ↦
        let same : db ≡ (run_once float_bool str_of a now db).1 = unfold run_once in ground arith in
        subst (λ d. IsKept d rest) same (record { consistent = h; ready = others })
    | inr ((run, db1), claimed) ↦
        let c = claim_run-IsClaimed a (slot_or now a) db db1 run claimed in
        let end : Db = after a now (render float_bool str_of a) db db1 run c in
        let same : end ≡ (run_once float_bool str_of a now db).1 =
          unfold run_once after fired in ground arith in
        subst (λ d. IsKept d rest) same
          (record {
            consistent = after-IsConsistent a now (render float_bool str_of a) db db1 run c ready h;
            ready =
                All-imp _ _ rest
                  (λ b. after-IsReady a now (render float_bool str_of a) db db1 run c b ready.due)
                  others;
          })
  ]

  run_each-IsConsistent :
      (rows : List Automation) (db : Db)
      → All (IsReady now db) rows
      → IsConsistent db
      → IsConsistent (run_each float_bool str_of rows now db).1
  unfolding run_each
  run_each-IsConsistent [] db ready h = h
  run_each-IsConsistent (a ∷ rest) db ready h =
      let kept = run_once-IsKept a db rest ready.0 h ready.1 in
      run_each-IsConsistent rest _ kept.ready kept.consistent

  -- The rows that `list_due` reads are ready.
  is_due-slot : (a : Automation) → is_due now a ≡ true → slot_or now a ≤ now
  unfolding is_due slot_or
  is_due-slot a h = elim (Option-cases a.next_run_at) [
    | inl never ↦ ground arith
    | inr (n, e) ↦ ground arith
  ]

  is_due-arrived :
      (a : Automation) (run : AutomationRun)
      → is_due now a ≡ true
      → is_behind a run ≡ true
      → has_arrived now a run ≡ true
  unfolding is_due
  is_due-arrived a run h behind = elim (Option-cases a.next_run_at) [
    | inl never ↦ ground arith
    | inr (n, e) ↦ ground arith
  ]

  insert-All {κ} :
      (P : Automation → Type κ) (a : Automation) (rows : List Automation)
      → P a
      → All P rows
      → All P (insert_by_slot a rows)
  unfolding insert_by_slot
  insert-All P a [] h hs = (h, tt)
  insert-All P a (b ∷ rest) h hs = elim (Bool-cases (leb (slot_of a) (slot_of b))) [
    | inl first ↦ rw first (h, hs)
    | inr later ↦ rw later (hs.0, insert-All P a rest h hs.1)
  ]

  order-All {κ} :
      (P : Automation → Type κ) (rows : List Automation) → All P rows → All P (order_by_slot rows)
  unfolding order_by_slot
  order-All P [] h = tt
  order-All P (a ∷ rest) h = insert-All P a (order_by_slot rest) h.0 (order-All P rest h.1)

  list_due-IsReady :
      (limit : ℕ) (db : Db) → IsConsistent db → All (IsReady now db) (list_due now limit db)
  unfolding list_due AllArrived
  list_due-IsReady limit db h = All-take _ limit _ (
      order-All _ _ (
        All-imp _ _ (filter (is_due now) db.automations)
          (λ a k. record {
            due = is_due-slot a k.0;
            arrived = All-imp _ _ db.runs (λ r. is_due-arrived a r k.0) k.1.0;
            known = k.1.1;
          })
          (All-filter _ (is_due now) db.automations
            (All-pair _ _ db.automations h.behind h.known))))

  pub run_due-IsConsistent :
      (limit : ℕ) (db : Db)
      → IsConsistent db
      → IsConsistent (run_due float_bool str_of now limit db).1
  unfolding run_due
  run_due-IsConsistent limit db h =
      run_each-IsConsistent (list_due now limit db) db (list_due-IsReady limit db h) h
