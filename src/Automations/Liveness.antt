-- ===== src/Automations/Liveness.antt =====
-- A due automation fires, and is then not due again.
use mathlib.Core.Path.{subst}
use gummy_os.Common.{
  ℕ, ◌≡◌, ◌≢◌, refl, Text, Bool, true, false, List, [], ◌∷◌, ◌++◌, take, length, length-update,
  if◌then◌else◌, Option, none, some, Option-cases, inl, inr, All, All-find, find, find-any,
  find-update, ◌==◌, arith, update, any, Result, ok, err, ◌∙◌, ap, sym,
}
use gummy_os.Models.{AutomationRunStatus}
use gummy_os.Tools.{Value}
use gummy_os.Automations.{Automation, AutomationRun, Db}
use gummy_os.Automations.Repository.{is_due, is_claim, claim_run, finish_run, ended, save}
use gummy_os.Automations.Schedule.{next_occurrence}
use gummy_os.Automations.Service.{render, finish, slot_or, run_once}
use gummy_os.Automations.Claims.{claim_run-IsClaimed}
use gummy_os.Automations.Invariant.{
  is_behind, IsConsistent, next_occurrence-lt, fired, fired-IsAdvanced, finish-rest,
}

-- No run stands for the slot of a due automation.
slot-free :
    (now : ℕ) (a : Automation) (runs : List AutomationRun)
    → is_due now a ≡ true
    → All (λ r. is_behind a r ≡ true) runs
    → any (is_claim a.id (slot_or now a)) runs ≡ false
unfolding is_due slot_or is_claim
slot-free now a [] due h = refl
slot-free now a (r ∷ rest) due h = elim (Option-cases a.next_run_at) [
  | inl never ↦ ground arith
  | inr (n, e) ↦ ground (arith, slot-free now a rest)
]

-- The row of a firing is not due at the time of the firing.
fired-not_due :
    (now : ℕ) (outcome : Result Text Text) (a : Automation)
    → is_due now (fired outcome now a) ≡ false
unfolding is_due
fired-not_due now outcome a =
    let moved = fired-IsAdvanced now outcome a in
    elim (Option-cases (next_occurrence a.schedule now (slot_or now a))) [
      | inl last ↦
          (let gone : (fired outcome now a).next_run_at ≡ none = moved.next_eq ∙ last in
            ground arith)
      | inr (n, e) ↦
          (let next : (fired outcome now a).next_run_at ≡ some n = moved.next_eq ∙ e in
            ground (arith, next_occurrence-lt a.schedule now (slot_or now a) n e))
    ]

-- How a run ends: as a success where the body returned, else as a failure.
unfoldable pub end_status : Result Text Text → AutomationRunStatus
end_status outcome = elim outcome [
  | ok output ↦ AutomationRunStatus.succeeded
  | err exc ↦ AutomationRunStatus.failed
]

finish-row :
    (outcome : Result Text Text) (run : AutomationRun) (now : ℕ) (db : Db)
    → ((finish outcome run now db).0.scheduled_for ≡ run.scheduled_for)
      × ((finish outcome run now db).0.automation_id ≡ run.automation_id)
      × ((finish outcome run now db).0.status ≡ end_status outcome)
unfolding finish finish_run ended end_status
finish-row (ok output) run now db = (refl, refl, refl)
finish-row (err exc) run now db = (refl, refl, refl)

update-snoc :
    (p : AutomationRun → Bool) (f : AutomationRun → AutomationRun) (xs : List AutomationRun)
    (x : AutomationRun)
    → p x ≡ true
    → update p f (xs ++ x ∷ []) ≡ update p f xs ++ f x ∷ []
update-snoc p f [] x h = rw h refl
update-snoc p f (y ∷ xs) x h = ap (λ l. (if p y then f y else y) ∷ l) (update-snoc p f xs x h)

-- The run that ends is the last row, and the only one that is new.
finish-recorded :
    (outcome : Result Text Text) (run : AutomationRun) (now : ℕ) (runs : List AutomationRun)
    (db : Db)
    → db.runs ≡ runs ++ run ∷ []
    → let (fired_run, db1) = finish outcome run now db in
      (earlier : List AutomationRun) × (length earlier ≡ length runs)
      × (db1.runs ≡ earlier ++ fired_run ∷ [])
unfolding finish finish_run
finish-recorded (ok output) run now runs db h =
    let f = ended AutomationRunStatus.succeeded now (some output) none in
    (
      update (λ r. r.id == run.id) f runs,
      length-update (λ r. r.id == run.id) f runs,
      rw h (update-snoc (λ r. r.id == run.id) f runs run (ground arith)),
    )
finish-recorded (err exc) run now runs db h =
    let f = ended AutomationRunStatus.failed now none (some (take 500 exc)) in
    (
      update (λ r. r.id == run.id) f runs,
      length-update (λ r. r.id == run.id) f runs,
      rw h (update-snoc (λ r. r.id == run.id) f runs run (ground arith)),
    )

claim_run-refused :
    (a : Automation) (slot : ℕ) (db : Db)
    → any (is_claim a.id slot) db.runs ≡ false
    → any (λ (x : Automation). x.id == a.id) db.automations ≡ true
    → claim_run a slot db ≢ none
unfolding claim_run
claim_run-refused a slot db free known refused = ground arith

-- The row read after a save is the row saved.
save-found :
    (a b : Automation) (db : Db)
    → b.id ≡ a.id
    → find (λ x. x.id == a.id) db.automations ≡ some a
    → find (λ x. x.id == a.id) (save b db).automations ≡ some b
unfolding save
save-found a b db same found =
    subst (λ i. find (λ x. x.id == a.id) (update (λ x. x.id == i) (λ _. b) db.automations) ≡ some b)
      (sym same) (find-update (λ x. x.id == a.id) (λ _. b) db.automations a found (ground arith))

slot_or-eq : (now : ℕ) (a : Automation) → is_due now a ≡ true → a.next_run_at ≡ some (slot_or now a)
unfolding is_due slot_or
slot_or-eq now a due = elim (Option-cases a.next_run_at) [
  | inl never ↦ ground arith
  | inr (n, e) ↦ ground arith
]

module _ (float_bool : Text → Bool) (str_of : Value → Result Text Text) where
  pub record IsFired (now : ℕ) (a : Automation) (db db1 : Db) (run : Option AutomationRun)
      : Type 0 where
    pub fired_run : AutomationRun
    pub returned : run ≡ some fired_run
    pub slot_eq : a.next_run_at ≡ some fired_run.scheduled_for
    pub owner : fired_run.automation_id ≡ a.id
    pub status_eq : fired_run.status ≡ end_status (render float_bool str_of a)
    pub recorded :
        (earlier : List AutomationRun) × (length earlier ≡ length db.runs)
        × (db1.runs ≡ earlier ++ fired_run ∷ [])
    pub row : Automation
    pub row_found : find (λ x. x.id == a.id) db1.automations ≡ some row
    pub row_waits : is_due now row ≡ false

  -- In consistent tables, an automation that is due fires: `run_once` adds one row to the runs, at their
  -- end, which is the run that it returns: of this automation and its slot, succeeded where the message
  -- could be made and else failed. The automation's row is then not due any more.
  pub run_once-IsFired :
      (now : ℕ) (a : Automation) (db : Db)
      → IsConsistent db
      → find (λ x. x.id == a.id) db.automations ≡ some a
      → is_due now a ≡ true
      → IsFired now a db
          (run_once float_bool str_of a now db).1
          (run_once float_bool str_of a now db).0
  run_once-IsFired now a db h found due = elim (Option-cases (claim_run a (slot_or now a) db)) [
    | inl refused ↦
        let behind =
          All-find (λ x. All (λ r. is_behind x r ≡ true) db.runs) _ db.automations a h.behind
            found in
        absurd (
          claim_run-refused a (slot_or now a) db (slot-free now a db.runs due behind)
            (find-any _ db.automations a found) refused)
    | inr ((run, db1), claimed) ↦
        let c = claim_run-IsClaimed a (slot_or now a) db db1 run claimed in
        let outcome = render float_bool str_of a in
        let b = fired outcome now a in
        let ended = finish outcome run now db1 in
        let (at, own, how) = finish-row outcome run now db1 in
        let result : run_once float_bool str_of a now db ≡ (some ended.0, save b ended.1) =
          unfold run_once fired in ground arith in
        rw result (record {
          fired_run = ended.0;
          returned = refl;
          slot_eq = slot_or-eq now a due ∙ ap (λ n. some n) (sym (at ∙ c.slot_eq));
          owner = own ∙ c.owner;
          status_eq = how;
          recorded = unfold save in finish-recorded outcome run now db.runs db1 c.is_added;
          row = b;
          row_found = save-found a b ended.1 (fired-IsAdvanced now outcome a).id_eq (
              ap (λ rows. find (λ (x : Automation). x.id == a.id) rows)
                ((finish-rest outcome run now db1).0 ∙ c.automations_eq)
              ∙ found);
          row_waits = fired-not_due now outcome a;
        })
  ]
