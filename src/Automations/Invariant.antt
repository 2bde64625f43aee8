-- ===== src/Automations/Invariant.antt =====
-- The order between an automation's runs and its next slot, and its failure count, over the
-- lifecycle and the passes of one scheduler.
use gummy_os.Common.{
  ℕ, ◌<◌, ◌≡◌, refl, Text, Bool, true, Option, none, some, Option-cases, inl, inr, All, All-update,
  ap, ◌∙◌, ◌==◌, ◌||◌, not, leb, ltb, arith, take, Result, ok, err,
}
use gummy_os.Models.{AutomationSchedule, AutomationRunStatus}
use gummy_os.Automations.{Automation, AutomationRun, Db}
use gummy_os.Automations.Repository.{finish_run, ended}
use gummy_os.Automations.Schedule.{next_occurrence, step, jump}
use gummy_os.Automations.Service.{max_consecutive_failures, note_outcome, advance, finish, slot_or}

-- The run is another automation's, or its slot is before the automation's next one.
abbrev pub is_behind : Automation → AutomationRun → Bool
is_behind a run =
    not (run.automation_id == a.id)
    || elim a.next_run_at [ none ↦ true | some n ↦ ltb run.scheduled_for n ]

-- The run is another automation's, or its slot has arrived.
abbrev pub has_arrived : (now : ℕ) → Automation → AutomationRun → Bool
has_arrived now a run = not (run.automation_id == a.id) || leb run.scheduled_for now

-- An automation that is enabled has failed fewer than three times in a row.
abbrev pub is_patient : Automation → Bool
is_patient a = not a.enabled || ltb a.failure_count max_consecutive_failures

pub record IsConsistent (db : Db) : Type 0 where
  pub behind : All (λ a. All (λ run. is_behind a run ≡ true) db.runs) db.automations
  pub patient : All (λ a. is_patient a ≡ true) db.automations
  pub known : All (λ (a : Automation). a.id < db.next_id) db.automations
  pub owned : All (λ (run : AutomationRun). run.automation_id < db.next_id) db.runs

-- `next_run_at` only moves past `now`.
pub next_occurrence-lt :
    (schedule : AutomationSchedule) (now anchor next : ℕ)
    → next_occurrence schedule now anchor ≡ some next
    → now < next
unfolding next_occurrence step jump
next_occurrence-lt AutomationSchedule.once now anchor next e = cc
next_occurrence-lt AutomationSchedule.daily now anchor next e = ground arith
next_occurrence-lt AutomationSchedule.weekly now anchor next e = ground arith

-- What a firing keeps of the automation, and where it moves the schedule.
pub record IsAdvanced (now slot : ℕ) (a b : Automation) : Type 0 where
  pub id_eq : b.id ≡ a.id
  pub next_eq : b.next_run_at ≡ next_occurrence a.schedule now slot
  pub still_patient : is_patient b ≡ true

advance-IsAdvanced :
    (now slot : ℕ) (a : Automation)
    → is_patient a ≡ true
    → IsAdvanced now slot a (advance now slot a)
unfolding advance
advance-IsAdvanced now slot a h = elim (Option-cases (next_occurrence a.schedule now slot)) [
  | inl last ↦ record { id_eq = ground arith; next_eq = ground arith; still_patient = ground arith }
  | inr (n, e) ↦ record {
    id_eq = ground arith;
    next_eq = ground arith;
    still_patient = ground arith;
  }
]

note_outcome-patient :
    (outcome : Result Text Text) (a : Automation) → is_patient (note_outcome outcome a) ≡ true
unfolding note_outcome
note_outcome-patient (ok output) a = ground arith
note_outcome-patient (err exc) a = ground arith

note_outcome-id : (outcome : Result Text Text) (a : Automation) → (note_outcome outcome a).id ≡ a.id
unfolding note_outcome
note_outcome-id (ok output) a = refl
note_outcome-id (err exc) a = ground arith

note_outcome-schedule :
    (outcome : Result Text Text) (a : Automation) → (note_outcome outcome a).schedule ≡ a.schedule
unfolding note_outcome
note_outcome-schedule (ok output) a = refl
note_outcome-schedule (err exc) a = ground arith

-- The firing's row.
unfoldable pub fired : Result Text Text → (now : ℕ) → Automation → Automation
fired outcome now a = advance now (slot_or now a) (note_outcome outcome a)

pub fired-IsAdvanced :
    (now : ℕ) (outcome : Result Text Text) (a : Automation)
    → IsAdvanced now (slot_or now a) a (fired outcome now a)
unfolding fired
fired-IsAdvanced now outcome a =
    let h =
      advance-IsAdvanced now (slot_or now a) (note_outcome outcome a)
        (note_outcome-patient outcome a) in
    record {
      id_eq = h.id_eq ∙ note_outcome-id outcome a;
      next_eq =
          h.next_eq
          ∙ ap (λ s. next_occurrence s now (slot_or now a)) (note_outcome-schedule outcome a);
      still_patient = h.still_patient;
    }

-- Where every run's slot has arrived, the automation's next slot is after all of them.
pub advanced-behind :
    (now slot : ℕ) (a b : Automation) (run : AutomationRun)
    → IsAdvanced now slot a b
    → has_arrived now a run ≡ true
    → is_behind b run ≡ true
advanced-behind now slot a b run h arrived =
    elim (Option-cases (next_occurrence a.schedule now slot)) [
      | inl last ↦ (let gone : b.next_run_at ≡ none = h.next_eq ∙ last in ground arith)
      | inr (n, e) ↦
          (let next : b.next_run_at ≡ some n = h.next_eq ∙ e in
            ground (arith, h.id_eq, next_occurrence-lt a.schedule now slot n e))
    ]

-- The end of a run changes neither its automation nor its slot.
pub finish-All {κ} :
    (P : AutomationRun → Type κ)
    → ((r : AutomationRun) (status : AutomationRunStatus) (now : ℕ) (output error : Option Text)
        → P r
        → P (ended status now output error r))
    → (outcome : Result Text Text) (run : AutomationRun) (now : ℕ) (db : Db) → All P db.runs
    → All P (finish outcome run now db).1.runs
unfolding finish finish_run
finish-All P k (ok output) run now db h =
    All-update P (λ r. r.id == run.id) _ db.runs
      (λ r _ p. k r AutomationRunStatus.succeeded now (some output) none p) h
finish-All P k (err exc) run now db h =
    All-update P (λ r. r.id == run.id) _ db.runs
      (λ r _ p. k r AutomationRunStatus.failed now none (some (take 500 exc)) p) h

pub finish-rest :
    (outcome : Result Text Text) (run : AutomationRun) (now : ℕ) (db : Db)
    → ((finish outcome run now db).1.automations ≡ db.automations)
      × ((finish outcome run now db).1.next_id ≡ db.next_id)
unfolding finish finish_run
finish-rest (ok output) run now db = (refl, refl)
finish-rest (err exc) run now db = (refl, refl)
