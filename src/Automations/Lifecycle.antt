-- ===== src/Automations/Lifecycle.antt =====
-- The order of slots over the life of the tables, where each scheduler's pass reads its own rows.
use mathlib.Core.Path.{subst}
use gummy_os.Common.{
  ℕ, ◌<◌, ◌≡◌, refl, Text, Bool, true, false, List, [], ◌∷◌, Option, some, Option-cases, inl, inr,
  All, All-imp, All-append, All-update, All-kept, All-find, ◌==◌, not, arith, Result,
}
use gummy_os.Models.{AutomationKind, AutomationSchedule, AutomationStatus}
use gummy_os.Tools.{Value}
use gummy_os.Automations.{Automation, AutomationRun, Db}
use gummy_os.Automations.Repository.{create_automation, get_automation, delete_automation, save}
use gummy_os.Automations.Schedule.{next_occurrence}
use gummy_os.Automations.Service.{create, get, resume, set_enabled, delete, scheduler_batch_size}
use gummy_os.Automations.Claims.{Event, created, toggled, deleted, ticked, worker, handle, serve}
use gummy_os.Automations.Invariant.{is_behind, is_patient, IsConsistent, next_occurrence-lt}
use gummy_os.Automations.Firing.{run_due-IsConsistent}

-- An event in which a pass works from the rows that it read itself.
abbrev is_fresh : Event → Bool
is_fresh event = elim event [ worker due now ↦ false | _ ↦ true ]

create-IsConsistent :
    (user_id : ℕ) (name : Text) (kind : AutomationKind) (schedule : AutomationSchedule) (run_at : ℕ)
    (description : Option Text) (payload : Value) (db : Db)
    → IsConsistent db
    → IsConsistent (create user_id name kind schedule run_at description payload db).1
unfolding create create_automation
create-IsConsistent user_id name kind schedule run_at description payload db h = record {
  behind =
      All-append _ db.automations _ h.behind
        (All-imp _ _ db.runs (λ r below. ground arith) h.owned, tt);
  patient = All-append _ db.automations _ h.patient (ground arith, tt);
  known =
      All-append _ db.automations _ (All-imp _ _ db.automations (λ a k. omega arith) h.known)
        (omega arith, tt);
  owned = All-imp _ _ db.runs (λ r k. omega arith) h.owned;
}

save-IsConsistent :
    (b : Automation) (db : Db)
    → is_patient b ≡ true
    → b.id < db.next_id
    → All (λ r. is_behind b r ≡ true) db.runs
    → IsConsistent db
    → IsConsistent (save b db)
unfolding save
save-IsConsistent b db patient known behind h =
    let own = λ (x : Automation). x.id == b.id in
    record {
      behind = All-update _ own (λ _. b) db.automations (λ x _ _. behind) h.behind;
      patient = All-update _ own (λ _. b) db.automations (λ x _ _. patient) h.patient;
      known = All-update _ own (λ _. b) db.automations (λ x _ _. known) h.known;
      owned = h.owned;
    }

delete-IsConsistent :
    (a : Automation) (db : Db) → IsConsistent db → IsConsistent (delete_automation a db)
unfolding delete_automation
delete-IsConsistent a db h =
    let stays = λ (x : Automation). not (x.id == a.id) in
    let kept = λ (r : AutomationRun). not (r.automation_id == a.id) in
    record {
      behind =
          All-kept _ stays db.automations
            (All-imp _ _ db.automations (λ x k. All-kept _ kept db.runs k) h.behind);
      patient = All-kept _ stays db.automations h.patient;
      known = All-kept _ stays db.automations h.known;
      owned = All-kept _ kept db.runs h.owned;
    }

-- A resumed automation keeps its slot, loses it, or moves past `now`.
resume-IsLater :
    (now : ℕ) (a : Automation)
    → ((resume now a).id ≡ a.id)
      × (is_patient (resume now a) ≡ true)
      × ((run : AutomationRun) → is_behind a run ≡ true → is_behind (resume now a) run ≡ true)
unfolding resume
resume-IsLater now a = elim (Option-cases a.next_run_at) [
  | inl never ↦ (ground arith, ground arith, λ run h. ground arith)
  | inr (n, e) ↦ elim (Option-cases (next_occurrence a.schedule now n)) [
    | inl last ↦ (ground arith, ground arith, λ run h. ground arith)
    | inr (m, next) ↦ (
      ground arith,
      ground arith,
      λ run h. ground (arith, next_occurrence-lt a.schedule now n m next),
    )
  ]
]

-- What is known of a row that was read.
module _ (user_id automation_id : ℕ) (a : Automation) (db : Db)
    (found : get_automation automation_id user_id db ≡ some a) (h : IsConsistent db) where
  found-behind : All (λ r. is_behind a r ≡ true) db.runs
  unfolding get_automation
  found-behind =
      All-find (λ x. All (λ r. is_behind x r ≡ true) db.runs) _ db.automations a h.behind found

  found-known : a.id < db.next_id
  unfolding get_automation
  found-known = All-find (λ (x : Automation). x.id < db.next_id) _ db.automations a h.known found

  resumed-IsConsistent : (now : ℕ) → IsConsistent (save (resume now a) db)
  resumed-IsConsistent now =
      let (same, patient, later) = resume-IsLater now a in
      save-IsConsistent (resume now a) db patient (omega (arith, found-known))
        (All-imp _ _ db.runs later found-behind) h

  paused-IsConsistent :
      IsConsistent (save (record a { enabled = false; status = AutomationStatus.paused }) db)
  paused-IsConsistent = save-IsConsistent _ db refl found-known found-behind h

module _ (float_bool : Text → Bool) (str_of : Value → Result Text Text) where
  handle-IsConsistent :
      (event : Event) (db : Db)
      → is_fresh event ≡ true
      → IsConsistent db
      → IsConsistent (handle float_bool str_of event db)
  unfolding handle
  handle-IsConsistent (created user_id name kind schedule run_at description payload) db fresh h =
      create-IsConsistent user_id name kind schedule run_at description payload db h
  handle-IsConsistent (toggled user_id automation_id true now) db fresh h =
      elim (Option-cases (get_automation automation_id user_id db)) [
        | inl missing ↦ subst IsConsistent (unfold set_enabled get in ground arith) h
        | inr (a, found) ↦
            subst IsConsistent (unfold set_enabled get in ground arith)
              (resumed-IsConsistent user_id automation_id a db found h now)
      ]
  handle-IsConsistent (toggled user_id automation_id false now) db fresh h =
      elim (Option-cases (get_automation automation_id user_id db)) [
        | inl missing ↦ subst IsConsistent (unfold set_enabled get in ground arith) h
        | inr (a, found) ↦
            subst IsConsistent (unfold set_enabled get in ground arith)
              (paused-IsConsistent user_id automation_id a db found h)
      ]
  handle-IsConsistent (deleted user_id automation_id) db fresh h =
      elim (Option-cases (get_automation automation_id user_id db)) [
        | inl missing ↦ subst IsConsistent (unfold delete get in ground arith) h
        | inr (a, found) ↦
            subst IsConsistent (unfold delete get in ground arith) (delete-IsConsistent a db h)
      ]
  handle-IsConsistent (ticked now) db fresh h =
      run_due-IsConsistent float_bool str_of now scheduler_batch_size db h
  handle-IsConsistent (worker due now) db fresh h = absurd (ground (arith))

  -- From consistent tables, and where every pass works from the rows that it read itself, whatever
  -- else happens: every run of an automation is for a slot before the automation's next one, and an
  -- automation that is enabled has failed fewer than three times in a row.
  pub serve-IsConsistent :
      (events : List Event) (db : Db)
      → All (λ event. is_fresh event ≡ true) events
      → IsConsistent db
      → IsConsistent (serve float_bool str_of events db)
  unfolding serve
  serve-IsConsistent [] db fresh h = h
  serve-IsConsistent (event ∷ rest) db fresh h =
      serve-IsConsistent rest (handle float_bool str_of event db) fresh.1
        (handle-IsConsistent event db fresh.0 h)
