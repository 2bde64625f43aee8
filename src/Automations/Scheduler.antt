-- ===== src/Automations/Scheduler.antt =====
-- backend/app/workers/automation_scheduler.py: the counters of the poller, and one of its passes.
use gummy_os.Common.{ℕ, suc, ◌+◌, Text, Bool, length, Result, if◌then◌else◌}
use gummy_os.Tools.{Value}
use gummy_os.Automations.{Db}
use gummy_os.Automations.Service.{run_due, scheduler_batch_size}

pub record AutomationScheduler : Type 0 where
  pub is_configured : Bool
  pub ticks : ℕ
  pub runs_executed : ℕ

module _ (float_bool : Text → Bool) (str_of : Value → Result Text Text) where
  unfoldable tick : (now : ℕ) → AutomationScheduler → Db → ℕ × AutomationScheduler × Db
  unfolding run_due
  tick now scheduler db =
      let (executed, db1) = run_due float_bool str_of now scheduler_batch_size db in
      if scheduler.is_configured
      then (
        length executed,
        record scheduler {
          ticks = suc scheduler.ticks;
          runs_executed = scheduler.runs_executed + length executed;
        },
        db1,
      )
      else (0, scheduler, db)
