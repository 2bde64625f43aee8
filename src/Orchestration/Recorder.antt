-- ===== src/Orchestration/Recorder.antt =====
-- backend/app/services/agents/run_recorder.py over the repositories of runs, steps and messages: each
-- function is given the row that the ORM holds, by its id.
use gummy_os.Common.{
  ℕ, suc, ◌+◌, max, String, Text, Bool, true, false, ◌==◌, List, [], ◌∷◌, ◌++◌, update, Option,
  none, some, if◌then◌else◌,
}
use gummy_os.Models.{RunTrigger, RunStatus, StepStatus, AgentMessageRole}
use gummy_os.Orchestration.{AgentRun, AgentStep, AgentMessage, Trace}

-- `set_status` stamps `finished_at` at an end.
unfoldable pub is_end : RunStatus → Bool
is_end RunStatus.running = false
is_end RunStatus.succeeded = true
is_end RunStatus.failed = true

-- `max(seq)` of a run's rows, or 0.
unfoldable max_step_seq : (run_id : ℕ) → List AgentStep → ℕ
max_step_seq run_id [] = 0
max_step_seq run_id (s ∷ rest) =
    let highest = max_step_seq run_id rest in
    if s.run_id == run_id then max s.seq highest else highest

unfoldable max_message_seq : (run_id : ℕ) → List AgentMessage → ℕ
max_message_seq run_id [] = 0
max_message_seq run_id (m ∷ rest) =
    let highest = max_message_seq run_id rest in
    if m.run_id == run_id then max m.seq highest else highest

module _ {L : Type 0} where
  unfoldable pub create_run :
      (user_id : ℕ) (conversation_id : Option ℕ) → RunTrigger → Trace L → ℕ × Trace L
  create_run user_id conversation_id trigger t = (
    t.next_id,
    record t {
      runs =
          t.runs
          ++ record {
            id = t.next_id;
            user_id = user_id;
            conversation_id = conversation_id;
            trigger = trigger;
            status = RunStatus.running;
            error = none;
            cost_tokens = 0;
            cost_usd = 0;
            finished = false;
          }
            ∷ [];
      next_id = suc t.next_id;
    },
  )

  unfoldable pub set_status : (run_id : ℕ) → RunStatus → (error : Option Text) → Trace L → Trace L
  unfolding is_end
  set_status run_id status error t = record t {
    runs =
        update (λ (r : AgentRun). r.id == run_id)
          (λ r. record r {
            status = status;
            error = error;
            finished = if is_end status then true else r.finished;
          })
          t.runs;
  }

  unfoldable pub add_cost : (run_id tokens usd : ℕ) → Trace L → Trace L
  add_cost run_id tokens usd t = record t {
    runs =
        update (λ (r : AgentRun). r.id == run_id)
          (λ r. record r { cost_tokens = r.cost_tokens + tokens; cost_usd = r.cost_usd + usd })
          t.runs;
  }

  unfoldable pub append_step : (run_id : ℕ) (agent_key : String) → Trace L → ℕ × Trace L
  unfolding max_step_seq
  append_step run_id agent_key t = (
    t.next_id,
    record t {
      steps =
          t.steps
          ++ record {
            id = t.next_id;
            run_id = run_id;
            agent_key = agent_key;
            seq = max_step_seq run_id t.steps + 1;
            status = StepStatus.running;
            error = none;
            cost_tokens = 0;
            cost_usd = 0;
            finished = false;
          }
            ∷ [];
      next_id = suc t.next_id;
    },
  )

  unfoldable pub finish_step :
      (step_id : ℕ) → StepStatus → (error : Option Text) (tokens usd : ℕ) → Trace L → Trace L
  finish_step step_id status error tokens usd t = record t {
    steps =
        update (λ (s : AgentStep). s.id == step_id)
          (λ s. record s {
            status = status;
            error = error;
            cost_tokens = tokens;
            cost_usd = usd;
            finished = true;
          })
          t.steps;
  }

  unfoldable pub append_message :
      (run_id : ℕ) (from_agent : String) (to_agent : Option String)
      → AgentMessageRole
      → Trace L
      → Trace L
  unfolding max_message_seq
  append_message run_id from_agent to_agent role t = record t {
    messages =
        t.messages
        ++ record {
          run_id = run_id;
          from_agent = from_agent;
          to_agent = to_agent;
          role = role;
          seq = max_message_seq run_id t.messages + 1;
        }
          ∷ [];
  }

  unfoldable pub open_run : (user_id : ℕ) (conversation_id : Option ℕ) → Trace L → ℕ × Trace L
  unfolding create_run
  open_run user_id conversation_id t = create_run user_id conversation_id RunTrigger.chat t

  unfoldable pub open_step : (run_id : ℕ) (agent_key : String) → Trace L → ℕ × Trace L
  unfolding append_step
  open_step run_id agent_key t = append_step run_id agent_key t

  unfoldable pub close_step_success : (run_id step_id tokens usd : ℕ) → Trace L → Trace L
  unfolding finish_step add_cost
  close_step_success run_id step_id tokens usd t =
      add_cost run_id tokens usd (finish_step step_id StepStatus.succeeded none tokens usd t)

  unfoldable pub close_step_failure : (step_id : ℕ) (error : Text) → Trace L → Trace L
  unfolding finish_step
  close_step_failure step_id error t = finish_step step_id StepStatus.failed (some error) 0 0 t

  unfoldable pub close_run_success : (run_id : ℕ) → Trace L → Trace L
  unfolding set_status
  close_run_success run_id t = set_status run_id RunStatus.succeeded none t

  unfoldable pub close_run_failure : (run_id : ℕ) (error : Text) → Trace L → Trace L
  unfolding set_status
  close_run_failure run_id error t = set_status run_id RunStatus.failed (some error) t

  -- The wrappers for a run of one step.
  unfoldable start_run :
      (user_id : ℕ) (agent_key : String) (conversation_id : Option ℕ)
      → RunTrigger
      → Trace L
      → (ℕ × ℕ) × Trace L
  unfolding create_run append_step
  start_run user_id agent_key conversation_id trigger t =
      let (run_id, t') = create_run user_id conversation_id trigger t in
      let (step_id, t'') = append_step run_id agent_key t' in ((run_id, step_id), t'')

  unfoldable finish_success : (run_id step_id tokens usd : ℕ) → Trace L → Trace L
  unfolding finish_step add_cost set_status
  finish_success run_id step_id tokens usd t =
      set_status run_id RunStatus.succeeded none
        (add_cost run_id tokens usd (finish_step step_id StepStatus.succeeded none tokens usd t))

  unfoldable finish_failure : (run_id step_id : ℕ) (error : Text) → Trace L → Trace L
  unfolding finish_step set_status
  finish_failure run_id step_id error t =
      set_status run_id RunStatus.failed (some error)
        (finish_step step_id StepStatus.failed (some error) 0 0 t)
