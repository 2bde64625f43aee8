-- ===== src/Actions/Branches.antt =====
-- The branches of `invoke` (backend/app/services/agents/tools/interface.py) on the gate's verdict.
use gummy_os.Common.{
  ℕ, String, List, Option, none, some, Result, ok, err, if◌then◌else◌, length, ◌+◌,
}
use gummy_os.Models.{ToolDecision, ToolRunStatus}
use gummy_os.Tools.{Args, Value, ToolSpec, Fields, Items, int, str, arr, obj, natural}
use gummy_os.Tools.Arguments.{ValidationError}
use gummy_os.Tools.Executor.{
  ToolOutcome, denied, approval_required, unavailable, ToolExecution, ok_outcome, run,
}
use gummy_os.Agents.Policy.{PolicyVerdict}
use gummy_os.Actions.{
  AuditText, not_available, verdict, execution, OutputRef, output_ref, Db, create_pending,
}

-- Exceptions that leave `invoke`.
pub data InvokeError : Type 0 where
  key_error : (agent_key : String) → InvokeError
  validation_error : ValidationError → InvokeError

-- The arguments of `invoke` that stay the same through one call.
pub record Caller : Type 0 where
  pub agent_key : String
  pub run_id : ℕ
  pub user_id : ℕ
  pub standing_allowances : List String
  pub now : ℕ

unfoldable pub items_length : Items → ℕ
items_length Items.nil = 0
items_length (Items.cons v rest) = 1 + items_length rest

-- `len(value) if isinstance(value, list | str) else value`.
unfoldable pub preview_value : Value → Value
unfolding items_length
preview_value (str s) = int (natural (length s))
preview_value (arr items) = int (natural (items_length items))
preview_value v = v

unfoldable pub preview_fields : Fields → Fields
unfolding preview_value
preview_fields Fields.end = Fields.end
preview_fields (Fields.field key v rest) = Fields.field key (preview_value v) (preview_fields rest)

-- `_output_preview`; an output is a dict.
unfoldable pub output_preview : Option Value → Option OutputRef
unfolding preview_fields
output_preview none = none
output_preview (some (obj fields)) = some (output_ref (obj (preview_fields fields)))
output_preview (some v) = some (output_ref v)

-- The local variables that the branches on the verdict assign.
pub record Branch : Type 0 where
  pub approval_id : Option ℕ
  pub decision : ToolDecision
  pub status : ToolRunStatus
  pub output : Option Value
  pub error : Option AuditText
  pub outcome : ToolOutcome
  pub duration_ms : ℕ

unfoldable pub blocked_branch : PolicyVerdict → Branch
blocked_branch v = record {
  approval_id = none;
  decision = ToolDecision.blocked;
  status = ToolRunStatus.not_executed;
  output = none;
  error = some (verdict v.reason);
  outcome = denied;
  duration_ms = 0;
}

unfoldable pub executed_branch : ToolExecution → Branch
executed_branch x = record {
  approval_id = none;
  decision = ToolDecision.allowed;
  status = if ok_outcome x.outcome then ToolRunStatus.succeeded else ToolRunStatus.failed;
  output = x.output;
  error = elim x.error [ none ↦ none | some e ↦ some (execution e) ];
  outcome = x.outcome;
  duration_ms = x.duration_ms;
}

module _ {W : Type 0} where
  unfoldable pub prompt_branch : Caller → ToolSpec W → String → Args → Db W → Branch × Db W
  prompt_branch caller spec tool_key args db =
      let (approval, db') =
        create_pending caller.user_id caller.agent_key tool_key spec.tier
          (record { tool_key = some tool_key; args = some args }) (some caller.run_id) caller.now
          db in
      (
        record {
          approval_id = some approval.id;
          decision = ToolDecision.pending;
          status = ToolRunStatus.not_executed;
          output = none;
          error = none;
          outcome = approval_required;
          duration_ms = 0;
        },
        db',
      )

  unfoldable pub modelled_branch : ToolSpec W → Branch
  modelled_branch spec = record {
    approval_id = none;
    decision = ToolDecision.pending;
    status = ToolRunStatus.not_executed;
    output = none;
    error = some (not_available spec.name);
    outcome = unavailable;
    duration_ms = 0;
  }

  unfoldable pub allow_branch : ToolSpec W → Args → Db W → Result InvokeError (Branch × Db W)
  allow_branch spec args db = elim spec.executor [
    | none ↦ ok (modelled_branch spec, db)
    | some _ ↦ elim (run spec db.world args) [
      | err e ↦ err (validation_error e)
      | ok (x, world') ↦ ok (executed_branch x, record db { world = world' })
    ]
  ]
