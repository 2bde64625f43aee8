-- ===== src/Actions/Interface.antt =====
-- The tool execution interface (backend/app/services/agents/tools/interface.py): the only door from
-- an agent to a tool.
pub mod Gate
pub mod Safety
use gummy_os.Common.{
  ℕ, String, List, Option, none, some, Result, ok, err, if◌then◌else◌, length, map, ◌>>=◌, ◌+◌,
}
use gummy_os.Models.{PermissionTier, ToolDecision, ToolRunStatus}
use gummy_os.Tools.{
  Args, Value, ToolSpec, Fields, Items, null, bool, int, float, str, arr, obj, natural,
}
use gummy_os.Tools.Arguments.{ValidationError, redact_args}
use gummy_os.Tools.Catalog.{get}
use gummy_os.Tools.Executor.{
  ToolOutcome, denied, approval_required, unavailable, ToolExecution, ok_outcome, run,
}
use gummy_os.Agents.{AgentManifest}
use gummy_os.Agents.Policy.{PolicyVerdict, allow, prompt, block, evaluate}
use gummy_os.Agents.Registry as Registry
use gummy_os.Actions.{
  Preview, Approval, AuditText, unknown_tool, no_such_tool, not_available, verdict, execution,
  OutputRef, approval_ref, output_ref, ToolInvocation, Db, record_invocation, create_pending,
}
use gummy_os.Actions.Branches.{
  InvokeError, key_error, validation_error, Caller, output_preview, Branch, blocked_branch,
  prompt_branch, allow_branch,
}

pub record ToolResult : Type 0 where
  pub tool_key : String
  pub tier : PermissionTier
  pub decision : ToolDecision
  pub status : ToolRunStatus
  pub output : Option Value
  pub reason : AuditText
  pub invocation_id : ℕ
  pub approval_id : Option ℕ
  pub outcome : ToolOutcome
  pub error : Option AuditText
  pub duration_ms : ℕ

-- A `ToolExecution` of a result; its error may be a text of the interface.
pub record ResultExecution : Type 0 where
  pub tool_key : String
  pub outcome : ToolOutcome
  pub output : Option Value
  pub error : Option AuditText
  pub duration_ms : ℕ
  pub approval_id : Option ℕ
  pub invocation_id : Option ℕ

-- `ToolResult.execution`
unfoldable pub to_execution : ToolResult → ResultExecution
to_execution r = record {
  tool_key = r.tool_key;
  outcome = r.outcome;
  output = r.output;
  error = r.error;
  duration_ms = r.duration_ms;
  approval_id = r.approval_id;
  invocation_id = some r.invocation_id;
}

module _ {W : Type 0} where
  unfoldable pub unknown_row : Caller → String → Args → Db W → ToolInvocation
  unknown_row caller tool_key args db = record {
    id = db.next_id;
    user_id = caller.user_id;
    run_id = caller.run_id;
    agent_key = caller.agent_key;
    tool_key = tool_key;
    args = args;
    tier = PermissionTier.red;
    decision = ToolDecision.blocked;
    status = ToolRunStatus.not_executed;
    decision_reason = unknown_tool tool_key;
    output = none;
    error = none;
  }

  unfoldable pub invoke_unknown : Caller → String → Args → Db W → ToolResult × Db W
  unfolding unknown_row
  invoke_unknown caller tool_key args db = (
    record {
      tool_key = tool_key;
      tier = PermissionTier.red;
      decision = ToolDecision.blocked;
      status = ToolRunStatus.not_executed;
      output = none;
      reason = unknown_tool tool_key;
      invocation_id = db.next_id;
      approval_id = none;
      outcome = denied;
      error = some (no_such_tool tool_key);
      duration_ms = 0;
    },
    record_invocation (unknown_row caller tool_key args db) db,
  )

  unfoldable pub branch :
      Caller
      → ToolSpec W
      → PolicyVerdict
      → String
      → Args
      → Db W
      → Result InvokeError (Branch × Db W)
  branch caller spec v tool_key args db = elim v.decision [
    | block ↦ ok (blocked_branch v, db)
    | prompt ↦ ok (prompt_branch caller spec tool_key args db)
    | allow ↦ allow_branch spec args db
  ]

  unfoldable pub branch_row :
      Caller → ToolSpec W → PolicyVerdict → String → Args → Branch → Db W → ToolInvocation
  branch_row caller spec v tool_key args b db = record {
    id = db.next_id;
    user_id = caller.user_id;
    run_id = caller.run_id;
    agent_key = caller.agent_key;
    tool_key = tool_key;
    args = redact_args args;
    tier = spec.tier;
    decision = b.decision;
    status = b.status;
    decision_reason = verdict v.reason;
    output = elim b.approval_id [
      | none ↦ output_preview b.output
      | some id ↦ some (approval_ref id)
    ];
    error = b.error;
  }

  -- The row that every branch leads to, and the result.
  unfoldable pub conclude :
      Caller → ToolSpec W → PolicyVerdict → String → Args → Branch × Db W → ToolResult × Db W
  unfolding branch_row
  conclude caller spec v tool_key args (b, db) = (
    record {
      tool_key = tool_key;
      tier = spec.tier;
      decision = b.decision;
      status = b.status;
      output = b.output;
      reason = verdict v.reason;
      invocation_id = db.next_id;
      approval_id = b.approval_id;
      outcome = b.outcome;
      error = b.error;
      duration_ms = b.duration_ms;
    },
    record_invocation (branch_row caller spec v tool_key args b db) db,
  )

  unfoldable pub invoke_known :
      AgentManifest
      → Caller
      → ToolSpec W
      → String
      → Args
      → Db W
      → Result InvokeError (ToolResult × Db W)
  invoke_known manifest caller spec tool_key args db =
      let v = evaluate manifest tool_key spec.tier caller.standing_allowances in
      branch caller spec v tool_key args db >>= λ r. ok (conclude caller spec v tool_key args r)

  unfoldable pub invoke :
      List (ToolSpec W)
      → List AgentManifest
      → Caller
      → String
      → Args
      → Db W
      → Result InvokeError (ToolResult × Db W)
  invoke tools registry caller tool_key args db = elim (Registry.get registry caller.agent_key) [
    | none ↦ err (key_error caller.agent_key)
    | some manifest ↦ elim (get tools tool_key) [
      | none ↦ ok (invoke_unknown caller tool_key args db)
      | some spec ↦ invoke_known manifest caller spec tool_key args db
    ]
  ]
