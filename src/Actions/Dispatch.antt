-- ===== src/Actions/Dispatch.antt =====
-- Running an approved action (backend/app/services/agents/action_dispatch.py).
pub mod Cases
use gummy_os.Common.{
  ℕ, String, Bool, true, false, ◌==ₛ◌, List, [], Option, none, some, Result, ok, err, if◌then◌else◌,
}
use gummy_os.Models.{PermissionTier, ApprovalStatus, ToolDecision, ToolRunStatus}
use gummy_os.Tools.{Args, Value, ToolSpec, is_executable}
use gummy_os.Tools.Arguments.{ValidationError}
use gummy_os.Tools.Catalog.{get}
use gummy_os.Tools.Executor.{ToolOutcome, unavailable, ToolExecution, ok_outcome, run}
use gummy_os.Actions.{
  Preview, Approval, AuditText, unknown_tool, not_available, approved_by, execution, ToolInvocation,
  Db, record_invocation,
}

-- `DispatchResult.error`.
pub data DispatchError : Type 0 where
  not_approved no_tool_call run_is_gone : DispatchError
  refused : AuditText → DispatchError

pub record DispatchResult : Type 0 where
  pub approval_id : ℕ
  pub tool_key : String
  pub executed : Bool
  pub outcome : Option ToolOutcome
  pub output : Option Value
  pub error : Option DispatchError
  pub invocation_id : Option ℕ

unfoldable pub preview_call : Preview → Option (String × Args)
preview_call preview = elim preview.tool_key [
  | none ↦ none
  | some key ↦
      if key ==ₛ "" then none else some (key, elim preview.args [ none ↦ [] | some args ↦ args ])
]

unfoldable pub is_approved : ApprovalStatus → Bool
is_approved ApprovalStatus.approved = true
is_approved _ = false

unfoldable pub not_executed :
    Approval → String → Option ToolOutcome → DispatchError → Option ℕ → DispatchResult
not_executed approval tool_key outcome error invocation_id = record {
  approval_id = approval.id;
  tool_key = tool_key;
  executed = false;
  outcome = outcome;
  output = none;
  error = some error;
  invocation_id = invocation_id;
}

unfoldable pub execution_error : ToolExecution → Option AuditText
execution_error x = elim x.error [ none ↦ none | some e ↦ some (execution e) ]

module _ {W : Type 0} where
  -- `record_invocation` as both paths of the dispatch call it: the arguments are stored as they are.
  unfoldable pub audit_row :
      Approval
      → (run_id : ℕ) → String
      → Args
      → PermissionTier
      → ToolDecision
      → ToolRunStatus
      → AuditText
      → Option AuditText
      → Db W
      → ToolInvocation
  audit_row approval run_id tool_key args tier decision status reason error db = record {
    id = db.next_id;
    user_id = approval.user_id;
    run_id = run_id;
    agent_key = approval.agent_key;
    tool_key = tool_key;
    args = args;
    tier = tier;
    decision = decision;
    status = status;
    decision_reason = reason;
    output = none;
    error = error;
  }

  -- The capability was withdrawn between preview and approval.
  unfoldable pub dispatch_withdrawn :
      Approval
      → (run_id : ℕ) → String
      → Args
      → PermissionTier
      → AuditText
      → Db W
      → DispatchResult × Db W
  unfolding audit_row not_executed
  dispatch_withdrawn approval run_id tool_key args tier reason db =
      let row =
        audit_row approval run_id tool_key args tier ToolDecision.pending ToolRunStatus.not_executed
          reason none db in
      (
        not_executed approval tool_key (some unavailable) (refused reason) (some row.id),
        record_invocation row db,
      )

  -- What is recorded and returned once the executor has ended.
  unfoldable pub ended_row :
      Approval → (run_id : ℕ) → ToolSpec W → String → Args → ToolExecution → Db W → ToolInvocation
  unfolding audit_row
  ended_row approval run_id spec tool_key args x db =
      audit_row approval run_id tool_key args spec.tier ToolDecision.allowed
        (if ok_outcome x.outcome then ToolRunStatus.succeeded else ToolRunStatus.failed)
        (approved_by approval.id) (execution_error x) db

  unfoldable pub dispatch_ended :
      Approval
      → (run_id : ℕ) → ToolSpec W
      → String
      → Args
      → ToolExecution
      → Db W
      → DispatchResult × Db W
  dispatch_ended approval run_id spec tool_key args x db =
      let row = ended_row approval run_id spec tool_key args x db in
      (
        record {
          approval_id = approval.id;
          tool_key = tool_key;
          executed = true;
          outcome = some x.outcome;
          output = x.output;
          error = elim (execution_error x) [ none ↦ none | some e ↦ some (refused e) ];
          invocation_id = some row.id;
        },
        record_invocation row db,
      )

  unfoldable pub dispatch_spec :
      Approval
      → (run_id : ℕ) → ToolSpec W
      → String
      → Args
      → Db W
      → Result ValidationError DispatchResult × Db W
  dispatch_spec approval run_id spec tool_key args db =
      if is_executable spec
      then elim (run spec db.world args) [
        | err e ↦ (err e, db)
        | ok (x, world') ↦
            let (result, db') =
              dispatch_ended approval run_id spec tool_key args x (record db { world = world' }) in
            (ok result, db')
      ]
      else let (result, db') =
          dispatch_withdrawn approval run_id tool_key args spec.tier (not_available spec.name) db in
        (ok result, db')

  unfoldable pub dispatch_run :
      List (ToolSpec W)
      → Approval
      → (run_id : ℕ) → String
      → Args
      → Db W
      → Result ValidationError DispatchResult × Db W
  dispatch_run tools approval run_id tool_key args db = elim (get tools tool_key) [
    | none ↦
        let (result, db') =
          dispatch_withdrawn approval run_id tool_key args PermissionTier.red
            (unknown_tool tool_key) db in
        (ok result, db')
    | some spec ↦ dispatch_spec approval run_id spec tool_key args db
  ]

  unfoldable pub dispatch_call :
      List (ToolSpec W)
      → Approval
      → String × Args
      → Db W
      → Result ValidationError DispatchResult × Db W
  dispatch_call tools approval (tool_key, args) db = elim approval.run_id [
    | none ↦ (ok (not_executed approval tool_key (some unavailable) run_is_gone none), db)
    | some run_id ↦ dispatch_run tools approval run_id tool_key args db
  ]

  unfoldable pub dispatch_approved :
      List (ToolSpec W) → Approval → Db W → Result ValidationError DispatchResult × Db W
  dispatch_approved tools approval db =
      if is_approved approval.status
      then elim (preview_call approval.preview) [
        | none ↦ (ok (not_executed approval approval.action_kind none no_tool_call none), db)
        | some c ↦ dispatch_call tools approval c db
      ]
      else (ok (not_executed approval approval.action_kind none not_approved none), db)
