-- ===== src/Tests/Approvals.antt =====
-- Approvals and dispatches (backend/app/services/agents) of the note that a tool call asked for.
use gummy_os.Common.{
  ℕ, ◌+◌, ◌≤◌, String, List, [], ◌∷◌, ◌++◌, Option, none, some, Result, ok, err, ◌≡◌, ◌≢◌, ◌⊎◌,
  ◌==◌, find, refl, arith, any, true, false,
}
use gummy_os.Models.{PermissionTier, ApprovalStatus, ToolDecision, ToolRunStatus}
use gummy_os.Tools.{obj, Fields}
use gummy_os.Tools.Executor.{ToolOutcome}
use gummy_os.Actions.{Approval, Db, ToolInvocation, approved_by, runs}
use gummy_os.Actions.Approvals.{decide, approval_already_decided, ApprovalError}
use gummy_os.Actions.Approvals.Effects.{IsUnfound, IsOld, IsTaken, IsLapsed, decide-ending}
use gummy_os.Actions.Dispatch.{DispatchResult, dispatch_approved}
use gummy_os.Actions.Dispatch.Cases.{Cases, dispatch_approved-Cases}
use gummy_os.Actions.Endpoints.{Request, approve_request, reject_request, tool_call, serve}
use gummy_os.Actions.Endpoints.Once.{no_rows, serve_at_most_once, serve_no_run}
use gummy_os.Actions.Endpoints.Race.{approve_read, approve_write, approve_race}
use gummy_os.Tests.ToolCalls.{note_tool, tools, writer, note_args, caller, note_approval, prompted}

abbrev approved : Approval
approved = record note_approval { status = ApprovalStatus.approved; decided_at = some 2000 }

abbrev decided : Db ℕ
decided = record prompted { approvals = approved ∷ [] }

note-decided : decide 7 0 ApprovalStatus.approved 2000 prompted ≡ (ok approved, decided)
unfolding decide gummy_os.Actions.Approvals.get_approval gummy_os.Actions.Approvals.decide_found
    gummy_os.Actions.set_decision
note-decided = refl

decide-ending_example :
    IsUnfound 7 0 ApprovalStatus.approved 2000 prompted (ok approved, decided)
    ⊎ IsOld 7 0 ApprovalStatus.approved 2000 prompted (ok approved, decided)
    ⊎ IsTaken 7 0 ApprovalStatus.approved 2000 prompted (ok approved, decided)
    ⊎ IsLapsed 7 0 ApprovalStatus.approved 2000 prompted (ok approved, decided)
decide-ending_example =
    decide-ending 7 0 ApprovalStatus.approved 2000 prompted (ok approved) decided note-decided

-- A second decision is refused.
decided-again :
    decide 7 0 ApprovalStatus.rejected 3000 decided
    ≡ (err (approval_already_decided ApprovalStatus.approved), decided)
unfolding decide gummy_os.Actions.Approvals.get_approval gummy_os.Actions.Approvals.decide_found
decided-again = refl

abbrev result : DispatchResult
result = record {
  approval_id = 0;
  tool_key = "note";
  executed = true;
  outcome = some ToolOutcome.success;
  output = some (obj Fields.end);
  error = none;
  invocation_id = some 2;
}

abbrev row : ToolInvocation
row = record {
  id = 2;
  user_id = 7;
  run_id = 5;
  agent_key = "writer";
  tool_key = "note";
  args = note_args;
  tier = PermissionTier.yellow;
  decision = ToolDecision.allowed;
  status = ToolRunStatus.succeeded;
  decision_reason = approved_by 0;
  output = none;
  error = none;
}

abbrev dispatched : Db ℕ
dispatched = record decided {
  invocations = decided.invocations ++ row ∷ [];
  next_id = 3;
  world = 1;
}

note-dispatched : dispatch_approved tools approved decided ≡ (ok result, dispatched)
unfolding dispatch_approved gummy_os.Actions.Dispatch.is_approved
    gummy_os.Actions.Dispatch.preview_call gummy_os.Actions.Dispatch.dispatch_call
    gummy_os.Actions.Dispatch.dispatch_run gummy_os.Tools.Catalog.get
    gummy_os.Actions.Dispatch.dispatch_spec gummy_os.Tools.is_executable gummy_os.Tools.Executor.run
    gummy_os.Tools.Arguments.validate_args gummy_os.Tools.Arguments.check_args
    gummy_os.Tools.Arguments.check_arg gummy_os.Tools.Arguments.lookup_arg gummy_os.Common.text_eq
    gummy_os.Tools.Arguments.check_type gummy_os.Tools.Arguments.type_check
    gummy_os.Tools.Arguments.is_instance gummy_os.Tools.Arguments.coerce_int
    gummy_os.Actions.Dispatch.audit_row gummy_os.Actions.Dispatch.dispatch_ended
    gummy_os.Actions.Dispatch.dispatch_withdrawn gummy_os.Actions.Dispatch.ended_row
    gummy_os.Actions.Dispatch.execution_error gummy_os.Actions.Dispatch.not_executed
    gummy_os.Actions.record_invocation gummy_os.Common.all_codes gummy_os.Common.digits_value
    gummy_os.Common.int_of gummy_os.Common.is_decimal gummy_os.Common.is_digit
    gummy_os.Common.is_digit_code gummy_os.Tools.Arguments.add_checked
    gummy_os.Tools.Arguments.is_missing gummy_os.Tools.Arguments.missing_errors
    gummy_os.Tools.Executor.as_dict gummy_os.Tools.Executor.call gummy_os.Tools.Executor.conclude
    gummy_os.Tools.Executor.exception_text gummy_os.Tools.Executor.ok_outcome
    gummy_os.Tools.Executor.refuse gummy_os.Tools.Arguments.iterated gummy_os.Tools.Values.field_or
    gummy_os.Tools.Arguments.missing_error gummy_os.Tools.Values.get_field
    gummy_os.Tools.Arguments.type_name gummy_os.Common.to_string
note-dispatched = refl

dispatch_approved-Cases_example : Cases tools approved decided result dispatched
dispatch_approved-Cases_example =
    dispatch_approved-Cases tools approved decided result dispatched note-dispatched

-- The note is asked for, approved twice and rejected.
abbrev requests : List Request
requests =
    tool_call caller "note" note_args
    ∷ approve_request 7 0 2000
    ∷ approve_request 7 0 2001
    ∷ reject_request 7 0 2002
    ∷ []

serve_at_most_once_example : runs 0 (serve tools (writer ∷ []) requests (no_rows 0)) ≤ 1
serve_at_most_once_example = serve_at_most_once tools (writer ∷ []) requests 0 0

-- The note is asked for and rejected.
abbrev refusal : List Request
refusal =
    tool_call caller "note" note_args ∷ reject_request 7 0 2000 ∷ approve_request 7 0 2001 ∷ []

abbrev rejected : Approval
rejected = record note_approval { status = ApprovalStatus.rejected; decided_at = some 2000 }

note-rejected :
    find (λ x. x.id == 0) (serve tools (writer ∷ []) refusal (no_rows 0)).approvals ≡ some rejected
unfolding serve gummy_os.Actions.Endpoints.handle gummy_os.Actions.Endpoints.approve_action
    gummy_os.Actions.Endpoints.run_decided gummy_os.Actions.Approvals.approve decide
    gummy_os.Actions.Approvals.get_approval gummy_os.Actions.Endpoints.reject_action
    gummy_os.Actions.Approvals.reject gummy_os.Actions.Interface.invoke gummy_os.Agents.Registry.get
    gummy_os.Tools.Catalog.get gummy_os.Actions.Interface.invoke_known
    gummy_os.Actions.Interface.branch gummy_os.Agents.Policy.evaluate
    gummy_os.Actions.Interface.conclude gummy_os.Actions.record_invocation
    gummy_os.Actions.Branches.prompt_branch gummy_os.Actions.Approvals.decide_found
    gummy_os.Actions.Approvals.is_pending gummy_os.Actions.Branches.allow_branch
    gummy_os.Actions.Branches.blocked_branch gummy_os.Actions.Branches.executed_branch
    gummy_os.Actions.Branches.items_length gummy_os.Actions.Branches.modelled_branch
    gummy_os.Actions.Branches.output_preview gummy_os.Actions.Branches.preview_fields
    gummy_os.Actions.Branches.preview_value gummy_os.Actions.Dispatch.audit_row dispatch_approved
    gummy_os.Actions.Dispatch.dispatch_call gummy_os.Actions.Dispatch.dispatch_ended
    gummy_os.Actions.Dispatch.dispatch_run gummy_os.Actions.Dispatch.dispatch_spec
    gummy_os.Actions.Dispatch.dispatch_withdrawn gummy_os.Actions.Dispatch.ended_row
    gummy_os.Actions.Dispatch.execution_error gummy_os.Actions.Dispatch.is_approved
    gummy_os.Actions.Dispatch.not_executed gummy_os.Actions.Dispatch.preview_call
    gummy_os.Actions.Interface.branch_row gummy_os.Actions.Interface.invoke_unknown
    gummy_os.Actions.Interface.unknown_row gummy_os.Actions.create_pending
    gummy_os.Actions.insert_approval gummy_os.Actions.set_decision
    gummy_os.Agents.Policy.evaluate_tier gummy_os.Common.all_codes gummy_os.Common.digits_value
    gummy_os.Common.int_of gummy_os.Common.is_decimal gummy_os.Common.is_digit
    gummy_os.Common.is_digit_code gummy_os.Common.lower gummy_os.Common.lower_code
    gummy_os.Common.text_eq gummy_os.Tools.Arguments.add_checked
    gummy_os.Tools.Arguments.bound_value gummy_os.Tools.Arguments.check_arg
    gummy_os.Tools.Arguments.check_args gummy_os.Tools.Arguments.check_type
    gummy_os.Tools.Arguments.coerce_int gummy_os.Tools.Arguments.is_instance
    gummy_os.Tools.Arguments.is_missing gummy_os.Tools.Arguments.is_secret
    gummy_os.Tools.Arguments.lookup_arg gummy_os.Tools.Arguments.missing_errors
    gummy_os.Tools.Arguments.redact_args gummy_os.Tools.Arguments.type_check
    gummy_os.Tools.Arguments.validate_args gummy_os.Tools.Executor.as_dict
    gummy_os.Tools.Executor.call gummy_os.Tools.Executor.conclude
    gummy_os.Tools.Executor.exception_text gummy_os.Tools.Executor.ok_outcome
    gummy_os.Tools.Executor.refuse gummy_os.Tools.Executor.run gummy_os.Tools.is_executable
note-rejected = refl

serve_no_run_example : runs 0 (serve tools (writer ∷ []) refusal (no_rows 0)) ≡ 0
serve_no_run_example =
    serve_no_run tools (writer ∷ []) refusal 0 0 rejected note-rejected (λ e. ground arith)

note-read : approve_read 7 0 2000 prompted ≡ ok note_approval
unfolding approve_read gummy_os.Actions.Approvals.get_approval gummy_os.Actions.Approvals.is_pending
note-read = refl

note-read_later : approve_read 7 0 2001 prompted ≡ ok note_approval
unfolding approve_read gummy_os.Actions.Approvals.get_approval gummy_os.Actions.Approvals.is_pending
note-read_later = refl

approve_race_example :
    runs 0
      (approve_write tools note_approval 2001 (approve_write tools note_approval 2000 prompted))
    ≡ runs 0 prompted + 2
unfolding gummy_os.Actions.Dispatch.preview_call gummy_os.Tools.Catalog.get
    gummy_os.Tools.is_executable gummy_os.Tools.Arguments.lookup_arg gummy_os.Common.text_eq
    gummy_os.Common.is_digit gummy_os.Tools.Values.field_or gummy_os.Tools.Values.get_field
    gummy_os.Common.to_string
approve_race_example =
    approve_race tools note_approval 5 "note" note_args note_tool refl refl refl refl refl refl 7 0
      2000 2001 prompted note-read note-read_later
