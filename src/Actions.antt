-- ===== src/Actions.antt =====
-- Tool calls, approvals and the audit trail: the rows of backend/app/models/action_approval.py and
-- backend/app/models/tool_invocation.py, and the repositories' inserts. A time is a number of
-- microseconds.
pub mod Approvals
pub mod Branches
pub mod Interface
pub mod Dispatch
pub mod Endpoints
pub mod Loop
use gummy_os.Common.{
  ℕ, ◌+◌, ◌*◌, String, Bool, List, [], ◌∷◌, ◌++◌, Option, none, some, ◌==◌, update, count_if, false,
}
use gummy_os.Models.{PermissionTier, ApprovalStatus, ToolDecision, ToolRunStatus}
use gummy_os.Tools.{Args, Value}
use gummy_os.Tools.Executor.{ErrorText}
use gummy_os.Agents.Policy.{Reason}

abbrev pub second : ℕ
second = 1000000

-- `ACTION_APPROVAL_TTL_SECONDS`
abbrev pub action_approval_ttl_seconds : ℕ
action_approval_ttl_seconds = 24 * 60 * 60

-- What a stored preview holds: its `tool_key`, if that is a text, and its `args`, if those are a
-- dict.
pub record Preview : Type 0 where
  pub tool_key : Option String
  pub args : Option Args

pub record Approval : Type 0 where
  pub id : ℕ
  pub user_id : ℕ
  pub run_id : Option ℕ
  pub agent_key : String
  pub action_kind : String
  pub tier : PermissionTier
  pub preview : Preview
  pub status : ApprovalStatus
  pub decided_at : Option ℕ
  pub expires_at : ℕ

-- The sentences of `decision_reason` and `error`.
pub data AuditText : Type 0 where
  unknown_tool : (tool_key : String) → AuditText
  no_such_tool : (tool_key : String) → AuditText
  not_available : (tool_name : String) → AuditText
  verdict : Reason → AuditText
  approved_by : (approval_id : ℕ) → AuditText
  execution : ErrorText → AuditText

pub data OutputRef : Type 0 where
  approval_ref : (approval_id : ℕ) → OutputRef
  output_ref : Value → OutputRef

pub record ToolInvocation : Type 0 where
  pub id : ℕ
  pub user_id : ℕ
  pub run_id : ℕ
  pub agent_key : String
  pub tool_key : String
  pub args : Args
  pub tier : PermissionTier
  pub decision : ToolDecision
  pub status : ToolRunStatus
  pub decision_reason : AuditText
  pub output : Option OutputRef
  pub error : Option AuditText

-- The two tables, the next fresh id, and the state that the tools reach.
pub record Db (W : Type 0) : Type 0 where
  pub approvals : List Approval
  pub invocations : List ToolInvocation
  pub next_id : ℕ
  pub world : W

-- The rows of the audit trail that record a run of approval `i`.
abbrev pub is_run_of : ℕ → ToolInvocation → Bool
is_run_of i row = elim row.decision_reason [ approved_by j ↦ j == i | _ ↦ false ]

module _ {W : Type 0} where
  abbrev pub runs : ℕ → Db W → ℕ
  runs i db = count_if (is_run_of i) db.invocations

  unfoldable pub insert_approval : Approval → Db W → Db W
  insert_approval a db = record db { approvals = db.approvals ++ a ∷ []; next_id = db.next_id + 1 }

  unfoldable pub record_invocation : ToolInvocation → Db W → Db W
  record_invocation row db = record db {
    invocations = db.invocations ++ row ∷ [];
    next_id = db.next_id + 1;
  }

  -- `repo.create_pending` with the default time to live.
  unfoldable pub create_pending :
      (user_id : ℕ)
      → (agent_key action_kind : String) → PermissionTier
      → Preview
      → Option ℕ
      → (now : ℕ) → Db W
      → Approval × Db W
  unfolding insert_approval
  create_pending user_id agent_key action_kind tier preview run_id now db =
      let approval : Approval = record {
        id = db.next_id;
        user_id = user_id;
        run_id = run_id;
        agent_key = agent_key;
        action_kind = action_kind;
        tier = tier;
        preview = preview;
        status = ApprovalStatus.pending;
        decided_at = none;
        expires_at = now + action_approval_ttl_seconds * second;
      } in
      (approval, insert_approval approval db)

  -- `repo.set_decision`: the row is found by its primary key.
  unfoldable pub set_decision : Approval → ApprovalStatus → (now : ℕ) → Db W → Approval × Db W
  set_decision approval status now db =
      let decide = λ (a : Approval). record a { status = status; decided_at = some now } in
      (
        decide approval,
        record db { approvals = update (λ a. a.id == approval.id) decide db.approvals },
      )
