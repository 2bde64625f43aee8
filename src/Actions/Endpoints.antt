-- ===== src/Actions/Endpoints.antt =====
-- The action endpoints (backend/app/api/v1/actions.py), and the requests that reach the tables: the
-- two endpoints and the agents' tool calls, one at a time.
pub mod Spending
mod Decided
mod Called
pub mod Once
pub mod Race
use gummy_os.Common.{ℕ, String, List, [], ◌∷◌, Result, ok, err}
use gummy_os.Tools.{Args, ToolSpec}
use gummy_os.Tools.Arguments.{ValidationError}
use gummy_os.Agents.{AgentManifest}
use gummy_os.Actions.{Approval, Db}
use gummy_os.Actions.Approvals.{ApprovalError, approve, reject}
use gummy_os.Actions.Branches.{Caller}
use gummy_os.Actions.Interface.{invoke}
use gummy_os.Actions.Dispatch.{DispatchResult, dispatch_approved}

pub data ActionError : Type 0 where
  approval_error : ApprovalError → ActionError
  validation_error : ValidationError → ActionError

module _ {W : Type 0} (tools : List (ToolSpec W)) where
  -- What follows a decision: the dispatch, whose own exception ends the request.
  unfoldable pub run_decided :
      Result ApprovalError Approval → Db W → Result ActionError DispatchResult × Db W
  run_decided (err e) db = (err (approval_error e), db)
  run_decided (ok approval) db =
      let (result, db') = dispatch_approved tools approval db in
      (elim result [ err e ↦ err (validation_error e) | ok r ↦ ok r ], db')

  unfoldable pub approve_action :
      (user_id approval_id now : ℕ) → Db W → Result ActionError DispatchResult × Db W
  approve_action user_id approval_id now db =
      let (decided, db') = approve user_id approval_id now db in run_decided decided db'

  unfoldable pub reject_action :
      (user_id approval_id now : ℕ) → Db W → Result ApprovalError Approval × Db W
  reject_action user_id approval_id now db = reject user_id approval_id now db

pub data Request : Type 0 where
  approve_request reject_request : (user_id approval_id now : ℕ) → Request
  tool_call : Caller → (tool_key : String) → Args → Request

module _ {W : Type 0} (tools : List (ToolSpec W)) (registry : List AgentManifest) where
  -- A tool call that raises is rolled back with its turn.
  unfoldable pub handle : Request → Db W → Db W
  handle (approve_request user_id approval_id now) db =
      (approve_action tools user_id approval_id now db).1
  handle (reject_request user_id approval_id now) db =
      (reject_action tools user_id approval_id now db).1
  handle (tool_call caller tool_key args) db =
      elim (invoke tools registry caller tool_key args db) [ err e ↦ db | ok (r, db') ↦ db' ]

  unfoldable pub serve : List Request → Db W → Db W
  serve [] db = db
  serve (request ∷ requests) db = serve requests (handle request db)
