-- ===== src/Actions/Endpoints/Once.antt =====
-- Requests one at a time: an approval runs at most once, and only if it was approved.
use gummy_os.Common.{
  ℕ, ◌≤◌, List, [], ◌∷◌, All-find, find, find-some, ◌≡◌, ◌≢◌, refl, some, inl, inr, Result-cases,
  arith, ◌==◌,
}
use gummy_os.Models.{ApprovalStatus}
use gummy_os.Tools.{ToolSpec}
use gummy_os.Agents.{AgentManifest}
use gummy_os.Actions.{Approval, Db, runs}
use gummy_os.Actions.Approvals.{reject}
use gummy_os.Actions.Interface.{invoke}
use gummy_os.Actions.Endpoints.{
  reject_action, Request, approve_request, reject_request, tool_call, handle, serve,
}
use gummy_os.Actions.Endpoints.Spending.{IsUnspent, IsSpentOnce}
use gummy_os.Actions.Endpoints.Decided.{decide-IsSpentOnce, approve_action-IsSpentOnce}
use gummy_os.Actions.Endpoints.Called.{invoke-IsSpentOnce}

module _ {W : Type 0} where
  module _ (tools : List (ToolSpec W)) (registry : List AgentManifest) (i : ℕ) where
    handle-IsSpentOnce :
        (request : Request) (db : Db W)
        → IsSpentOnce i db
        → IsSpentOnce i (handle tools registry request db)
    unfolding handle
    handle-IsSpentOnce (approve_request user_id approval_id now) db h =
        approve_action-IsSpentOnce tools i user_id approval_id now db h
    handle-IsSpentOnce (reject_request user_id approval_id now) db h =
        unfold reject_action reject in
        decide-IsSpentOnce i user_id approval_id ApprovalStatus.rejected now db h
    handle-IsSpentOnce (tool_call caller key args) db h =
        elim (Result-cases (invoke tools registry caller key args db)) [
          | inl ((r, db'), e) ↦
              rw (e, handle) (invoke-IsSpentOnce tools registry i caller key args db r db' h e)
          | inr (e, raised) ↦ rw (raised, handle) h
        ]

    serve-IsSpentOnce :
        (requests : List Request) (db : Db W)
        → IsSpentOnce i db
        → IsSpentOnce i (serve tools registry requests db)
    unfolding serve
    serve-IsSpentOnce [] db h = h
    serve-IsSpentOnce (request ∷ requests) db h =
        serve-IsSpentOnce requests (handle tools registry request db)
          (handle-IsSpentOnce request db h)

  -- The tables before the first request.
  abbrev pub no_rows : W → Db W
  no_rows w = record { approvals = []; invocations = []; next_id = 0; world = w }

  served-IsSpentOnce :
      (tools : List (ToolSpec W)) (registry : List AgentManifest) (requests : List Request) (w : W)
      (i : ℕ)
      → IsSpentOnce i (serve tools registry requests (no_rows w))
  served-IsSpentOnce tools registry requests w i =
      serve-IsSpentOnce tools registry i requests (no_rows w)
        (record { at_most_once = omega arith; fresh = λ k. refl; known_ids = tt; unspent = tt })

  -- From empty tables, after any sequence of approvals, rejections and tool calls that are handled
  -- one after the other, the audit trail records at most one run of each approval.
  pub serve_at_most_once :
      (tools : List (ToolSpec W)) (registry : List AgentManifest) (requests : List Request) (w : W)
      (i : ℕ)
      → runs i (serve tools registry requests (no_rows w)) ≤ 1
  serve_at_most_once tools registry requests w i =
      (served-IsSpentOnce tools registry requests w i).at_most_once

  -- From empty tables, after any sequence of approvals, rejections and tool calls that are handled
  -- one after the other, an approval whose status is not approved has no run in the audit trail.
  pub serve_no_run :
      (tools : List (ToolSpec W)) (registry : List AgentManifest) (requests : List Request) (w : W)
      (i : ℕ) (a : Approval)
      → find (λ x. x.id == i) (serve tools registry requests (no_rows w)).approvals ≡ some a
      → a.status ≢ ApprovalStatus.approved
      → runs i (serve tools registry requests (no_rows w)) ≡ 0
  serve_no_run tools registry requests w i a found other =
      let end = serve tools registry requests (no_rows w) in
      All-find (IsUnspent i (runs i end)) (λ (x : Approval). x.id == i) end.approvals a
        (served-IsSpentOnce tools registry requests w i).unspent found
        (ground (arith, find-some (λ (x : Approval). x.id == i) end.approvals a found)) other
