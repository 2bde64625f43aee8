-- ===== src/Actions/Approvals.antt =====
-- The approval service (backend/app/services/agents/approval_service.py). A decision reads the
-- clock once here.
pub mod Decisions
pub mod Effects
use gummy_os.Common.{
  ℕ, Bool, true, false, ◌&&◌, ◌==◌, leb, find, none, some, Result, ok, err, not, if◌then◌else◌,
}
use gummy_os.Models.{ApprovalStatus}
use gummy_os.Actions.{Approval, Db, set_decision}

pub data ApprovalError : Type 0 where
  approval_not_found : ℕ → ApprovalError
  approval_already_decided : ApprovalStatus → ApprovalError
  approval_expired : ApprovalError

unfoldable pub is_pending : ApprovalStatus → Bool
is_pending ApprovalStatus.pending = true
is_pending _ = false

module _ {W : Type 0} where
  -- One tenant-scoped approval.
  unfoldable pub get_approval : (user_id approval_id : ℕ) → Db W → Result ApprovalError Approval
  get_approval user_id approval_id db =
      elim (find (λ a. a.id == approval_id && a.user_id == user_id) db.approvals) [
        | none ↦ err (approval_not_found approval_id)
        | some a ↦ ok a
      ]

  unfoldable pub decide_found :
      Approval → ApprovalStatus → (now : ℕ) → Db W → Result ApprovalError Approval × Db W
  unfolding is_pending
  decide_found approval status now db =
      if not (is_pending approval.status)
      then (err (approval_already_decided approval.status), db)
      else if leb approval.expires_at now
      then (err approval_expired, (set_decision approval ApprovalStatus.expired now db).1)
      else let (decided, db') = set_decision approval status now db in (ok decided, db')

  unfoldable pub decide :
      (user_id approval_id : ℕ)
      → ApprovalStatus
      → (now : ℕ) → Db W
      → Result ApprovalError Approval × Db W
  decide user_id approval_id status now db = elim (get_approval user_id approval_id db) [
    | err e ↦ (err e, db)
    | ok approval ↦ decide_found approval status now db
  ]

  unfoldable pub approve :
      (user_id approval_id now : ℕ) → Db W → Result ApprovalError Approval × Db W
  approve user_id approval_id = decide user_id approval_id ApprovalStatus.approved

  unfoldable pub reject :
      (user_id approval_id now : ℕ) → Db W → Result ApprovalError Approval × Db W
  reject user_id approval_id = decide user_id approval_id ApprovalStatus.rejected
