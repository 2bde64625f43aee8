-- ===== src/Actions/Endpoints/Decided.antt =====
-- The decisions and the endpoint of an approval, over the count of an approval's runs.
use mathlib.Core.Path.{subst, sym}
use gummy_os.Common.{
  ℕ, ◌<◌, List, All-find, find, ◌≡◌, refl, ap, ◌∙◌, false, some, inl, inr, Result, is_ok, ok, err,
  arith, ◌==◌, ◌&&◌,
}
use gummy_os.Tools.Arguments.{ValidationError}
use gummy_os.Models.{ApprovalStatus}
use gummy_os.Tools.{ToolSpec}
use gummy_os.Actions.{Approval, Db, runs, set_decision}
use gummy_os.Actions.Approvals.{get_approval, decide, approve, ApprovalError}
use gummy_os.Actions.Dispatch.{DispatchResult, dispatch_approved}
use gummy_os.Actions.Approvals.Decisions.{decide-cases, refused-is_ok}
use gummy_os.Actions.Endpoints.{run_decided, approve_action}
use gummy_os.Actions.Endpoints.Spending.{
  IsUnspent, IsSpentOnce, set_decision-IsSpentOnce, spends, dispatch-IsSpentOnce,
}

module _ {W : Type 0} where
  -- What reading an approval tells about it.
  module _ (i user_id approval_id : ℕ) (db : Db W) (h : IsSpentOnce i db) (a : Approval)
      (found : get_approval user_id approval_id db ≡ ok a)
      (waiting : a.status ≡ ApprovalStatus.pending) where
    read : find (λ a. a.id == approval_id && a.user_id == user_id) db.approvals ≡ some a
    read = unfold get_approval in ground arith

    read-unspent : a.id ≡ i → runs i db ≡ 0
    read-unspent own =
        All-find (IsUnspent i (runs i db)) _ db.approvals a h.unspent read own (λ e. ground arith)

    read-below : a.id < db.next_id
    read-below = All-find (λ (b : Approval). b.id < db.next_id) _ db.approvals a h.known_ids read

    decided-IsSpentOnce :
        (status : ApprovalStatus) (now : ℕ) → IsSpentOnce i (set_decision a status now db).1
    decided-IsSpentOnce status now = set_decision-IsSpentOnce i a status now db h read-unspent

    approved-IsSpentOnce :
        (tools : List (ToolSpec W)) (now : ℕ) (db2 : Db W)
        (r : Result ValidationError DispatchResult)
        → dispatch_approved tools
            (set_decision a ApprovalStatus.approved now db).0
            (set_decision a ApprovalStatus.approved now db).1
          ≡ (r, db2)
        → IsSpentOnce i db2
    approved-IsSpentOnce tools now db2 r d =
        dispatch-IsSpentOnce tools i (set_decision a ApprovalStatus.approved now db).0 _ db2 r
          (decided-IsSpentOnce ApprovalStatus.approved now) (unfold set_decision in read-unspent)
          (unfold set_decision in read-below)
          (λ n own.
            unfold set_decision in
            spends i a ApprovalStatus.approved now db refl own n db.approvals)
          d

  pub decide-IsSpentOnce :
      (i user_id approval_id : ℕ) (status : ApprovalStatus) (now : ℕ) (db : Db W)
      → IsSpentOnce i db
      → IsSpentOnce i (decide user_id approval_id status now db).1
  decide-IsSpentOnce i user_id approval_id status now db h =
      elim (decide-cases user_id approval_id status now db _ _ refl) [
        | inl refused ↦ subst (IsSpentOnce i) (sym refused.unchanged) h
        | inr (inl d) ↦ subst (IsSpentOnce i) (sym d.written) (
            decided-IsSpentOnce i user_id approval_id db h d.approval d.found d.was_pending status
              now)
        | inr (inr x) ↦ subst (IsSpentOnce i) (sym x.written) (
            decided-IsSpentOnce i user_id approval_id db h x.approval x.found x.was_pending
              ApprovalStatus.expired now)
      ]

  -- After a decision that failed nothing more happens; after one that succeeded, the dispatch.
  run_decided-failed :
      (tools : List (ToolSpec W)) (r : Result ApprovalError Approval) (db : Db W)
      → is_ok r ≡ false
      → (run_decided tools r db).1 ≡ db
  unfolding run_decided
  run_decided-failed tools (err e) db h = refl
  run_decided-failed tools (ok a) db h = absurd (ground arith)

  run_decided-ok :
      (tools : List (ToolSpec W)) (r : Result ApprovalError Approval) (a : Approval) (db : Db W)
      → r ≡ ok a
      → (run_decided tools r db).1 ≡ (dispatch_approved tools a db).1
  unfolding run_decided
  run_decided-ok tools r a db h = rw (h, run_decided)

  pub approve_action-IsSpentOnce :
      (tools : List (ToolSpec W)) (i user_id approval_id now : ℕ) (db : Db W)
      → IsSpentOnce i db
      → IsSpentOnce i (approve_action tools user_id approval_id now db).1
  unfolding approve_action approve
  approve_action-IsSpentOnce tools i user_id approval_id now db h =
      elim (decide-cases user_id approval_id ApprovalStatus.approved now db r db1 refl) [
        | inl refused ↦
            failed (refused-is_ok user_id approval_id ApprovalStatus.approved now db r db1 refused)
        | inr (inl d) ↦
            subst (IsSpentOnce i)
              (sym (
                run_decided-ok tools r _ db1 d.result
                ∙ ap
                    (λ (x : Db W).
                      (dispatch_approved tools
                        (set_decision d.approval ApprovalStatus.approved now db).0 x).1)
                    d.written))
              (approved-IsSpentOnce i user_id approval_id db h d.approval d.found d.was_pending
                tools now _ _ refl)
        | inr (inr x) ↦ failed (ground arith)
      ]
    where
      r : Result ApprovalError Approval
      r = (decide user_id approval_id ApprovalStatus.approved now db).0

      db1 : Db W
      db1 = (decide user_id approval_id ApprovalStatus.approved now db).1

      failed : is_ok r ≡ false → IsSpentOnce i (run_decided tools r db1).1
      failed f =
          subst (IsSpentOnce i) (sym (run_decided-failed tools r db1 f))
            (decide-IsSpentOnce i user_id approval_id ApprovalStatus.approved now db h)
