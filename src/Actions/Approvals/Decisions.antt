-- ===== src/Actions/Approvals/Decisions.antt =====
-- The three ways a decision can end.
use gummy_os.Common.{
  ℕ, ◌≤◌, ◌<◌, ◌≡◌, ◌≢◌, true, false, Bool-cases, leb, inl, inr, ◌⊎◌, Result, Result-cases, is_ok,
  ok, err, arith,
}
use gummy_os.Models.{ApprovalStatus}
use gummy_os.Actions.{Approval, Db, set_decision}
use gummy_os.Actions.Approvals.{
  ApprovalError, approval_not_found, approval_already_decided, approval_expired, is_pending,
  get_approval, decide_found, decide,
}

module _ {W : Type 0} (user_id approval_id : ℕ) (status : ApprovalStatus) (now : ℕ)
    (db : Db W) where
  abbrev Decision : Type 0
  Decision = Result ApprovalError Approval

  -- Nothing was written: there is no such approval of this user, or it was decided before.
  pub record IsRefused (r : Decision) (db' : Db W) : Type 0 where
    pub unchanged : db' ≡ db
    pub reason :
        ((get_approval user_id approval_id db ≡ err (approval_not_found approval_id))
          × (r ≡ err (approval_not_found approval_id)))
        ⊎ ((a : Approval) × (get_approval user_id approval_id db ≡ ok a)
            × (a.status ≢ ApprovalStatus.pending)
            × (r ≡ err (approval_already_decided a.status)))

  -- A pending approval of this user, not later than its expiry, took the decision.
  pub record IsDecided (r : Decision) (db' : Db W) : Type 0 where
    pub approval : Approval
    pub found : get_approval user_id approval_id db ≡ ok approval
    pub was_pending : approval.status ≡ ApprovalStatus.pending
    pub in_time : now < approval.expires_at
    pub written : db' ≡ (set_decision approval status now db).1
    pub result : r ≡ ok (set_decision approval status now db).0

  -- A pending approval of this user was marked as expired, and the decision was refused.
  pub record IsExpired (r : Decision) (db' : Db W) : Type 0 where
    pub approval : Approval
    pub found : get_approval user_id approval_id db ≡ ok approval
    pub was_pending : approval.status ≡ ApprovalStatus.pending
    pub too_late : approval.expires_at ≤ now
    pub written : db' ≡ (set_decision approval ApprovalStatus.expired now db).1
    pub result : r ≡ err approval_expired

  is_pending→≡ : (s : ApprovalStatus) → is_pending s ≡ true → s ≡ ApprovalStatus.pending
  is_pending→≡ s h = unfold is_pending in ground arith

  decide_found-cases :
      (a : Approval) (r : Decision) (db' : Db W)
      → get_approval user_id approval_id db ≡ ok a
      → decide_found a status now db ≡ (r, db')
      → IsRefused r db' ⊎ IsDecided r db' ⊎ IsExpired r db'
  decide_found-cases a r db' found h = elim (Bool-cases (is_pending a.status)) [
    | inr other ↦ inl (
        unfold decide_found in
        record {
          unchanged = ground arith;
          reason = inr (a, found, (λ e. ground arith), ground arith);
        })
    | inl waiting ↦ elim (Bool-cases (leb a.expires_at now)) [
      | inl late ↦ inr (
          inr (
            unfold decide_found in
            record {
              approval = a;
              found = found;
              was_pending = is_pending→≡ a.status waiting;
              too_late = ground arith;
              written = ground arith;
              result = ground arith;
            }))
      | inr early ↦ inr (
          inl (
            unfold decide_found in
            record {
              approval = a;
              found = found;
              was_pending = is_pending→≡ a.status waiting;
              in_time = ground arith;
              written = ground arith;
              result = ground arith;
            }))
    ]
  ]

  missing_own :
      (e : ApprovalError)
      → get_approval user_id approval_id db ≡ err e
      → get_approval user_id approval_id db ≡ err (approval_not_found approval_id)
  missing_own e h = unfold get_approval in ground arith

  -- A decision either writes nothing, since this user has no such approval or it is no longer
  -- pending; or takes effect on a pending approval of this user before its expiry, with the status
  -- asked for and the time of the decision; or, at or after the expiry, marks the pending approval as
  -- expired and is refused.
  pub decide-cases :
      (r : Decision) (db' : Db W)
      → decide user_id approval_id status now db ≡ (r, db')
      → IsRefused r db' ⊎ IsDecided r db' ⊎ IsExpired r db'
  decide-cases r db' h = elim (Result-cases (get_approval user_id approval_id db)) [
    | inl (a, found) ↦ decide_found-cases a r db' found (unfold decide in ground arith)
    | inr (e, missing) ↦ inl (record {
      unchanged = unfold decide in ground arith;
      reason = inl (missing_own e missing, unfold decide get_approval in ground arith);
    })
  ]

  pub refused-is_ok : (r : Decision) (db' : Db W) → IsRefused r db' → is_ok r ≡ false
  refused-is_ok r db' h = elim h.reason [
    | inl (own, missing) ↦ rw missing
    | inr (a, found, other, again) ↦ rw again
  ]
