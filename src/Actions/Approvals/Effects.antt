-- ===== src/Actions/Approvals/Effects.antt =====
-- What a decision leaves in the table of approvals.
use gummy_os.Common.{
  ℕ, ◌≤◌, ◌<◌, ◌≡◌, ◌≢◌, ◌∙◌, refl, ap, ◌&&◌, ◌==◌, find, find-some, update, Option-cases, none,
  some, inl, inr, ◌⊎◌, Result, ok, err, arith,
}
use gummy_os.Models.{ApprovalStatus}
use gummy_os.Actions.{Approval, Db, set_decision}
use gummy_os.Actions.Approvals.{
  ApprovalError, approval_not_found, approval_already_decided, approval_expired, get_approval,
  decide,
}
use gummy_os.Actions.Approvals.Decisions.{decide-cases}

module _ {W : Type 0} (user_id approval_id : ℕ) (status : ApprovalStatus) (now : ℕ)
    (db : Db W) where
  -- The first row of this id and this user.
  pub record IsOwn (a : Approval) : Type 0 where
    pub row : find (λ x. x.id == approval_id && x.user_id == user_id) db.approvals ≡ some a
    pub same_id : a.id ≡ approval_id
    pub same_user : a.user_id ≡ user_id

  -- The row with a decision at `now`.
  abbrev pub stamped : ApprovalStatus → Approval → Approval
  stamped s a = record a { status = s; decided_at = some now }

  -- Only the rows of the approval's id are written.
  abbrev pub with_decision : ApprovalStatus → Db W
  with_decision s = record db {
    approvals = update (λ x. x.id == approval_id) (stamped s) db.approvals;
  }

  abbrev pub Ending : Type 0
  Ending = Result ApprovalError Approval × Db W

  abbrev pub IsUnfound : Ending → Type 0
  IsUnfound (r, db') =
      (find (λ x. x.id == approval_id && x.user_id == user_id) db.approvals ≡ none)
      × (r ≡ err (approval_not_found approval_id))
      × (db' ≡ db)

  abbrev pub IsOld : Ending → Type 0
  IsOld (r, db') =
      (a : Approval) × IsOwn a
      × (a.status ≢ ApprovalStatus.pending)
      × (r ≡ err (approval_already_decided a.status))
      × (db' ≡ db)

  abbrev pub IsTaken : Ending → Type 0
  IsTaken (r, db') =
      (a : Approval) × IsOwn a
      × (a.status ≡ ApprovalStatus.pending)
      × (now < a.expires_at)
      × (r ≡ ok (stamped status a))
      × (db' ≡ with_decision status)

  abbrev pub IsLapsed : Ending → Type 0
  IsLapsed (r, db') =
      (a : Approval) × IsOwn a
      × (a.status ≡ ApprovalStatus.pending)
      × (a.expires_at ≤ now)
      × (r ≡ err approval_expired)
      × (db' ≡ with_decision ApprovalStatus.expired)

  get_approval-IsOwn : (a : Approval) → get_approval user_id approval_id db ≡ ok a → IsOwn a
  unfolding get_approval
  get_approval-IsOwn a h =
      let own = λ (x : Approval). x.id == approval_id && x.user_id == user_id in
      elim (Option-cases (find own db.approvals)) [
        | inl missing ↦ absurd (ground arith)
        | inr (b, there) ↦
            let same : b ≡ a = ground arith in
            let row : find own db.approvals ≡ some a = there ∙ ap (λ x. some x) same in
            let test = find-some own db.approvals a row in
            record { row = row; same_id = ground arith; same_user = ground arith }
      ]

  get_approval-none :
      get_approval user_id approval_id db ≡ err (approval_not_found approval_id)
      → find (λ x. x.id == approval_id && x.user_id == user_id) db.approvals ≡ none
  unfolding get_approval
  get_approval-none h =
      elim (Option-cases (find (λ x. x.id == approval_id && x.user_id == user_id) db.approvals)) [
        | inl missing ↦ missing
        | inr (b, there) ↦ absurd (ground arith)
      ]

  -- A decision ends in one of four ways. The user has no approval of this id: nothing is written, and it
  -- is not found. The approval was decided before: nothing is written, and the refusal names its status.
  -- It is pending and not yet expired: every row of its id takes the status asked for and the time of the
  -- decision, no other row changes, and it is returned so. It is pending at or after its expiry: its rows
  -- take the status `expired` and that time in the same way, and the decision is refused.
  pub decide-ending :
      (r : Result ApprovalError Approval) (db' : Db W)
      → decide user_id approval_id status now db ≡ (r, db')
      → IsUnfound (r, db') ⊎ IsOld (r, db') ⊎ IsTaken (r, db') ⊎ IsLapsed (r, db')
  decide-ending r db' h = elim (decide-cases user_id approval_id status now db r db' h) [
    | inl refused ↦ elim refused.reason [
      | inl (missing, told) ↦ inl (get_approval-none missing, told, refused.unchanged)
      | inr (a, found, other, told) ↦
          inr (inl (a, get_approval-IsOwn a found, other, told, refused.unchanged))
    ]
    | inr (inl d) ↦
        let own = get_approval-IsOwn d.approval d.found in
        inr (
          inr (
            inl (
              d.approval,
              own,
              d.was_pending,
              d.in_time,
              d.result ∙ unfold set_decision in refl,
              d.written
                  ∙ unfold set_decision in
                    ap
                      (λ i. record db {
                        approvals = update (λ x. x.id == i) (stamped status) db.approvals;
                      })
                      own.same_id,
            )))
    | inr (inr x) ↦
        let own = get_approval-IsOwn x.approval x.found in
        inr (
          inr (
            inr (
              x.approval,
              own,
              x.was_pending,
              x.too_late,
              x.result,
              x.written
                  ∙ unfold set_decision in
                    ap
                      (λ i. record db {
                        approvals =
                            update (λ y. y.id == i) (stamped ApprovalStatus.expired) db.approvals;
                      })
                      own.same_id,
            )))
  ]
