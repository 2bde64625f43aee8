-- ===== src/Actions/Endpoints/Spending.antt =====
-- The invariant of an approval's runs, and what single operations do to it.
use mathlib.Core.Path.{subst, sym}
use gummy_os.Common.{
  ℕ, ◌+◌, ◌≤◌, ◌<◌, List, [], ◌∷◌, ◌++◌, All, All-imp, All-update, update, ◌≡◌, ◌≢◌, ◌∙◌,
  Bool-cases, if◌then◌else◌, some, inl, inr, Result, ok, err, arith, count_if-snoc, ◌==◌,
}
use native.Mathlib.Decide.{ℕ_discrete}
use gummy_os.Tools.Arguments.{ValidationError}
use gummy_os.Models.{ApprovalStatus}
use gummy_os.Tools.{ToolSpec}
use gummy_os.Actions.{Approval, ToolInvocation, approved_by, Db, runs, is_run_of, set_decision}
use gummy_os.Actions.Dispatch.{DispatchResult, dispatch_approved}
use gummy_os.Actions.Dispatch.Cases.{dispatch_approved-Cases, dispatch_approved_raises}

-- An approval that was not approved has not run.
abbrev pub IsUnspent : ℕ → ℕ → Approval → Type 0
IsUnspent i n a = a.id ≡ i → a.status ≢ ApprovalStatus.approved → n ≡ 0

module _ {W : Type 0} where
  pub record IsSpentOnce (i : ℕ) (db : Db W) : Type 0 where
    pub at_most_once : runs i db ≤ 1
    pub fresh : db.next_id ≤ i → runs i db ≡ 0
    pub known_ids : All (λ (a : Approval). a.id < db.next_id) db.approvals
    pub unspent : All (IsUnspent i (runs i db)) db.approvals

  -- A decision on an approval that has not run, whatever the decision.
  module _ (i : ℕ) (a : Approval) (status : ApprovalStatus) (now : ℕ) (db : Db W) where
    abbrev pub decided : Approval → Approval
    decided b = record b { status = status; decided_at = some now }

    pub set_decision-IsSpentOnce :
        IsSpentOnce i db
        → (a.id ≡ i → runs i db ≡ 0)
        → IsSpentOnce i (set_decision a status now db).1
    unfolding set_decision
    set_decision-IsSpentOnce h u = record {
      at_most_once = h.at_most_once;
      fresh = h.fresh;
      known_ids =
          All-update (λ (b : Approval). b.id < db.next_id) (λ b. b.id == a.id) decided db.approvals
            (λ b e k. k) h.known_ids;
      unspent =
          All-update (IsUnspent i (runs i db)) (λ b. b.id == a.id) decided db.approvals
            (λ b e k own other. u (ground arith)) h.unspent;
    }

    -- After the approval of `a` every row with its id is approved.
    pub spends :
        status ≡ ApprovalStatus.approved
        → a.id ≡ i
        → (n : ℕ) (xs : List Approval) → All (IsUnspent i n) (update (λ b. b.id == a.id) decided xs)
    spends e own n [] = tt
    spends e own n (x ∷ xs) = (
      elim (Bool-cases (x.id == a.id)) [
        | inl same ↦ rw same (λ o other. absurd (other e))
        | inr apart ↦ rw apart (λ o other. absurd (ground arith))
      ],
      spends e own n xs,
    )

  ids_below :
      (db db' : Db W)
      → db'.approvals ≡ db.approvals
      → db.next_id ≤ db'.next_id
      → All (λ (a : Approval). a.id < db.next_id) db.approvals
      → All (λ (a : Approval). a.id < db'.next_id) db'.approvals
  ids_below db db' same grow h = subst (All (λ (a : Approval). a.id < db'.next_id)) (sym same) (
      All-imp (λ (a : Approval). a.id < db.next_id) (λ (a : Approval). a.id < db'.next_id)
        db.approvals (λ a k. omega arith) h)

  -- What an operation that runs no approval leaves alone.
  pub transfer-IsSpentOnce :
      (i : ℕ) (db db' : Db W)
      → db'.approvals ≡ db.approvals
      → runs i db' ≡ runs i db
      → db.next_id ≤ db'.next_id
      → IsSpentOnce i db
      → IsSpentOnce i db'
  transfer-IsSpentOnce i db db' same count grow h = record {
    at_most_once = rw count h.at_most_once;
    fresh = λ below. count ∙ h.fresh (omega arith);
    known_ids = ids_below db db' same grow h.known_ids;
    unspent =
        subst (All (IsUnspent i (runs i db'))) (sym same)
          (subst (λ n. All (IsUnspent i n) db.approvals) (sym count) h.unspent);
  }

  -- A run of approval `a`, whose rows are all approved: its first.
  run-IsSpentOnce :
      (i : ℕ) (a : Approval) (db db' : Db W) (row : ToolInvocation)
      → IsSpentOnce i db
      → (a.id ≡ i → runs i db ≡ 0)
      → a.id < db.next_id
      → ((n : ℕ) → a.id ≡ i → All (IsUnspent i n) db.approvals)
      → row.decision_reason ≡ approved_by a.id
      → db'.invocations ≡ db.invocations ++ row ∷ []
      → db'.approvals ≡ db.approvals
      → db.next_id ≤ db'.next_id
      → IsSpentOnce i db'
  run-IsSpentOnce i a db db' row h u below spent reason appended same grow =
      elim (ℕ_discrete a.id i) [
        | yes own ↦ record {
          at_most_once = ground (arith, counted, u own);
          fresh = λ k. absurd (omega arith);
          known_ids = ids_below db db' same grow h.known_ids;
          unspent = subst (All (IsUnspent i (runs i db'))) (sym same) (spent (runs i db') own);
        }
        | no other ↦ transfer-IsSpentOnce i db db' same (ground (arith, counted)) grow h
      ]
    where
      counted : runs i db' ≡ runs i db + (if is_run_of i row then 1 else 0)
      counted = rw appended (count_if-snoc (is_run_of i) db.invocations row)

  pub dispatch-IsSpentOnce :
      (tools : List (ToolSpec W)) (i : ℕ) (a : Approval) (db db' : Db W)
      (r : Result ValidationError DispatchResult)
      → IsSpentOnce i db
      → (a.id ≡ i → runs i db ≡ 0)
      → a.id < db.next_id
      → ((n : ℕ) → a.id ≡ i → All (IsUnspent i n) db.approvals)
      → dispatch_approved tools a db ≡ (r, db')
      → IsSpentOnce i db'
  dispatch-IsSpentOnce tools i a db db' (err e) h u below spent d =
      subst (IsSpentOnce i) (sym (dispatch_approved_raises tools a db e db' d)) h
  dispatch-IsSpentOnce tools i a db db' (ok r) h u below spent d =
      elim (dispatch_approved-Cases tools a db r db' d) [
        | inl idle ↦
            transfer-IsSpentOnce i db db' idle.same_approvals (idle.no_run i) idle.ids_grow h
        | inr ran ↦
            run-IsSpentOnce i a db db' ran.row h u below spent ran.reason ran.appended
              ran.same_approvals ran.ids_grow
      ]
