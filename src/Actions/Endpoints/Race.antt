-- ===== src/Actions/Endpoints/Race.antt =====
-- Two approvals of one action at the same time. A request reads the row, checks it, and only then
-- writes; nothing locks the row between (`get_approval` is a plain SELECT and `set_decision` an
-- UPDATE by primary key), so two requests can both read before either writes.
use mathlib.Core.Bool.{not}
use gummy_os.Common.{
  ℕ, suc, ◌+◌, String, List, [], ◌∷◌, ◌++◌, any, codes, ◌≡◌, refl, true, false, some, inl, inr,
  Result, Result-cases, ok, err, arith, count_if-snoc, leb, if◌then◌else◌,
}
use gummy_os.Models.{ApprovalStatus}
use gummy_os.Tools.{Args, ToolSpec, is_executable, arr, nil, obj, end}
use gummy_os.Tools.Arguments.Unreadable.{argument_raises, required_raises}
use gummy_os.Tools.Values.{field_or}
use gummy_os.Tools.Catalog.{get}
use gummy_os.Tools.Executor.{run}
use gummy_os.Tools.Executor.Endings.{is_ok-run}
use gummy_os.Actions.{Approval, Db, record_invocation, runs, is_run_of, set_decision}
use gummy_os.Actions.Approvals.{
  ApprovalError, approval_already_decided, approval_expired, is_pending, get_approval, decide_found,
  decide, approve,
}
use gummy_os.Actions.Dispatch.{
  preview_call, is_approved, ended_row, dispatch_ended, dispatch_spec, dispatch_run, dispatch_call,
  dispatch_approved,
}
use gummy_os.Actions.Endpoints.{run_decided, approve_action}

module _ {W : Type 0} where
  -- `_decide` up to its last guard: the read and the checks.
  unfoldable pub approve_read : (user_id approval_id now : ℕ) → Db W → Result ApprovalError Approval
  approve_read user_id approval_id now db = elim (get_approval user_id approval_id db) [
    | err e ↦ err e
    | ok a ↦
        if not (is_pending a.status)
        then err (approval_already_decided a.status)
        else if leb a.expires_at now
        then err approval_expired
        else ok a
  ]

  -- The rest of the endpoint: the decision, its commit, and the dispatch.
  unfoldable pub approve_write : List (ToolSpec W) → Approval → (now : ℕ) → Db W → Db W
  approve_write tools a now db =
      let (decided, db1) = set_decision a ApprovalStatus.approved now db in
      (dispatch_approved tools decided db1).1

  -- The two parts, one after the other, are the endpoint.
  approve_action-split :
      (tools : List (ToolSpec W)) (user_id approval_id now : ℕ) (db : Db W) (a : Approval)
      → approve_read user_id approval_id now db ≡ ok a
      → (approve_action tools user_id approval_id now db).1 ≡ approve_write tools a now db
  unfolding approve_action approve decide decide_found approve_read approve_write run_decided
  approve_action-split tools user_id approval_id now db a h = ground arith

  module _ (tools : List (ToolSpec W)) (a : Approval) (run_id : ℕ) (key : String) (args : Args)
      (spec : ToolSpec W) (has_run : a.run_id ≡ some run_id)
      (previewed : preview_call a.preview ≡ some (key, args)) (known : get tools key ≡ some spec)
      (wired : is_executable spec ≡ true)
      (requires : required_raises (field_or (arr nil) (codes "required") spec.parameters) ≡ false)
      (readable : any
          (argument_raises (field_or (obj end) (codes "properties") spec.parameters))
          args
        ≡ false) where
    to_spec :
        (b : Approval) (db : Db W)
        → b.status ≡ ApprovalStatus.approved
        → b.run_id ≡ some run_id
        → preview_call b.preview ≡ some (key, args)
        → dispatch_approved tools b db ≡ dispatch_spec b run_id spec key args db
    unfolding dispatch_approved dispatch_call dispatch_run is_approved
    to_spec b db status origin stored = ground arith

    spec_runs :
        (b : Approval) (db : Db W)
        → runs b.id (dispatch_spec b run_id spec key args db).1 ≡ suc (runs b.id db)
    spec_runs b db = elim (Result-cases (run spec db.world args)) [
      | inl ((x, w), ran) ↦
          let mid : Db W = record db { world = w } in
          let row = ended_row b run_id spec key args x mid in
          let own : is_run_of b.id row ≡ true = unfold ended_row in ground arith in
          let written : (dispatch_spec b run_id spec key args db).1.invocations
              ≡ db.invocations ++ row ∷ [] =
            unfold dispatch_spec dispatch_ended record_invocation in ground arith in
          rw written (ground (arith, own, count_if-snoc (is_run_of b.id) db.invocations row))
      | inr (e, raised) ↦ absurd (ground (arith, is_ok-run spec db.world args))
    ]

    write_runs :
        (now : ℕ) (db : Db W) → runs a.id (approve_write tools a now db) ≡ suc (runs a.id db)
    unfolding approve_write set_decision dispatch_approved is_approved preview_call
    write_runs now db =
        let b = (set_decision a ApprovalStatus.approved now db).0 in
        let db1 = (set_decision a ApprovalStatus.approved now db).1 in
        rw (to_spec b db1 refl has_run previewed) (spec_runs b db1)

    -- Two requests that both read and check a pending, unexpired approval before either of them
    -- writes both run it: where the stored call names a tool that can run, with arguments at
    -- which the validation does not raise, and the approval has its run, the audit trail gains two runs of the one approval.
    pub approve_race :
        (user_id approval_id now later : ℕ) (db : Db W)
        → approve_read user_id approval_id now db ≡ ok a
        → approve_read user_id approval_id later db ≡ ok a
        → runs a.id (approve_write tools a later (approve_write tools a now db)) ≡ runs a.id db + 2
    approve_race user_id approval_id now later db first second =
        omega (arith, write_runs later (approve_write tools a now db), write_runs now db)
