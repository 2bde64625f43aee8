-- ===== src/Actions/Dispatch/Cases.antt =====
-- What dispatching an approval can do.
use gummy_os.Common.{
  ℕ, ◌≤◌, String, List, [], ◌∷◌, ◌++◌, ◌≡◌, refl, ap, ◌∙◌, true, false, Bool-cases, none, some,
  Option-cases, inl, inr, ◌⊎◌, Result-cases, ok, err, arith, count_if-snoc,
}
use gummy_os.Models.{PermissionTier, ApprovalStatus, ToolDecision, ToolRunStatus}
use gummy_os.Tools.{Args, ToolSpec, is_executable}
use gummy_os.Tools.Arguments.{ValidationError}
use gummy_os.Tools.Catalog.{get}
use gummy_os.Tools.Executor.{ToolExecution, run}
use gummy_os.Actions.{
  Approval, ToolInvocation, AuditText, unknown_tool, not_available, approved_by, Db,
  record_invocation, runs, is_run_of,
}
use gummy_os.Actions.Dispatch.{
  DispatchResult, preview_call, is_approved, not_executed, audit_row, dispatch_withdrawn, ended_row,
  dispatch_ended, dispatch_spec, dispatch_run, dispatch_call, dispatch_approved,
}

module _ {W : Type 0} (tools : List (ToolSpec W)) (a : Approval) where
  -- Nothing ran: at most one row was added, and it is not a run of an approval.
  pub record IsIdle (db db' : Db W) (r : DispatchResult) : Type 0 where
    pub executed : r.executed ≡ false
    pub same_world : db'.world ≡ db.world
    pub same_approvals : db'.approvals ≡ db.approvals
    pub no_run : (i : ℕ) → runs i db' ≡ runs i db
    pub ids_grow : db.next_id ≤ db'.next_id

  -- The stored call ran, through `run`, and its row names the approval.
  pub record IsRun (db db' : Db W) (r : DispatchResult) : Type 0 where
    pub executed : r.executed ≡ true
    pub approved : a.status ≡ ApprovalStatus.approved
    pub tool_key : String
    pub args : Args
    pub previewed : preview_call a.preview ≡ some (tool_key, args)
    pub spec : ToolSpec W
    pub known : get tools tool_key ≡ some spec
    pub execution : ToolExecution
    pub ran : run spec db.world args ≡ ok (execution, db'.world)
    pub outcome : r.outcome ≡ some execution.outcome
    pub row : ToolInvocation
    pub appended : db'.invocations ≡ db.invocations ++ row ∷ []
    pub reason : row.decision_reason ≡ approved_by a.id
    pub row_key : row.tool_key ≡ tool_key
    pub row_tier : row.tier ≡ spec.tier
    pub row_args : row.args ≡ args
    pub ids_grow : db.next_id ≤ db'.next_id
    pub same_approvals : db'.approvals ≡ db.approvals

  abbrev pub Cases : Db W → DispatchResult → Db W → Type 0
  Cases db r db' = IsIdle db db' r ⊎ IsRun db db' r

  withdrawn-IsIdle :
      (run_id : ℕ) (key : String) (args : Args) (tier : PermissionTier) (reason : AuditText)
      (db : Db W) (r : DispatchResult) (db' : Db W)
      → ((i : ℕ)
          → is_run_of i (
              audit_row a run_id key args tier ToolDecision.pending ToolRunStatus.not_executed
                reason none db)
            ≡ false)
      → dispatch_withdrawn a run_id key args tier reason db ≡ (r, db')
      → IsIdle db db' r
  unfolding dispatch_withdrawn record_invocation not_executed
  withdrawn-IsIdle run_id key args tier reason db r db' other h = record {
    executed = ground arith;
    same_world = ground arith;
    same_approvals = ground arith;
    no_run = λ i.
        let row =
          audit_row a run_id key args tier ToolDecision.pending ToolRunStatus.not_executed reason
            none db in
        ground (arith, other i, count_if-snoc (is_run_of i) db.invocations row);
    ids_grow = ground arith;
  }

  module _ (run_id : ℕ) (key : String) (args : Args) (spec : ToolSpec W) (db : Db W)
      (r : DispatchResult) (db' : Db W) (status : a.status ≡ ApprovalStatus.approved)
      (previewed : preview_call a.preview ≡ some (key, args))
      (known : get tools key ≡ some spec) where
    dispatch_spec-Cases : dispatch_spec a run_id spec key args db ≡ (ok r, db') → Cases db r db'
    dispatch_spec-Cases h = elim (Bool-cases (is_executable spec)) [
      | inl wired ↦ elim (Result-cases (run spec db.world args)) [
        | inl ((x, w), ran) ↦
            let e : dispatch_ended a run_id spec key args x (record db { world = w }) ≡ (r, db') =
              unfold dispatch_spec in ground arith in
            let same : w ≡ db'.world = unfold dispatch_ended record_invocation in ground arith in
            inr (
              unfold dispatch_ended record_invocation in
              record {
                executed = ground arith;
                approved = status;
                tool_key = key;
                args = args;
                previewed = previewed;
                spec = spec;
                known = known;
                execution = x;
                ran = ran ∙ ap (λ (u : W). ok (x, u)) same;
                outcome = ground arith;
                row = ended_row a run_id spec key args x (record db { world = w });
                appended = ground arith;
                reason = unfold ended_row in refl;
                row_key = unfold ended_row in refl;
                row_tier = unfold ended_row in refl;
                row_args = unfold ended_row in refl;
                ids_grow = ground arith;
                same_approvals = ground arith;
              })
        | inr (e, raised) ↦ absurd (unfold dispatch_spec in ground arith)
      ]
      | inr modelled ↦ inl (
          withdrawn-IsIdle run_id key args spec.tier (not_available spec.name) db r db'
            (λ i. unfold audit_row in refl) (unfold dispatch_spec in ground arith))
    ]

  module _ (db : Db W) (r : DispatchResult) (db' : Db W) where
    dispatch_run-Cases :
        (run_id : ℕ) (key : String) (args : Args)
        → a.status ≡ ApprovalStatus.approved
        → preview_call a.preview ≡ some (key, args)
        → dispatch_run tools a run_id key args db ≡ (ok r, db')
        → Cases db r db'
    dispatch_run-Cases run_id key args status previewed h = elim (Option-cases (get tools key)) [
      | inl unknown ↦ inl (
          withdrawn-IsIdle run_id key args PermissionTier.red (unknown_tool key) db r db'
            (λ i. unfold audit_row in refl) (unfold dispatch_run in ground arith))
      | inr (spec, known) ↦
          dispatch_spec-Cases run_id key args spec db r db' status previewed known
            (unfold dispatch_run in ground arith)
    ]

    dispatch_call-Cases :
        (key : String) (args : Args)
        → a.status ≡ ApprovalStatus.approved
        → preview_call a.preview ≡ some (key, args)
        → dispatch_call tools a (key, args) db ≡ (ok r, db')
        → Cases db r db'
    dispatch_call-Cases key args status previewed h = elim (Option-cases a.run_id) [
      | inl gone ↦ inl (
          unfold dispatch_call not_executed in
          record {
            executed = ground arith;
            same_world = ground arith;
            same_approvals = ground arith;
            no_run = λ i. ground arith;
            ids_grow = ground arith;
          })
      | inr (run_id, e) ↦
          dispatch_run-Cases run_id key args status previewed (unfold dispatch_call in ground arith)
    ]

    is_approved→≡ : is_approved a.status ≡ true → a.status ≡ ApprovalStatus.approved
    is_approved→≡ h = unfold is_approved in ground arith

  -- A dispatch that returns either ran nothing and changed neither the state that the tools reach nor
  -- the approvals, or ran, once, exactly the tool and the arguments of the approval's stored
  -- preview, under an approval whose status is approved, through `run` and with the tool's own entry
  -- in the catalog; then it reports the outcome and appends one audit row, which names the approval,
  -- the tool and its tier, and holds the arguments as they are, secrets included.
  pub dispatch_approved-Cases :
      (db : Db W) (r : DispatchResult) (db' : Db W)
      → dispatch_approved tools a db ≡ (ok r, db')
      → Cases db r db'
  dispatch_approved-Cases db r db' h = elim (Bool-cases (is_approved a.status)) [
    | inl status ↦ elim (Option-cases (preview_call a.preview)) [
      | inl no_call ↦ inl (
          unfold dispatch_approved not_executed in
          record {
            executed = ground arith;
            same_world = ground arith;
            same_approvals = ground arith;
            no_run = λ i. ground arith;
            ids_grow = ground arith;
          })
      | inr ((key, args), previewed) ↦
          dispatch_call-Cases db r db' key args (is_approved→≡ db r db' status) previewed
            (unfold dispatch_approved in ground arith)
    ]
    | inr other ↦ inl (
        unfold dispatch_approved not_executed in
        record {
          executed = ground arith;
          same_world = ground arith;
          same_approvals = ground arith;
          no_run = λ i. ground arith;
          ids_grow = ground arith;
        })
  ]

  -- A dispatch that raises has changed nothing.
  pub dispatch_approved_raises :
      (db : Db W) (e : ValidationError) (db' : Db W)
      → dispatch_approved tools a db ≡ (err e, db')
      → db' ≡ db
  unfolding dispatch_approved dispatch_call dispatch_run dispatch_spec
  dispatch_approved_raises db e db' h = ground arith
