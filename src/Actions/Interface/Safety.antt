-- ===== src/Actions/Interface/Safety.antt =====
-- What one call of a known tool can change, by the gate's verdict.
use gummy_os.Common.{
  ◌+◌, ◌*◌, String, [], ◌∷◌, ◌++◌, All, ◌≡◌, refl, ap, ◌∙◌, none, some, Option-cases, inl, inr, ◌⊎◌,
  Result-cases, ok, >>=-eq-ok, ok-injective, arith,
}
use gummy_os.Models.{ApprovalStatus}
use gummy_os.Tools.{Args, ToolSpec, Reply}
use gummy_os.Tools.Arguments.Redaction.{IsSafe, redact_args-IsSafe}
use gummy_os.Tools.Executor.{ToolExecution, denied, approval_required, unavailable, run}
use gummy_os.Agents.{AgentManifest}
use gummy_os.Agents.Policy.{PolicyVerdict, PolicyDecision, allow, prompt, block, evaluate}
use gummy_os.Actions.{
  Approval, ToolInvocation, Db, record_invocation, create_pending, action_approval_ttl_seconds,
  second,
}
use gummy_os.Actions.Branches.{
  Caller, Branch, blocked_branch, prompt_branch, executed_branch, modelled_branch, allow_branch,
}
use gummy_os.Actions.Interface.Gate.{branch-invocations}
use gummy_os.Actions.Interface.{ToolResult, branch, branch_row, conclude, invoke_known}

module _ {W : Type 0} (caller : Caller) (spec : ToolSpec W) (key : String) (args : Args) where
  -- Nothing ran and no approval was made.
  pub record IsDenied (db db' : Db W) (r : ToolResult) : Type 0 where
    pub same_world : db'.world ≡ db.world
    pub same_approvals : db'.approvals ≡ db.approvals
    pub outcome : r.outcome ≡ denied

  -- Nothing ran, and a pending approval holds exactly this call for a day.
  pub record IsPrompted (db db' : Db W) (r : ToolResult) : Type 0 where
    pub same_world : db'.world ≡ db.world
    pub outcome : r.outcome ≡ approval_required
    pub approval : Approval
    pub added : db'.approvals ≡ db.approvals ++ approval ∷ []
    pub handle : r.approval_id ≡ some approval.id
    pub is_pending : approval.status ≡ ApprovalStatus.pending
    pub tier : approval.tier ≡ spec.tier
    pub tool_key : approval.preview.tool_key ≡ some key
    pub stored_args : approval.preview.args ≡ some args
    pub expiry : approval.expires_at ≡ caller.now + action_approval_ttl_seconds * second

  -- The executor ran through `run`, or there is none.
  pub record IsAllowed (db db' : Db W) (r : ToolResult) : Type 0 where
    pub same_approvals : db'.approvals ≡ db.approvals
    pub ran :
        ((spec.executor ≡ none) × (db'.world ≡ db.world) × (r.outcome ≡ unavailable))
        ⊎ ((x : ToolExecution) × (run spec db.world args ≡ ok (x, db'.world))
            × (r.outcome ≡ x.outcome))

  abbrev pub Gated : PolicyDecision → Db W → Db W → ToolResult → Type 0
  Gated block db db' r = IsDenied db db' r
  Gated prompt db db' r = IsPrompted db db' r
  Gated allow db db' r = IsAllowed db db' r

  -- Rebuilding from the parts keeps what the branch did.
  module _ (v : PolicyVerdict) (db : Db W) where
    block_branch-Gated :
        v.decision ≡ block
        → (b : Branch) (mid : Db W) → branch caller spec v key args db ≡ ok (b, mid)
        → (r : ToolResult) (db' : Db W) → conclude caller spec v key args (b, mid) ≡ (r, db')
        → IsDenied db db' r
    unfolding branch blocked_branch conclude record_invocation
    block_branch-Gated d b mid e r db' c = record {
      same_world = ground arith;
      same_approvals = ground arith;
      outcome = ground arith;
    }

    prompt_branch-Gated :
        v.decision ≡ prompt
        → (b : Branch) (mid : Db W) → branch caller spec v key args db ≡ ok (b, mid)
        → (r : ToolResult) (db' : Db W) → conclude caller spec v key args (b, mid) ≡ (r, db')
        → IsPrompted db db' r
    unfolding branch prompt_branch create_pending conclude record_invocation
    prompt_branch-Gated d b mid e r db' c = record {
      same_world = ground arith;
      outcome = ground arith;
      approval =
          (create_pending caller.user_id caller.agent_key key spec.tier
            (record { tool_key = some key; args = some args }) (some caller.run_id) caller.now
            db).0;
      added = ground arith;
      handle = ground arith;
      is_pending = refl;
      tier = refl;
      tool_key = refl;
      stored_args = refl;
      expiry = refl;
    }

    ran_through :
        (executor : W → Args → Reply × W)
        → spec.executor ≡ some executor
        → v.decision ≡ allow
        → (b : Branch) (mid : Db W) → branch caller spec v key args db ≡ ok (b, mid)
        → (r : ToolResult) (db' : Db W) → conclude caller spec v key args (b, mid) ≡ (r, db')
        → (x : ToolExecution) × (run spec db.world args ≡ ok (x, db'.world))
          × (r.outcome ≡ x.outcome)
    unfolding branch allow_branch executed_branch conclude record_invocation
    ran_through executor wired d b mid e r db' c = elim (Result-cases (run spec db.world args)) [
      | inl ((x, w), ran) ↦
          let same : w ≡ db'.world = ground arith in
          (x, ran ∙ ap (λ (u : W). ok (x, u)) same, ground arith)
      | inr (failure, raised) ↦ absurd (ground arith)
    ]

    allow_branch-Gated :
        v.decision ≡ allow
        → (b : Branch) (mid : Db W) → branch caller spec v key args db ≡ ok (b, mid)
        → (r : ToolResult) (db' : Db W) → conclude caller spec v key args (b, mid) ≡ (r, db')
        → IsAllowed db db' r
    unfolding branch conclude record_invocation
    allow_branch-Gated d b mid e r db' c = record {
      same_approvals = unfold allow_branch executed_branch modelled_branch in ground arith;
      ran = elim (Option-cases spec.executor) [
        | inl none_wired ↦ inl (
          none_wired,
          unfold allow_branch modelled_branch in ground arith,
          unfold allow_branch modelled_branch in ground arith,
        )
        | inr (executor, wired) ↦ inr (ran_through executor wired d b mid e r db' c)
      ];
    }

  conclude-appended :
      (v : PolicyVerdict) (db : Db W) (b : Branch) (mid : Db W)
      → branch caller spec v key args db ≡ ok (b, mid)
      → (r : ToolResult) (db' : Db W) → conclude caller spec v key args (b, mid) ≡ (r, db')
      → db'.invocations ≡ db.invocations ++ branch_row caller spec v key args b mid ∷ []
  unfolding conclude record_invocation
  conclude-appended v db b mid e r db' c =
      ground (arith, branch-invocations caller spec v key args db b mid e)

  branch-Gated :
      (v : PolicyVerdict) (d : PolicyDecision)
      → v.decision ≡ d
      → (db : Db W) (b : Branch) (mid : Db W) → branch caller spec v key args db ≡ ok (b, mid)
      → (r : ToolResult) (db' : Db W) → conclude caller spec v key args (b, mid) ≡ (r, db')
      → Gated d db db' r
  branch-Gated v block e db = block_branch-Gated v db e
  branch-Gated v prompt e db = prompt_branch-Gated v db e
  branch-Gated v allow e db = allow_branch-Gated v db e

  -- A known tool is called under the gate's verdict. A blocked call changes neither the state that
  -- the tools reach nor the approvals, and is denied. A prompted one runs nothing and adds one
  -- pending approval, which stores this tool, these arguments and the tool's tier, expires in a day,
  -- and is the handle that is returned. An allowed one makes no approval and runs the executor
  -- through `run`, whose outcome it reports, or is unavailable where the tool has none. In the
  -- arguments of the audit row, one under a secret's key is the mark alone and one that is a text is
  -- bounded.
  pub invoke_known-Gated :
      (manifest : AgentManifest) (db db' : Db W) (r : ToolResult)
      → invoke_known manifest caller spec key args db ≡ ok (r, db')
      → Gated (evaluate manifest key spec.tier caller.standing_allowances).decision db db' r
        × ((row : ToolInvocation) × (db'.invocations ≡ db.invocations ++ row ∷ [])
            × All IsSafe row.args)
  unfolding invoke_known
  invoke_known-Gated manifest db db' r h =
      let v = evaluate manifest key spec.tier caller.standing_allowances in
      let ((b, mid), branched, concluded) = >>=-eq-ok (branch caller spec v key args db) _ h in
      let c = ok-injective concluded in
      (
        branch-Gated v v.decision refl db b mid branched r db' c,
        (
          branch_row caller spec v key args b mid,
          conclude-appended v db b mid branched r db' c,
          unfold branch_row in (redact_args-IsSafe args).0,
        ),
      )
