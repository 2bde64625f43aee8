-- ===== src/Actions/Interface/Gate.antt =====
-- What one call through the interface can do, on every path.
use gummy_os.Common.{
  String, List, [], ◌∷◌, ◌++◌, ◌≡◌, Option-cases, inl, inr, ok, ◌>>=◌, >>=-eq-ok, ok-injective,
  arith,
}
use gummy_os.Tools.{Args, ToolSpec}
use gummy_os.Tools.Catalog.{get}
use gummy_os.Agents.{AgentManifest}
use gummy_os.Agents.Policy.{PolicyVerdict, evaluate}
use gummy_os.Agents.Registry as Registry
use gummy_os.Actions.{ToolInvocation, Db, record_invocation, create_pending}
use gummy_os.Actions.Branches.{Caller, Branch, prompt_branch, allow_branch}
use gummy_os.Actions.Interface.{
  ToolResult, unknown_row, invoke_unknown, branch, branch_row, conclude, invoke_known, invoke,
}

module _ {W : Type 0} where
  -- The call wrote one audit row at the end of the trail and no other, and the row and the result
  -- tell the same.
  pub record IsAudited (db db' : Db W) (r : ToolResult) : Type 0 where
    pub row : ToolInvocation
    pub appended : db'.invocations ≡ db.invocations ++ row ∷ []
    pub same_id : row.id ≡ r.invocation_id
    pub same_key : row.tool_key ≡ r.tool_key
    pub same_tier : row.tier ≡ r.tier
    pub same_decision : row.decision ≡ r.decision
    pub same_status : row.status ≡ r.status
    pub same_reason : row.decision_reason ≡ r.reason

  -- A branch writes no audit row.
  pub branch-invocations :
      (caller : Caller) (spec : ToolSpec W) (v : PolicyVerdict) (key : String) (args : Args)
      (db : Db W) (b : Branch) (db' : Db W)
      → branch caller spec v key args db ≡ ok (b, db')
      → db'.invocations ≡ db.invocations
  unfolding branch prompt_branch create_pending allow_branch
  branch-invocations caller spec v key args db b db' h = ground arith

  conclude-IsAudited :
      (caller : Caller) (spec : ToolSpec W) (v : PolicyVerdict) (key : String) (args : Args)
      (db : Db W) (b : Branch) (mid : Db W)
      → mid.invocations ≡ db.invocations
      → (r : ToolResult) (db' : Db W) → conclude caller spec v key args (b, mid) ≡ (r, db')
      → IsAudited db db' r
  unfolding conclude record_invocation
  conclude-IsAudited caller spec v key args db b mid same r db' h = record {
    row = branch_row caller spec v key args b mid;
    appended = ground arith;
    same_id = ground arith;
    same_key = ground arith;
    same_tier = ground arith;
    same_decision = ground arith;
    same_status = ground arith;
    same_reason = ground arith;
  }

  -- Every call that returns writes exactly one audit row, at the end of the trail, and the row tells
  -- what the result tells: the invocation's id, tool, tier, decision, status and reason. That holds
  -- for an unknown tool, a refusal, a pending approval, a tool with no executor and an execution.
  pub invoke-IsAudited :
      (tools : List (ToolSpec W)) (registry : List AgentManifest) (caller : Caller) (key : String)
      (args : Args) (db : Db W) (r : ToolResult) (db' : Db W)
      → invoke tools registry caller key args db ≡ ok (r, db')
      → IsAudited db db' r
  invoke-IsAudited tools registry caller key args db r db' h =
      elim (Option-cases (Registry.get registry caller.agent_key)) [
        | inl no_agent ↦ absurd (unfold invoke in ground arith)
        | inr (m, agent) ↦ elim (Option-cases (get tools key)) [
          | inl unknown ↦
              let e : invoke_unknown caller key args db ≡ (r, db') =
                unfold invoke in ground arith in
              unfold invoke_unknown record_invocation in
              record {
                row = unknown_row caller key args db;
                appended = ground arith;
                same_id = ground arith;
                same_key = ground arith;
                same_tier = ground arith;
                same_decision = ground arith;
                same_status = ground arith;
                same_reason = ground arith;
              }
          | inr (spec, known) ↦
              let e : invoke_known m caller spec key args db ≡ ok (r, db') =
                unfold invoke in ground arith in
              known_case m spec (unfold invoke_known in e)
        ]
      ]
    where
      known_case :
          (m : AgentManifest) (spec : ToolSpec W)
          → (branch caller spec (evaluate m key spec.tier caller.standing_allowances) key args db
              >>= λ b. ok (
                  conclude caller spec
                    (evaluate m key spec.tier caller.standing_allowances)
                    key
                    args
                    b))
            ≡ ok (r, db')
          → IsAudited db db' r
      known_case m spec e =
          let ((b, mid), branched, concluded) =
            >>=-eq-ok
              (branch caller spec (evaluate m key spec.tier caller.standing_allowances) key args db)
              _ e in
          conclude-IsAudited caller spec _ key args db b mid
            (branch-invocations caller spec _ key args db b mid branched) r db'
            (ok-injective concluded)
