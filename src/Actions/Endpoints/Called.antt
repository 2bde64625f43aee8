-- ===== src/Actions/Endpoints/Called.antt =====
-- A tool call, over the count of an approval's runs.
use mathlib.Core.Path.{subst, sym}
use gummy_os.Common.{
  ℕ, ◌<◌, String, List, [], ◌∷◌, ◌++◌, All, All-append, All-imp, ◌≡◌, refl, ap, ◌∙◌, some,
  Option-cases, inl, inr, ok, arith, ok-injective, >>=-eq-ok, ◌>>=◌, count_if-snoc,
}
use gummy_os.Tools.{Args, ToolSpec}
use gummy_os.Agents.{AgentManifest}
use gummy_os.Actions.{Approval, Db, record_invocation, create_pending, runs, is_run_of}
use gummy_os.Agents.Policy.{PolicyVerdict, PolicyDecision, allow, prompt, block, evaluate}
use gummy_os.Tools.Catalog.{get}
use gummy_os.Agents.Registry as Registry
use gummy_os.Actions.Branches.{Caller, Branch, prompt_branch, allow_branch}
use gummy_os.Actions.Interface.{
  ToolResult, unknown_row, invoke_unknown, branch, branch_row, conclude, invoke_known, invoke,
}
use gummy_os.Actions.Endpoints.Spending.{IsUnspent, IsSpentOnce, transfer-IsSpentOnce}

module _ {W : Type 0} where
  -- A tool call: new approvals have fresh ids, and no row of it records a run of an approval.
  adding-IsSpentOnce :
      (i : ℕ) (a : Approval) (db db' : Db W)
      → a.id ≡ db.next_id
      → db'.approvals ≡ db.approvals ++ a ∷ []
      → runs i db' ≡ runs i db
      → db.next_id < db'.next_id
      → IsSpentOnce i db
      → IsSpentOnce i db'
  adding-IsSpentOnce i a db db' own added count grow h = record {
    at_most_once = rw count h.at_most_once;
    fresh = λ below. count ∙ h.fresh (omega arith);
    known_ids = subst (All (λ (b : Approval). b.id < db'.next_id)) (sym added) (
        All-append (λ (b : Approval). b.id < db'.next_id) db.approvals (a ∷ [])
          (All-imp (λ (b : Approval). b.id < db.next_id) (λ (b : Approval). b.id < db'.next_id)
            db.approvals (λ b k. omega arith) h.known_ids)
          (omega arith, tt));
    unspent = subst (All (IsUnspent i (runs i db'))) (sym added) (
        subst (λ n. All (IsUnspent i n) (db.approvals ++ a ∷ [])) (sym count)
          (All-append (IsUnspent i (runs i db)) db.approvals (a ∷ []) h.unspent
            ((λ same other. h.fresh (omega arith)), tt)));
  }

  module _ (i : ℕ) (caller : Caller) (key : String) (args : Args) (db : Db W)
      (h : IsSpentOnce i db) where
    invoke_unknown-IsSpentOnce : IsSpentOnce i (invoke_unknown caller key args db).1
    invoke_unknown-IsSpentOnce =
        transfer-IsSpentOnce i db _ (unfold invoke_unknown record_invocation in refl)
          (unfold invoke_unknown record_invocation in
            (count_if-snoc (is_run_of i) db.invocations (unknown_row caller key args db)
              ∙ unfold unknown_row in omega arith))
          (unfold invoke_unknown record_invocation in omega arith) h

    module _ (spec : ToolSpec W) (v : PolicyVerdict) where
      conclude-IsSpentOnce :
          (b : Branch) (mid : Db W)
          → IsSpentOnce i mid
          → IsSpentOnce i (conclude caller spec v key args (b, mid)).1
      conclude-IsSpentOnce b mid k =
          transfer-IsSpentOnce i mid _ (unfold conclude record_invocation in refl)
            (unfold conclude record_invocation in
              (count_if-snoc (is_run_of i) mid.invocations (branch_row caller spec v key args b mid)
                ∙ unfold branch_row in omega arith))
            (unfold conclude record_invocation in omega arith) k

      branch-IsSpentOnce :
          (d : PolicyDecision)
          → v.decision ≡ d
          → (b : Branch) (mid : Db W) → branch caller spec v key args db ≡ ok (b, mid)
          → IsSpentOnce i mid
      branch-IsSpentOnce block d b mid e =
          transfer-IsSpentOnce i db mid (unfold branch in ground arith)
            (unfold branch in ground arith) (unfold branch in ground arith) h
      branch-IsSpentOnce prompt d b mid e =
          adding-IsSpentOnce i prompted_approval db mid (unfold create_pending in refl)
            (unfold branch prompt_branch create_pending in ground arith)
            (unfold branch prompt_branch create_pending in ground arith)
            (unfold branch prompt_branch create_pending in ground arith) h
        where
          prompted_approval : Approval
          prompted_approval =
              (create_pending caller.user_id caller.agent_key key spec.tier
                (record { tool_key = some key; args = some args }) (some caller.run_id) caller.now
                db).0
      branch-IsSpentOnce allow d b mid e =
          transfer-IsSpentOnce i db mid (unfold branch allow_branch in ground arith)
            (unfold branch allow_branch in ground arith)
            (unfold branch allow_branch in ground arith) h

  module _ (tools : List (ToolSpec W)) (registry : List AgentManifest) (i : ℕ) where
    pub invoke-IsSpentOnce :
        (caller : Caller) (key : String) (args : Args) (db : Db W) (r : ToolResult) (db' : Db W)
        → IsSpentOnce i db
        → invoke tools registry caller key args db ≡ ok (r, db')
        → IsSpentOnce i db'
    invoke-IsSpentOnce caller key args db r db' h e =
        elim (Option-cases (Registry.get registry caller.agent_key)) [
          | inl no_agent ↦ absurd (unfold invoke in ground arith)
          | inr (m, agent) ↦ elim (Option-cases (get tools key)) [
            | inl unknown ↦
                let same : (invoke_unknown caller key args db).1 ≡ db' =
                  unfold invoke in ground arith in
                subst (IsSpentOnce i) same (invoke_unknown-IsSpentOnce i caller key args db h)
            | inr (spec, known) ↦ known_case m spec (unfold invoke invoke_known in ground arith)
          ]
        ]
      where
        known_case :
            (m : AgentManifest) (spec : ToolSpec W)
            → (branch caller spec (evaluate m key spec.tier caller.standing_allowances) key args db
                >>= λ b. ok (
                    conclude caller spec
                      (evaluate m key spec.tier caller.standing_allowances)
                      key
                      args
                      b))
              ≡ ok (r, db')
            → IsSpentOnce i db'
        known_case m spec c =
            let v = evaluate m key spec.tier caller.standing_allowances in
            let ((b, mid), branched, concluded) =
              >>=-eq-ok (branch caller spec v key args db) _ c in
            subst (IsSpentOnce i) (ap (λ (p : ToolResult × Db W). p.1) (ok-injective concluded)) (
              conclude-IsSpentOnce i caller key args db h spec v b mid
                (branch-IsSpentOnce i caller key args db h spec v v.decision refl b mid branched))
