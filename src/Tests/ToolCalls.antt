-- ===== src/Tests/ToolCalls.antt =====
-- Tool calls (backend/app/services/agents) with two small tools over a counter.
use gummy_os.Common.{
  ℕ, suc, ◌+◌, ◌*◌, ◌≤◌, String, Text, text_eq, codes, Bool, true, false, not, ◌||◌, ◌&&◌, any, map,
  List, [], ◌∷◌, ◌++◌, Option, none, some, Result, ok, err, is_ok, All, ◌≡◌, ◌≢◌, ◌↔◌, refl, arith,
  length,
}
use gummy_os.Models.{PermissionTier, ApprovalStatus, ToolDecision, ToolRunStatus}
use gummy_os.Tools.{
  Args, Value, null, str, arr, obj, nil, cons, end, field, int, natural, Fields, Reply, returned,
  ToolSpec, is_executable,
}
use gummy_os.Tools.Values.{field_or}
use gummy_os.Tools.Arguments.{
  ValidationResult, validate_args, check_args, check_arg, lookup_arg, missing_errors, redact_args,
  is_missing,
}
use gummy_os.Tools.Arguments.Redaction.{IsSafe, redact_args-IsSafe}
use gummy_os.Tools.Arguments.Unreadable.{argument_raises, required_raises}
use gummy_os.Tools.Executor.{ToolExecution, ToolOutcome, run}
use gummy_os.Tools.Executor.Endings.{is_ok-run}
use gummy_os.Tools.Catalog.{Catalog, get, install_external_tools, sealed}
use gummy_os.Tools.Catalog.Installed.{or_else, HasTiers, install_external_tools_lem}
use gummy_os.Agents.{AgentManifest}
use gummy_os.Agents.Policy.{allow, prompt, block, evaluate, yellow_confirmation}
use gummy_os.Agents.Policy.Verdicts.{Permits, RunsAlone, evaluate_iff}
use gummy_os.Agents.Registry as Registry
use gummy_os.Agents.Registry.Declared.{get-declared-ne-block}
use gummy_os.Actions.{Db, Approval, ToolInvocation, verdict, approval_ref}
use gummy_os.Actions.Branches.{Caller}
use gummy_os.Actions.Interface.{ToolResult, invoke, invoke_known}
use gummy_os.Actions.Interface.Gate.{IsAudited, invoke-IsAudited}
use gummy_os.Actions.Interface.Safety.{Gated, invoke_known-Gated}

-- A yellow tool that takes a required text and an integer, and counts its calls.
abbrev count_call : ℕ → Args → Reply × ℕ
count_call w args = (returned (obj Fields.end) 3, w + 1)

abbrev pub note_tool : ToolSpec ℕ
note_tool = record {
  key = "note";
  tier = PermissionTier.yellow;
  name = "Note";
  executor = some count_call;
  parameters =
      field (codes "properties")
        (obj (
          field (codes "text") (obj (field (codes "type") (str (codes "string")) end))
            (field (codes "times") (obj (field (codes "type") (str (codes "integer")) end)) end)))
        (field (codes "required") (arr (cons (str (codes "text")) nil)) end);
  timeout_seconds = 10;
}

abbrev clock_tool : ToolSpec ℕ
clock_tool = record note_tool {
  key = "clock";
  tier = PermissionTier.green;
  name = "Clock";
  parameters = end;
}

abbrev pub tools : List (ToolSpec ℕ)
tools = note_tool ∷ clock_tool ∷ []

abbrev pub writer : AgentManifest
writer = record {
  key = "writer";
  ceiling = PermissionTier.yellow;
  tools = "note" ∷ "clock" ∷ [];
  keywords = [];
  priority = 0;
}

abbrev pub note_args : Args
note_args = (codes "text", str (codes "milk")) ∷ (codes "times", str (codes "2")) ∷ []

-- A password under a key in capitals.
abbrev secret_args : Args
secret_args = (codes "Password", str (codes "hunter2")) ∷ []

abbrev superscript_args : Args
superscript_args = (codes "text", str (codes "milk")) ∷ (codes "times", str (178 ∷ [])) ∷ []

redact_args-IsSafe_example :
    All IsSafe (redact_args secret_args)
    × (map (λ a. a.0) (redact_args secret_args) ≡ map (λ a. a.0) secret_args)
redact_args-IsSafe_example = redact_args-IsSafe secret_args

abbrev checked : ValidationResult
checked = record {
  coerced = (codes "text", str (codes "milk")) ∷ (codes "times", int (natural 2)) ∷ [];
  errors = [];
}

note_args-checked : validate_args note_tool note_args ≡ ok checked
unfolding validate_args check_args check_arg lookup_arg missing_errors is_missing text_eq
    gummy_os.Tools.Arguments.check_type gummy_os.Tools.Arguments.type_check
    gummy_os.Tools.Arguments.is_instance gummy_os.Tools.Arguments.coerce_int
    gummy_os.Common.is_digit gummy_os.Common.int_of gummy_os.Tools.Arguments.add_checked
    gummy_os.Tools.Arguments.iterated field_or gummy_os.Tools.Arguments.missing_error
    gummy_os.Tools.Values.get_field gummy_os.Tools.Arguments.type_name gummy_os.Common.to_string
note_args-checked = refl

is_ok-run_example : is_ok (run note_tool 0 superscript_args) ≡ (
    not (is_executable note_tool)
    || (not (required_raises (field_or (arr nil) (codes "required") note_tool.parameters))
        && not (
            any
              (argument_raises (field_or (obj end) (codes "properties") note_tool.parameters))
              superscript_args)))
is_ok-run_example = is_ok-run note_tool 0 superscript_args

-- The superscript two stops the run with an exception.
superscript-raises : is_ok (run note_tool 0 superscript_args) ≡ false
unfolding run validate_args check_args check_arg lookup_arg missing_errors is_missing text_eq
    gummy_os.Tools.Arguments.check_type gummy_os.Tools.Arguments.type_check
    gummy_os.Tools.Arguments.is_instance gummy_os.Tools.Arguments.coerce_int
    gummy_os.Common.is_digit gummy_os.Common.int_of gummy_os.Tools.Arguments.iterated field_or
    gummy_os.Tools.Arguments.missing_error gummy_os.Tools.Values.get_field
    gummy_os.Tools.Arguments.type_name gummy_os.Common.to_string
superscript-raises = refl

abbrev noted : ToolExecution
noted = record {
  tool_key = "note";
  outcome = ToolOutcome.success;
  output = some (obj Fields.end);
  error = none;
  duration_ms = 3;
  approval_id = none;
  invocation_id = none;
}

abbrev sealed_catalog : Catalog ℕ
sealed_catalog = record {
  tools = note_tool ∷ [];
  tiers = ("note", PermissionTier.yellow) ∷ [];
  external_installed = false;
}

install_external_tools_lem_example :
    (c' : Catalog ℕ) × (installed : List String) × (install_external_tools sealed_catalog tools
      ≡ ok (c', installed))
    × ((key : String) → get c'.tools key ≡ or_else (get sealed_catalog.tools key) (get tools key))
    × HasTiers c'
    × ((more : List (ToolSpec ℕ)) → install_external_tools c' more ≡ err sealed)
install_external_tools_lem_example = install_external_tools_lem sealed_catalog tools refl refl

evaluate_iff_example :
    ((evaluate writer "note" PermissionTier.yellow []).decision ≡ allow
      ↔ (Permits writer "note" PermissionTier.yellow × RunsAlone "note" PermissionTier.yellow []))
    × ((evaluate writer "note" PermissionTier.yellow []).decision ≡ block
        ↔ (¬ Permits writer "note" PermissionTier.yellow))
    × ((evaluate writer "note" PermissionTier.yellow []).decision ≡ prompt ↔ (
        Permits writer "note" PermissionTier.yellow
        × (¬ RunsAlone "note" PermissionTier.yellow [])))
evaluate_iff_example = evaluate_iff writer "note" PermissionTier.yellow []

abbrev tiers : Registry.Tiers
tiers = ("note", PermissionTier.yellow) ∷ ("clock", PermissionTier.green) ∷ []

registry-ok : Registry.init (writer ∷ []) tiers ≡ ok (writer ∷ [])
unfolding Registry.init Registry.init_from Registry.validate Registry.has_agent
    Registry.validate_tools Registry.validate_tool Registry.tier_of
registry-ok = refl

get-declared-ne-block_example :
    ((evaluate writer "note" PermissionTier.yellow []).decision ≢ block) × (writer.key ≡ "writer")
unfolding Registry.get Registry.tier_of
get-declared-ne-block_example =
    get-declared-ne-block tiers (writer ∷ []) (writer ∷ []) "writer" writer "note"
      PermissionTier.yellow [] registry-ok refl refl refl

abbrev pub caller : Caller
caller = record {
  agent_key = "writer";
  run_id = 5;
  user_id = 7;
  standing_allowances = [];
  now = 1000;
}

abbrev pub no_db : Db ℕ
no_db = record { approvals = []; invocations = []; next_id = 0; world = 0 }

-- A call of the yellow tool waits for the user: its approval and its audit row.
abbrev pub note_approval : Approval
note_approval = record {
  id = 0;
  user_id = 7;
  run_id = some 5;
  agent_key = "writer";
  action_kind = "note";
  tier = PermissionTier.yellow;
  preview = record { tool_key = some "note"; args = some note_args };
  status = ApprovalStatus.pending;
  decided_at = none;
  expires_at = 86400001000;
}

abbrev note_row : ToolInvocation
note_row = record {
  id = 1;
  user_id = 7;
  run_id = 5;
  agent_key = "writer";
  tool_key = "note";
  args = note_args;
  tier = PermissionTier.yellow;
  decision = ToolDecision.pending;
  status = ToolRunStatus.not_executed;
  decision_reason = verdict yellow_confirmation;
  output = some (approval_ref 0);
  error = none;
}

abbrev pub prompted : Db ℕ
prompted = record {
  approvals = note_approval ∷ [];
  invocations = note_row ∷ [];
  next_id = 2;
  world = 0;
}

abbrev pub note_result : ToolResult
note_result = record {
  tool_key = "note";
  tier = PermissionTier.yellow;
  decision = ToolDecision.pending;
  status = ToolRunStatus.not_executed;
  output = none;
  reason = verdict yellow_confirmation;
  invocation_id = 1;
  approval_id = some 0;
  outcome = ToolOutcome.approval_required;
  error = none;
  duration_ms = 0;
}

note-prompts :
    invoke_known writer caller note_tool "note" note_args no_db ≡ ok (note_result, prompted)
unfolding invoke_known redact_args gummy_os.Actions.Interface.branch evaluate
    gummy_os.Actions.Interface.conclude gummy_os.Actions.Branches.prompt_branch
    gummy_os.Actions.record_invocation gummy_os.Actions.create_pending text_eq gummy_os.Common.lower
note-prompts = refl

invoke_known-Gated_example :
    Gated caller note_tool "note" note_args
      (evaluate writer "note" PermissionTier.yellow []).decision
      no_db
      prompted
      note_result
    × ((row : ToolInvocation) × (prompted.invocations ≡ [] ++ row ∷ []) × All IsSafe row.args)
invoke_known-Gated_example =
    invoke_known-Gated caller note_tool "note" note_args writer no_db prompted note_result
      note-prompts

note-invoked : invoke tools (writer ∷ []) caller "note" note_args no_db ≡ ok (note_result, prompted)
unfolding invoke Registry.get get invoke_known gummy_os.Actions.Interface.branch evaluate
    gummy_os.Actions.Interface.conclude gummy_os.Actions.Branches.prompt_branch
    gummy_os.Actions.record_invocation gummy_os.Actions.create_pending redact_args text_eq
    gummy_os.Common.lower
note-invoked = refl

invoke-IsAudited_example : IsAudited no_db prompted note_result
invoke-IsAudited_example =
    invoke-IsAudited tools (writer ∷ []) caller "note" note_args no_db note_result prompted
      note-invoked
