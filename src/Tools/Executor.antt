-- ===== src/Tools/Executor.antt =====
-- `run` of backend/app/services/agents/tools/executor.py: one tool call, with every ending as data.
pub mod Endings
use gummy_os.Common.{
  ℕ, String, Text, codes, text_eq, lower, is_digit, int_of, Bool, true, false, List, [], ◌∷◌, ◌++◌,
  map, any, length, take, Option, none, some, Result, ok, err, ◌>>=◌, ◌==ₛ◌, ltb, if◌then◌else◌,
  not, ◌||◌,
}
use gummy_os.Tools.{
  Value, null, bool, int, float, str, arr, obj, PyInt, natural, Args, Reply, returned, timed_out,
  raised, ToolSpec, is_executable, Fields,
}
use gummy_os.Tools.Arguments.{ArgError, ValidationError, ValidationResult, validate_args}

pub data ToolOutcome : Type 0 where
  success failed timeout denied approval_required unavailable : ToolOutcome

-- The text of `ToolExecution.error`.
pub data ErrorText : Type 0 where
  not_available : (tool_name : String) → ErrorText
  bad_arguments : List ArgError → ErrorText
  too_slow : (tool_name : String) → (timeout_seconds : ℕ) → ErrorText
  exception : Text → ErrorText

pub record ToolExecution : Type 0 where
  pub tool_key : String
  pub outcome : ToolOutcome
  pub output : Option Value
  pub error : Option ErrorText
  pub duration_ms : ℕ
  pub approval_id : Option ℕ
  pub invocation_id : Option ℕ

unfoldable pub ok_outcome : ToolOutcome → Bool
ok_outcome success = true
ok_outcome _ = false

-- `output if isinstance(output, dict) else {"result": output}`.
unfoldable pub as_dict : Value → Value
as_dict (obj fields) = obj fields
as_dict v = obj (Fields.field (codes "result") v Fields.end)

-- `f"{type(exc).__name__}: {exc}"[:500]`.
unfoldable pub exception_text : Text → Text → Text
exception_text class message = take 500 (class ++ codes ": " ++ message)

module _ {W : Type 0} where
  unfoldable pub conclude : ToolSpec W → Reply → ToolExecution
  conclude spec (returned v ms) = record {
    tool_key = spec.key;
    outcome = success;
    output = some (as_dict v);
    error = none;
    duration_ms = ms;
    approval_id = none;
    invocation_id = none;
  }
  conclude spec (timed_out ms) = record {
    tool_key = spec.key;
    outcome = timeout;
    output = none;
    error = some (too_slow spec.name spec.timeout_seconds);
    duration_ms = ms;
    approval_id = none;
    invocation_id = none;
  }
  conclude spec (raised class message ms) = record {
    tool_key = spec.key;
    outcome = failed;
    output = none;
    error = some (exception (exception_text class message));
    duration_ms = ms;
    approval_id = none;
    invocation_id = none;
  }

  unfoldable pub refuse : ToolSpec W → ToolOutcome → ErrorText → ToolExecution
  refuse spec outcome error = record {
    tool_key = spec.key;
    outcome = outcome;
    output = none;
    error = some error;
    duration_ms = 0;
    approval_id = none;
    invocation_id = none;
  }

  -- After validation: `if not validation.valid`, else the call.
  unfoldable pub call :
      ToolSpec W → (W → Args → Reply × W) → W → ValidationResult → ToolExecution × W
  call spec executor w validation = elim validation.errors [
    | [] ↦ let (reply, w') = executor w validation.coerced in (conclude spec reply, w')
    | e ∷ es ↦ (refuse spec failed (bad_arguments (e ∷ es)), w)
  ]

  -- An exception of the validation is not caught: the validation stands outside the `try`.
  unfoldable pub run : ToolSpec W → W → Args → Result ValidationError (ToolExecution × W)
  run spec w args = elim spec.executor [
    | none ↦ ok (refuse spec unavailable (not_available spec.name), w)
    | some executor ↦ do validation ← validate_args spec args; ok (call spec executor w validation)
  ]
