-- ===== src/Tools/Executor/Endings.antt =====
-- When a tool runs, and how its run can end.
use mathlib.Core.Bool.{not}
use gummy_os.Common.{
  ◌&&◌, ◌≡◌, ◌≢◌, codes, take, ◌++◌, [], any, arith, ◌⊎◌, none, some, is_ok, ok, ◌||◌,
}
use gummy_os.Tools.{
  Args, ToolSpec, Reply, is_executable, arr, nil, end, obj, Fields, returned, timed_out, raised,
}
use gummy_os.Tools.Values.{field_or}
use gummy_os.Tools.Arguments.{validate_args, ValidationResult}
use gummy_os.Tools.Arguments.Unreadable.{argument_raises, required_raises, is_ok-validate_args}
use gummy_os.Tools.Executor.{
  success, timeout, failed, unavailable, too_slow, exception, ToolExecution, run,
}

module _ {W : Type 0} (spec : ToolSpec W) where
  -- `run` raises exactly where the tool has an executor and the validation raises. That is so where the
  -- schema's `required` is no list, text or object, or is a list that holds a list or an object; where there
  -- is an argument and `properties` is no object; where an argument's property is neither absent, nor null,
  -- nor an object; and where it is an integer's, and the argument is a text that passes `isdigit` but that
  -- `int` does not read. In all other cases `run` returns.
  pub is_ok-run :
      (w : W) (args : Args)
      → is_ok (run spec w args) ≡ (
          not (is_executable spec)
          || (not (required_raises (field_or (arr nil) (codes "required") spec.parameters))
              && not (
                  any
                    (argument_raises (field_or (obj end) (codes "properties") spec.parameters))
                    args)))
  unfolding run is_executable
  is_ok-run w args = ground (arith, is_ok-validate_args spec args)

  -- The run refused: nothing was called.
  pub record IsRefusal (w w' : W) (x : ToolExecution) : Type 0 where
    pub untouched : w' ≡ w
    pub no_output : x.output ≡ none
    pub refused : (x.outcome ≡ unavailable) ⊎ (x.outcome ≡ failed)

  -- What the execution tells of the call's ending: the value, which is wrapped where it is no object; the
  -- timeout; or the class and the text of the exception, of which 500 characters are kept.
  abbrev pub Tells : Reply → ToolExecution → Type 0
  Tells (returned v ms) x =
      (x.outcome ≡ success)
      × ((x.output ≡ some v)
          ⊎ (((fields : Fields) → v ≢ obj fields)
              × (x.output ≡ some (obj (Fields.field (codes "result") v Fields.end)))))
      × (x.error ≡ none)
      × (x.duration_ms ≡ ms)
  Tells (timed_out ms) x =
      (x.outcome ≡ timeout)
      × (x.output ≡ none)
      × (x.error ≡ some (too_slow spec.name spec.timeout_seconds))
      × (x.duration_ms ≡ ms)
  Tells (raised class message ms) x =
      (x.outcome ≡ failed)
      × (x.output ≡ none)
      × (x.error ≡ some (exception (take 500 (class ++ codes ": " ++ message))))
      × (x.duration_ms ≡ ms)

  -- The run called the executor once, with validated arguments, and reports its ending.
  pub record IsCall (w w' : W) (args : Args) (x : ToolExecution) : Type 0 where
    pub executor : W → Args → Reply × W
    pub validation : ValidationResult
    pub wired : spec.executor ≡ some executor
    pub validated : validate_args spec args ≡ ok validation
    pub is_valid : validation.errors ≡ []
    pub next : w' ≡ (executor w validation.coerced).1
    pub ending : Tells (executor w validation.coerced).0 x
