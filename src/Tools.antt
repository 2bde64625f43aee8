-- ===== src/Tools.antt =====
-- What a tool is (backend/app/services/agents/tools/catalog.py, `ToolSpec`), the JSON values that
-- it is called with, and what the event loop can report of its executor.
pub mod Values
pub mod Catalog
pub mod Arguments
pub mod Executor
use gummy_os.Common.{ℕ, String, Text, Bool, true, false, List, Option, some, none}
use gummy_os.Models.{PermissionTier}

-- A Python `int`: `negative n` is -(n + 1).
pub data PyInt : Type 0 where
  natural : ℕ → PyInt
  negative : ℕ → PyInt

-- A value of the JSON that a model or a client sends. Floats are never computed with here, so one
-- is kept as the text of its literal.
mutual
  pub data Value : Type 0 where
    null : Value
    bool : Bool → Value
    int : PyInt → Value
    float : Text → Value
    str : Text → Value
    arr : Items → Value
    obj : Fields → Value

  pub data Items : Type 0 where
    nil : Items
    cons : Value → Items → Items

  pub data Fields : Type 0 where
    end : Fields
    field : Text → Value → Fields → Fields

-- A `dict[str, Any]` of arguments, in insertion order.
abbrev pub Args : Type 0
Args = List (Text × Value)

-- How `asyncio.wait_for(executor(...), timeout)` ends, with the elapsed time: the executor's
-- value, a `TimeoutError`, or another exception with its class name and its text.
pub data Reply : Type 0 where
  returned : Value → ℕ → Reply
  timed_out : ℕ → Reply
  raised : Text → Text → ℕ → Reply

-- `parameters` is the JSON schema of the arguments, as it was given: a server of external tools may send
-- any. An executor acts on the state `W` of everything that the tools can reach.
pub record ToolSpec (W : Type 0) : Type 0 where
  pub key : String
  pub tier : PermissionTier
  pub name : String
  pub executor : Option (W → Args → Reply × W)
  pub parameters : Fields
  pub timeout_seconds : ℕ

unfoldable pub is_executable : {W : Type 0} → ToolSpec W → Bool
is_executable spec = elim spec.executor [ none ↦ false | some _ ↦ true ]

unfoldable pub requires_approval : {W : Type 0} → ToolSpec W → Bool
requires_approval spec = elim spec.tier [ PermissionTier.green ↦ false | _ ↦ true ]
