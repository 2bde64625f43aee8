-- ===== src/Tools/Catalog.antt =====
-- The tool catalog (backend/app/services/agents/tools/catalog.py): look-ups, and the one
-- installation of external tools that startup may make. The dicts are in insertion order.
pub mod Installed
use gummy_os.Common.{
  String, Text, codes, Bool, true, false, ◌==ₛ◌, List, [], ◌∷◌, ◌++◌, map, filter, find, Option,
  none, some, Result, ok, err, if◌then◌else◌,
}
use gummy_os.Models.{PermissionTier}
use gummy_os.Tools.{ToolSpec, Fields, obj, str, end, field, is_executable}

-- `TOOL_CATALOG`, `TOOL_TIERS` and `_EXTERNAL_INSTALLED`.
pub record Catalog (W : Type 0) : Type 0 where
  pub tools : List (ToolSpec W)
  pub tiers : List (String × PermissionTier)
  pub external_installed : Bool

pub data CatalogSealedError : Type 0 where
  sealed : CatalogSealedError

-- What the model is shown of a tool. The description and the literal keys are left out.
pub record FunctionSchema : Type 0 where
  pub name : String
  pub parameters : Fields

-- `self.parameters or {"type": "object", "properties": {}}`
unfoldable pub offered_parameters : Fields → Fields
offered_parameters end =
    field (codes "type") (str (codes "object")) (field (codes "properties") (obj end) end)
offered_parameters (field name v rest) = field name v rest

module _ {W : Type 0} where
  abbrev pub has_key : String → ToolSpec W → Bool
  has_key key spec = spec.key ==ₛ key

  unfoldable pub get : List (ToolSpec W) → String → Option (ToolSpec W)
  get tools key = find (has_key key) tools

  unfoldable pub exists : List (ToolSpec W) → String → Bool
  exists tools key = elim (get tools key) [ none ↦ false | some _ ↦ true ]

  unfoldable pub resolve : List (ToolSpec W) → List String → List (ToolSpec W)
  resolve tools [] = []
  resolve tools (key ∷ keys) = elim (get tools key) [
    | none ↦ resolve tools keys
    | some spec ↦ spec ∷ resolve tools keys
  ]

  unfoldable pub to_function_schema : ToolSpec W → FunctionSchema
  unfolding offered_parameters
  to_function_schema spec = record {
    name = spec.key;
    parameters = offered_parameters spec.parameters;
  }

  unfoldable pub function_schemas : List (ToolSpec W) → List String → List FunctionSchema
  function_schemas tools keys = map to_function_schema (filter is_executable (resolve tools keys))

  -- The body of the loop: `TOOL_CATALOG[spec.key] = spec` under a key that is not there yet.
  unfoldable pub add_tool : Catalog W → ToolSpec W → Catalog W
  add_tool c spec = record c {
    tools = c.tools ++ spec ∷ [];
    tiers = c.tiers ++ (spec.key, spec.tier) ∷ [];
  }

  -- The catalog after the loop, and `installed`.
  unfoldable pub install_all : Catalog W → List (ToolSpec W) → Catalog W × List String
  install_all c [] = (c, [])
  install_all c (spec ∷ specs) = elim (exists c.tools spec.key) [
    | true ↦ install_all c specs
    | false ↦
        let (c', installed) = install_all (add_tool c spec) specs in (c', spec.key ∷ installed)
  ]

  unfoldable pub install_external_tools :
      Catalog W → List (ToolSpec W) → Result CatalogSealedError (Catalog W × List String)
  install_external_tools c specs =
      if c.external_installed
      then err sealed
      else let (c', installed) = install_all c specs in
        ok (record c' { external_installed = true }, installed)
