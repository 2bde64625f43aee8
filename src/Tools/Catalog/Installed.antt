-- ===== src/Tools/Catalog/Installed.antt =====
-- What the catalog holds after external tools were installed.
use gummy_os.Common.{
  String, ◌≡◌, refl, true, false, ◌==ₛ◌, eq_iff, List, [], ◌∷◌, map, find-append, find-some, Option,
  none, some, arith, Bool-cases, Option-cases, inl, inr, ok, err, sym, ap, ◌∙◌, filter, All,
}
use mathlib.Core.List.{map-append}
use gummy_os.Tools.{ToolSpec, is_executable}
use gummy_os.Tools.Catalog.{
  Catalog, FunctionSchema, offered_parameters, sealed, has_key, get, exists, add_tool, install_all,
  install_external_tools, resolve, function_schemas, to_function_schema,
}

-- What stands behind if nothing is found in front.
abbrev pub or_else {ℓ} : {A : Type ℓ} → Option A → Option A → Option A
or_else none o = o
or_else (some a) o = some a

or_else_assoc {ℓ} :
    {A : Type ℓ} (a b d : Option A) → or_else (or_else a b) d ≡ or_else a (or_else b d)
or_else_assoc none b d = refl
or_else_assoc (some a) b d = refl

module _ {W : Type 0} where
  -- `TOOL_TIERS` agrees with `TOOL_CATALOG`.
  abbrev pub HasTiers : Catalog W → Type 0
  HasTiers c = c.tiers ≡ map (λ s. (s.key, s.tier)) c.tools

  get-add_tool :
      (c : Catalog W) (spec : ToolSpec W) (key : String)
      → get (add_tool c spec).tools key ≡ or_else (get c.tools key) (get (spec ∷ []) key)
  unfolding get add_tool
  get-add_tool c spec key = ground (arith, find-append (has_key key) c.tools (spec ∷ []))

  get-cons :
      (spec : ToolSpec W) (specs : List (ToolSpec W)) (key : String)
      → get (spec ∷ specs) key ≡ or_else (get (spec ∷ []) key) (get specs key)
  unfolding get
  get-cons spec specs key = ground arith

  -- A key that the catalog has already hides the new tool under it.
  get-cons_exists :
      (tools : List (ToolSpec W)) (spec : ToolSpec W) (key : String)
      → exists tools spec.key ≡ true
      → or_else (get tools key) (get (spec ∷ []) key) ≡ get tools key
  unfolding exists
  get-cons_exists tools spec key h = elim (Bool-cases (spec.key ==ₛ key)) [
    | inl same ↦
        let e : spec.key ≡ key = (eq_iff spec.key key).0 same in ground (arith, ap (get tools) e)
    | inr other ↦ unfold get in ground arith
  ]

  pub get-install_all :
      (c : Catalog W) (specs : List (ToolSpec W)) (key : String)
      → get (install_all c specs).0.tools key ≡ or_else (get c.tools key) (get specs key)
  unfolding install_all
  get-install_all c [] key = unfold get in ground arith
  get-install_all c (spec ∷ specs) key = elim (Bool-cases (exists c.tools spec.key)) [
    | inl taken ↦
        rw (taken, install_all, get-cons)
          (get-install_all c specs key
            ∙ ap (λ o. or_else o (get specs key)) (sym (get-cons_exists c.tools spec key taken))
            ∙ or_else_assoc (get c.tools key) _ _)
    | inr free ↦
        rw (free, install_all, get-cons)
          (get-install_all (add_tool c spec) specs key
            ∙ ap (λ o. or_else o (get specs key)) (get-add_tool c spec key)
            ∙ or_else_assoc (get c.tools key) _ _)
  ]

  install_all-HasTiers :
      (c : Catalog W) (specs : List (ToolSpec W)) → HasTiers c → HasTiers (install_all c specs).0
  unfolding install_all
  install_all-HasTiers c [] h = h
  install_all-HasTiers c (spec ∷ specs) h = elim (Bool-cases (exists c.tools spec.key)) [
    | inl taken ↦ rw (taken, install_all) (install_all-HasTiers c specs h)
    | inr free ↦
        rw (free, install_all)
          (install_all-HasTiers (add_tool c spec) specs (unfold add_tool in simp (map-append, h)))
  ]

  -- Installing external tools succeeds once. Every tool that the catalog had stays under its key,
  -- and a key that it had not names the first new tool with that key; the table of tiers agrees
  -- with the catalog if it did before; and a second installation is refused.
  pub install_external_tools_lem :
      (c : Catalog W) (specs : List (ToolSpec W))
      → c.external_installed ≡ false
      → HasTiers c
      → (c' : Catalog W) × (installed : List String) × (install_external_tools c specs
          ≡ ok (c', installed))
        × ((key : String) → get c'.tools key ≡ or_else (get c.tools key) (get specs key))
        × HasTiers c'
        × ((more : List (ToolSpec W)) → install_external_tools c' more ≡ err sealed)
  unfolding install_external_tools
  install_external_tools_lem c specs unsealed h =
      let (c', installed) = install_all c specs in
      (
        record c' { external_installed = true },
        installed,
        rw unsealed,
        get-install_all c specs,
        install_all-HasTiers c specs h,
        λ more. refl,
      )

  -- Every schema that the model is offered belongs to a tool of the catalog that can run, is of one
  -- of the keys that were asked for, and carries that tool's parameters.
  pub record IsOffered (tools : List (ToolSpec W)) (f : FunctionSchema) : Type 0 where
    pub spec : ToolSpec W
    pub found : get tools f.name ≡ some spec
    pub runs : is_executable spec ≡ true
    pub same_parameters : f.parameters ≡ offered_parameters spec.parameters

  resolved-IsOffered :
      (tools : List (ToolSpec W)) (key : String) (spec : ToolSpec W) (rest : List (ToolSpec W))
      → get tools key ≡ some spec
      → All (IsOffered tools) (map to_function_schema (filter is_executable rest))
      → All (IsOffered tools) (map to_function_schema (filter is_executable (spec ∷ rest)))
  resolved-IsOffered tools key spec rest found h = elim (Bool-cases (is_executable spec)) [
    | inl runs ↦ rw runs (
      unfold to_function_schema in
          record {
            spec = spec;
            found = ap (get tools) (own_key found) ∙ found;
            runs = runs;
            same_parameters = refl;
          },
      h,
    )
    | inr modelled ↦ rw modelled h
  ]
    where
      own_key : get tools key ≡ some spec → spec.key ≡ key
      own_key e = (eq_iff spec.key key).0 (find-some (has_key key) tools spec (unfold get in e))

  function_schemas-IsOffered :
      (tools : List (ToolSpec W)) (keys : List String)
      → All (IsOffered tools) (function_schemas tools keys)
  unfolding function_schemas resolve
  function_schemas-IsOffered tools [] = tt
  function_schemas-IsOffered tools (key ∷ keys) = elim (Option-cases (get tools key)) [
    | inl unknown ↦ rw (unknown, resolve) (function_schemas-IsOffered tools keys)
    | inr (spec, found) ↦
        rw (found, resolve)
          (resolved-IsOffered tools key spec (resolve tools keys) found
            (function_schemas-IsOffered tools keys))
  ]
