-- ===== src/OpenApi/Merging.antt =====
-- What the registry holds after the tools of a document are added.
use envoy_mcp_openapi_proces.Common.{
  All, Bool-cases, Bytes, List, Option-cases, [], arith, equal, equal_iff, if◌then◌else◌, inl, inr,
  is_some, none, some, ◌∷◌, ◌≡◌,
}
use envoy_mcp_openapi_proces.OpenApi.{register_loaded_tools, register_tools}
use envoy_mcp_openapi_proces.Registry.{
  Tool, ToolConfig, ToolRegistry, get_config, register, validate_tool_name,
}
use envoy_mcp_openapi_proces.Registry.Registering.{
  IsWellFormed, added-IsWellFormed, get_config-added, register-outcome,
}
use envoy_mcp_openapi_proces.Registry.Sorted.{has_tool}

-- What is said of the registry `final` that the tools `ts` of `loaded` lead to.
abbrev Adds : ToolRegistry → List Tool → (registry final : ToolRegistry) → Type 0
Adds loaded ts registry final =
    IsWellFormed final
    × ((name : Bytes)
        → get_config final name ≡ (
            if is_some (get_config registry name)
            then get_config registry name
            else if has_tool ts name
            then get_config loaded name
            else none))

-- A tool that is taken up or refused.
register_valid :
    (registry : ToolRegistry) (t : Tool) (config : ToolConfig)
    → IsWellFormed registry
    → validate_tool_name t.name ≡ none
    → IsWellFormed (register registry (some t) (some config)).0
      × ((name : Bytes)
          → get_config (register registry (some t) (some config)).0 name ≡ (
              if is_some (get_config registry name)
              then get_config registry name
              else if equal t.name name
              then some config
              else none))
register_valid registry t config w valid = elim (Bool-cases (has_tool registry.tools t.name)) [
  | inl known ↦ rw (register-outcome registry t config w.sorted) (
      rw (valid, known)
        (
          w,
          λ name. ground (
            arith,
            w.same_names name,
            equal_iff t.name name,
            known,
            Option-cases (get_config registry name),
          ),
        ))
  | inr new ↦ rw (register-outcome registry t config w.sorted) (
      rw (valid, new)
        (
          added-IsWellFormed registry t config w valid new,
          λ name. ground (
            arith,
            get_config-added registry t config name,
            w.same_names name,
            equal_iff t.name name,
            new,
            Option-cases (get_config registry name),
          ),
        ))
]

register_tools-Adds :
    (loaded : ToolRegistry) (ts : List Tool) (registry : ToolRegistry)
    → IsWellFormed registry
    → All (λ t. validate_tool_name t.name ≡ none) ts
    → Adds loaded ts registry (register_tools loaded ts registry)
unfolding register_tools
register_tools-Adds loaded [] registry w valid =
    (w, λ name. ground (arith, Option-cases (get_config registry name)))
register_tools-Adds loaded (t ∷ ts) registry w valid =
    elim (Option-cases (get_config loaded t.name)) [
      | inl unconfigured ↦
          let (w', found) = register_tools-Adds loaded ts registry w valid.1 in
          rw unconfigured (
            w',
            λ name. ground (
              arith,
              found name,
              equal_iff t.name name,
              unconfigured,
              Option-cases (get_config loaded name),
            ),
          )
      | inr (config, has) ↦
          let (w1, first) = register_valid registry t config w valid.0 in
          let (w', found) = register_tools-Adds loaded ts _ w1 valid.1 in
          rw has (
            w',
            λ name. ground (
              arith,
              found name,
              first name,
              equal_iff t.name name,
              has,
              Option-cases (get_config registry name),
            ),
          )
    ]

-- Adding the tools of one well-formed registry to another keeps it well formed. Of two tools with
-- one name the one that was there first is kept: a name is answered as before where it was
-- registered, and else as the added registry answers it.
pub register_loaded_tools-Merges :
    (registry loaded : ToolRegistry)
    → IsWellFormed registry
    → IsWellFormed loaded
    → IsWellFormed (register_loaded_tools registry loaded)
      × ((name : Bytes)
          → get_config (register_loaded_tools registry loaded) name ≡ (
              if is_some (get_config registry name)
              then get_config registry name
              else get_config loaded name))
unfolding register_loaded_tools
register_loaded_tools-Merges registry loaded w v =
    let (final, found) = register_tools-Adds loaded loaded.tools registry w v.valid_names in
    (
      final,
      λ name. ground (arith, found name, v.same_names name, Option-cases (get_config loaded name)),
    )
