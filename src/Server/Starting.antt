-- ===== src/Server/Starting.antt =====
-- What a run of the server does.
use envoy_mcp_openapi_proces.Common.{
  All, Bool, Bool-cases, Bytes, List, Option, Result, [], all, ap, arith, equal, equal_iff, err,
  false, inl, inr, is_empty, is_some, ok, refl, some, subst, sym, true, true-false, ◌&&◌, ◌||◌, ◌∙◌,
  ◌∷◌, ◌≡◌,
}
use envoy_mcp_openapi_proces.Config.{ToolRegistryConfig}
use envoy_mcp_openapi_proces.OpenApi.Loading.{Files}
use envoy_mcp_openapi_proces.OpenApi.Loading.Offering.{IsLoaded, offered_by}
use envoy_mcp_openapi_proces.OpenApi.Loading.Reading.{Loads}
use envoy_mcp_openapi_proces.Registry.{
  FilterError, Tool, ToolConfig, ToolRegistry, empty_allowlist, filter_by_allowlist, get_config,
  not_found,
}
use envoy_mcp_openapi_proces.Registry.Filtering.{Filters, filter_by_allowlist-Filters, listed}
use envoy_mcp_openapi_proces.Registry.Linking.{Linked, is_valid_name}
use envoy_mcp_openapi_proces.Registry.Registering.{IsWellFormed}
use envoy_mcp_openapi_proces.Registry.Sorted.{has_tool}
use envoy_mcp_openapi_proces.Server.{RunError, allowed_tools, not_filtered, not_loaded}

module _ (files : Files) (url_host : Bytes → Option Bytes) (config : ToolRegistryConfig) where
  -- The names that the configuration admits.
  abbrev pub admitted : List Bytes → Bytes → Bool
  admitted matches name =
      (is_empty config.tool_allowlist || listed config.tool_allowlist name)
      && (offered_by files matches name && is_valid_name name)

  -- What is said of the registry that is served.
  abbrev pub Admits : ToolRegistry → Type 0
  Admits registry =
      (matches : List Bytes) × (files.glob config.open_api_spec_pattern ≡ ok matches)
      × IsWellFormed registry
      × ((name : Bytes) → has_tool registry.tools name ≡ admitted matches name)
      × ((name : Bytes) (tool_config : ToolConfig)
          → get_config registry name ≡ some tool_config
          → (tool : Tool) × (tool.name ≡ name)
            × IsLoaded files url_host config matches tool tool_config)

  abbrev is_offered_name : List Bytes → Bytes → Bool
  is_offered_name matches name = offered_by files matches name && is_valid_name name

  -- Why there is no registry: no valid name is offered, or the allowlist has one that is not.
  abbrev pub AdmitsNone : RunError → Type 0
  AdmitsNone (not_loaded e) =
      (matches : List Bytes)
      → files.glob config.open_api_spec_pattern ≡ ok matches
      → (name : Bytes) → is_offered_name matches name ≡ false
  AdmitsNone (not_filtered e) =
      (matches : List Bytes)
      → files.glob config.open_api_spec_pattern ≡ ok matches
      → (name : Bytes) × (listed config.tool_allowlist name ≡ true)
        × (is_offered_name matches name ≡ false)
  AdmitsNone _ = ⊥

  abbrev pub Admission : Result RunError ToolRegistry → Type 0
  Admission (ok registry) = Admits registry
  Admission (err e) = AdmitsNone e

  find-Linked :
      (P : Tool → ToolConfig → Type 0) (registry : ToolRegistry) (name : Bytes)
      (tool_config : ToolConfig)
      → IsWellFormed registry
      → Linked P registry
      → get_config registry name ≡ some tool_config
      → (tool : Tool) × (tool.name ≡ name) × P tool tool_config
  find-Linked P registry name tool_config w linked found =
      go registry.tools linked (sym (w.same_names name) ∙ ap is_some found)
    where
      go :
          (ts : List Tool)
          → All (λ t. (c : ToolConfig) → get_config registry t.name ≡ some c → P t c) ts
          → has_tool ts name ≡ true
          → (tool : Tool) × (tool.name ≡ name) × P tool tool_config
      go [] l has = cc
      go (t ∷ ts) l has = elim (Bool-cases (equal t.name name)) [
        | inl same ↦
            let e = (equal_iff t.name name).0 same in
            (t, e, l.0 tool_config (ap (get_config registry) e ∙ found))
        | inr other ↦ go ts l.1 (rw other at has)
      ]

  pub allowed_tools-Admission :
      (loaded : Result Bytes ToolRegistry)
      → Loads files url_host config loaded
      → Admission (allowed_tools config loaded)
  unfolding allowed_tools
  allowed_tools-Admission (err e) nothing = nothing
  allowed_tools-Admission (ok registry) (matches, matched, w, some_tool, names, linked) =
      elim (Bool-cases (is_empty config.tool_allowlist)) [
        | inl all ↦ rw all (
          matches,
          matched,
          w,
          (λ name. ground (arith, names name)),
          λ name tool_config. find-Linked _ registry name tool_config w linked,
        )
        | inr some_listed ↦ rw some_listed (
            filtered some_listed (filter_by_allowlist registry config.tool_allowlist)
              (filter_by_allowlist-Filters registry config.tool_allowlist w))
      ]
    where
      filtered :
          is_empty config.tool_allowlist ≡ false
          → (out : Result FilterError ToolRegistry) → Filters registry config.tool_allowlist out
          → Admission (elim out [ ok taken ↦ ok taken | err e ↦ err (not_filtered e) ])
      filtered given (err empty_allowlist) none_listed =
          absurd (true-false (sym (ap is_empty none_listed) ∙ given))
      filtered given (err (not_found [])) missing = absurd (missing.0 refl)
      filtered given (err (not_found (unknown ∷ others))) missing = λ others_matched also.
          let same : matches ≡ others_matched = cc (matched, also) in
          (
            unknown,
            missing.1.0.0,
            subst (λ ms. (offered_by files ms unknown && is_valid_name unknown) ≡ false) same
                (sym (names unknown) ∙ sym (w.same_names unknown) ∙ ap is_some missing.1.0.1),
          )
      filtered given (ok taken) (listed_some, v, all_found, found) = (
        matches,
        matched,
        v,
        (λ name.
            ground (arith, found name, v.same_names name, w.same_names name, names name, given)),
        λ name tool_config has.
            find-Linked _ registry name tool_config w linked (ground (arith, found name, has)),
      )
