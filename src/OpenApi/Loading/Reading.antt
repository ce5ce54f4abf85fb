-- ===== src/OpenApi/Loading/Reading.antt =====
-- The registry that is made of the files of a configuration.
use envoy_mcp_openapi_proces.Common.{
  >>=-eq-returned, All, All-of_mem, Any, Bool-cases, Bytes, List, Option, Result, Result-cases,
  Returns, Returns-chain, [], arith, at_once, err, false, inl, inr, length, none, ok, refl,
  returned, returned-injective, some, subst, sym, true, ℕ, ◌&&◌, ◌==◌, ◌∙◌, ◌∷◌, ◌≡◌, ◌≢◌,
}
use envoy_mcp_openapi_proces.Config.{ToolRegistryConfig}
use envoy_mcp_openapi_proces.OpenApi.Completing.{SafeDocument, generate_mcp_tools_from_spec-Returns}
use envoy_mcp_openapi_proces.OpenApi.Document.{Spec}
use envoy_mcp_openapi_proces.OpenApi.Loading.{
  Files, load_match, load_matches, loaded_or_error, new_tool_registry_from_config,
}
use envoy_mcp_openapi_proces.OpenApi.Loading.Offering.{AllSafe, IsLoaded, document, offered_by}
use envoy_mcp_openapi_proces.OpenApi.Loading.Taking.{
  by_document, load_match-document, load_matches-Extends,
}
use envoy_mcp_openapi_proces.Registry.{Tool, ToolRegistry, new_tool_registry, tool_count}
use envoy_mcp_openapi_proces.Registry.Linking.{Extends, Linked, is_valid_name}
use envoy_mcp_openapi_proces.Registry.Registering.{IsWellFormed, new_tool_registry-IsWellFormed}
use envoy_mcp_openapi_proces.Registry.Sorted.{has_tool}

module _ (files : Files) (url_host : Bytes → Option Bytes) (config : ToolRegistryConfig) where
  -- The documents that the pattern matches can be followed to the end.
  abbrev pub SafeFiles : Type 0
  SafeFiles =
      (matches : List Bytes)
      → files.glob config.open_api_spec_pattern ≡ ok matches
      → AllSafe files matches

  -- What is said of the result.
  abbrev pub Loads : Result Bytes ToolRegistry → Type 0
  Loads (err e) =
      (matches : List Bytes)
      → files.glob config.open_api_spec_pattern ≡ ok matches
      → (name : Bytes) → (offered_by files matches name && is_valid_name name) ≡ false
  Loads (ok registry) =
      (matches : List Bytes) × (files.glob config.open_api_spec_pattern ≡ ok matches)
      × IsWellFormed registry
      × (registry.tools ≢ [])
      × ((name : Bytes)
          → has_tool registry.tools name ≡ (offered_by files matches name && is_valid_name name))
      × Linked (IsLoaded files url_host config matches) registry

  load_match-Returns :
      (path : Bytes) (registry : ToolRegistry)
      → ((spec : Spec) → document files path ≡ some spec → SafeDocument spec)
      → Returns (λ fuel. load_match files url_host fuel config path registry)
  load_match-Returns path registry safe =
      let known = go (document files path) refl in
      record {
        enough = known.enough;
        result_of = known.result_of;
        returns = λ fuel h.
            load_match-document files url_host fuel config path registry ∙ known.returns fuel h;
      }
    where
      go :
          (d : Option Spec)
          → document files path ≡ d
          → Returns (λ fuel. by_document files url_host fuel config registry d)
      go none nothing = at_once registry
      go (some spec) found =
          Returns-chain
            ((generate_mcp_tools_from_spec-Returns url_host spec config).1 (safe spec found))
            (λ loaded. at_once _)

  load_matches-Returns :
      (paths : List Bytes) (registry : ToolRegistry)
      → AllSafe files paths
      → Returns (λ fuel. load_matches files url_host fuel config paths registry)
  unfolding load_matches
  load_matches-Returns [] registry safe = at_once registry
  load_matches-Returns (path ∷ more) registry safe =
      Returns-chain (load_match-Returns path registry safe.0)
        (λ next. load_matches-Returns more next safe.1)

  no_tool : (ts : List Tool) → (length ts == 0) ≡ true → (name : Bytes) → has_tool ts name ≡ false
  no_tool [] h name = refl
  no_tool (t ∷ ts) h name = absurd (ground arith)

  loaded_or_error-Loads :
      (matches : List Bytes) (registry : ToolRegistry)
      → files.glob config.open_api_spec_pattern ≡ ok matches
      → Extends
          (IsLoaded files url_host config matches)
          (offered_by files matches)
          new_tool_registry
          registry
      → Loads (loaded_or_error config registry)
  unfolding loaded_or_error tool_count
  loaded_or_error-Loads matches registry matched grown =
      elim (Bool-cases (length registry.tools == 0)) [
        | inl empty ↦ rw empty (λ others also name.
            let same : matches ≡ others = cc (matched, also) in
            subst (λ ms. (offered_by files ms name && is_valid_name name) ≡ false) same
              (sym (grown.names name) ∙ no_tool registry.tools empty name))
        | inr tools ↦ rw tools (
          matches,
          matched,
          grown.well_formed,
          (λ none_there. absurd (ground arith)),
          grown.names,
          grown.linked,
        )
      ]

  pub config-Returns :
      SafeFiles → Returns (λ fuel. new_tool_registry_from_config files url_host fuel config)
  unfolding new_tool_registry_from_config
  config-Returns safe = elim (Result-cases (files.glob config.open_api_spec_pattern)) [
    | inl (e, failed) ↦ rw (failed, new_tool_registry_from_config) (at_once _)
    | inr ([], matched) ↦ rw (matched, new_tool_registry_from_config) (at_once _)
    | inr (path ∷ more, matched) ↦
        rw (matched, new_tool_registry_from_config)
          (Returns-chain
            (load_matches-Returns (path ∷ more) new_tool_registry (safe (path ∷ more) matched))
            (λ registry. at_once _))
  ]

  each_is_matched : (paths : List Bytes) → All (λ path. Any (λ p. p ≡ path) paths) paths
  each_is_matched paths = All-of_mem paths (λ path in_paths. in_paths)

  pub returned-Loads :
      (fuel : ℕ) (made : Result Bytes ToolRegistry)
      → new_tool_registry_from_config files url_host fuel config ≡ returned made
      → Loads made
  unfolding new_tool_registry_from_config
  returned-Loads fuel made h = elim (Result-cases (files.glob config.open_api_spec_pattern)) [
    | inl (e, failed) ↦
        subst Loads (returned-injective (rw (failed, new_tool_registry_from_config) at h))
          (λ matches also. absurd (cc (failed, also)))
    | inr ([], matched) ↦
        subst Loads (returned-injective (rw (matched, new_tool_registry_from_config) at h))
          (λ matches also name.
            let same : [] ≡ matches = cc (matched, also) in
            subst (λ ms. (offered_by files ms name && is_valid_name name) ≡ false) same refl)
    | inr (path ∷ more, matched) ↦
        let (registry, loaded, rest) =
          >>=-eq-returned (load_matches files url_host fuel config (path ∷ more) new_tool_registry)
            _ (rw (matched, new_tool_registry_from_config) at h) in
        subst Loads (returned-injective rest) (
          loaded_or_error-Loads (path ∷ more) registry matched (
            load_matches-Extends files url_host fuel config (path ∷ more) (path ∷ more)
              new_tool_registry registry (each_is_matched (path ∷ more))
              new_tool_registry-IsWellFormed tt loaded))
  ]

  -- With documents that can all be followed to the end, the registry of a configuration is made or
  -- refused, for every depth of the recursion from some depth on. If it is made, it is well formed and not empty,
  -- it holds exactly the valid names that some document under the pattern offers, and each of its
  -- tools comes with its configuration from an operation of such a document. If it is refused,
  -- the pattern cannot be matched or no document under it offers a tool with a valid name.
  pub new_tool_registry_from_config-Loads :
      SafeFiles
      → (r : Returns (λ fuel. new_tool_registry_from_config files url_host fuel config)) × Loads
          r.result_of
  new_tool_registry_from_config-Loads safe =
      let r = config-Returns safe in
      (r, returned-Loads r.enough r.result_of (r.returns r.enough (omega arith)))
