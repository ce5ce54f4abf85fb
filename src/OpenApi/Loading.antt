-- ===== src/OpenApi/Loading.antt =====
-- `loadToolsFromOpenAPI` and `newToolRegistryFromConfig` of openapi.go. The file system and the
-- loader of the package openapi3 are parameters, as they answer while the program starts.
pub mod Offering
pub mod Taking
pub mod Reading
use envoy_mcp_openapi_proces.Common.{
  Bool, Bytes, Call, List, Option, Result, [], err, false, if◌then◌else◌, ok, returned, true, ℕ,
  ◌++◌, ◌==◌, ◌>>=◌, ◌∷◌,
}
use envoy_mcp_openapi_proces.Common.Text.{codes}
use envoy_mcp_openapi_proces.Config.{ToolRegistryConfig}
use envoy_mcp_openapi_proces.OpenApi.{generate_mcp_tools_from_spec, register_loaded_tools}
use envoy_mcp_openapi_proces.OpenApi.Document.{Spec}
use envoy_mcp_openapi_proces.Registry.{ToolRegistry, new_tool_registry, tool_count}

-- `filepath.Glob`, `os.Stat` with `IsDir`, and `LoadFromFile` with a new loader; an error is given by
-- its text.
pub record Files : Type 0 where
  pub glob : Bytes → Result Bytes (List Bytes)
  pub is_dir : Bytes → Result Bytes Bool
  pub load_from_file : Bytes → Result Bytes Spec

-- The registry after a file was loaded; one that failed is logged and skipped.
unfoldable pub take_up : ToolRegistry → Result Bytes ToolRegistry → ToolRegistry
take_up registry (err e) = registry
take_up registry (ok loaded) = register_loaded_tools registry loaded

unfoldable pub loaded_or_error : ToolRegistryConfig → ToolRegistry → Result Bytes ToolRegistry
loaded_or_error config registry =
    if tool_count registry == 0
    then err (
        codes "no tools loaded from OpenAPI specs matching pattern: "
        ++ config.open_api_spec_pattern)
    else ok registry

module _ (files : Files) (url_host : Bytes → Option Bytes) (fuel : ℕ)
    (config : ToolRegistryConfig) where
  -- A failed validation of the document is only logged.
  unfoldable pub load_tools_from_open_api : Bytes → Call (Result Bytes ToolRegistry)
  load_tools_from_open_api path = elim (files.load_from_file path) [
    | err e ↦ returned (err (codes "failed to load OpenAPI spec: " ++ e))
    | ok spec ↦ generate_mcp_tools_from_spec url_host fuel spec config >>= λ registry.
        returned (ok registry)
  ]

  -- One round of the loop over the matches.
  unfoldable pub load_match : Bytes → ToolRegistry → Call ToolRegistry
  load_match path registry = elim (files.is_dir path) [
    | err e ↦ returned registry
    | ok true ↦ returned registry
    | ok false ↦ load_tools_from_open_api path >>= λ loaded. returned (take_up registry loaded)
  ]

  unfoldable pub load_matches : List Bytes → ToolRegistry → Call ToolRegistry
  load_matches [] registry = returned registry
  load_matches (path ∷ more) registry = load_match path registry >>= load_matches more

  unfoldable pub new_tool_registry_from_config : Call (Result Bytes ToolRegistry)
  new_tool_registry_from_config = elim (files.glob config.open_api_spec_pattern) [
    | err e ↦ returned (
        err
          (codes "invalid glob pattern '" ++ (config.open_api_spec_pattern ++ (codes "': " ++ e))))
    | ok [] ↦
        returned
          (err (codes "no files matched pattern: '" ++ (config.open_api_spec_pattern ++ codes "'")))
    | ok (path ∷ more) ↦ load_matches (path ∷ more) new_tool_registry >>= λ registry.
        returned (loaded_or_error config registry)
  ]
