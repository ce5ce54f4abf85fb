-- ===== src/OpenApi.antt =====
-- openapi.go: which operations of an OpenAPI document become tools, and how the tools of a document
-- are added to the registry. The document is that of the package openapi3, as far as it is read.
pub mod Skipping
pub mod Merging
pub mod Generating
pub mod Parts
pub mod Serving
pub mod Returning
pub mod Completing
pub mod Listing
pub mod Loading
pub mod Document
pub mod Schemas
pub mod Responses
pub mod Tools
use envoy_mcp_openapi_proces.Common.{
  Bool, Bytes, Call, List, Option, [], any, false, if◌then◌else◌, is_empty, is_some, none, returned,
  some, true, ℕ, ◌>>=◌, ◌∷◌,
}
use envoy_mcp_openapi_proces.Common.Text.{codes, has_prefix}
use envoy_mcp_openapi_proces.Config.{ToolRegistryConfig}
use envoy_mcp_openapi_proces.OpenApi.Document.{Heap, Operation, RequestBody, Spec}
use envoy_mcp_openapi_proces.OpenApi.Tools.{generate_mcp_tool_from_api_operation, output_schema}
use envoy_mcp_openapi_proces.Registry.{
  Tool, ToolConfig, ToolRegistry, get_config, new_tool_registry, register,
}

-- The test of `hasSupportedRequestBody` on the body.
unfoldable pub supported_content : Option (Option RequestBody) → Bool
supported_content none = true
supported_content (some none) = true
supported_content (some (some body)) =
    any (λ entry. has_prefix entry.0 (codes "application/json")) body.content

unfoldable pub has_supported_request_body : Operation → Bool
has_supported_request_body op = supported_content op.request_body

unfoldable pub should_skip_operation : Option Operation → Bool
should_skip_operation none = true
should_skip_operation (some op) =
    if is_empty op.operation_id then true else if has_supported_request_body op then false else true

-- `url_host` is `url.Parse` with `Host`: `none` where the parse fails.
unfoldable pub extract_host_from_open_api_spec :
    (url_host : Bytes → Option Bytes) → (servers : List Bytes) → Bytes
extract_host_from_open_api_spec url_host [] = codes "localhost"
extract_host_from_open_api_spec url_host (server_url ∷ more) = elim (url_host server_url) [
  | none ↦ codes "localhost"
  | some host ↦ if is_empty host then codes "localhost" else host
]

-- The tool as it is registered: the output schema is kept for structured output only.
unfoldable pub registered_tool : (structured_output : Bool) → Tool → Tool
registered_tool structured_output tool =
    if structured_output then tool else record tool { output_schema = none }

unfoldable pub registered_config : Tool → ToolConfig → ToolConfig
registered_config tool config = record config {
  response_config = record { use_structured_output = is_some tool.output_schema };
}

module _ (heap : Heap) (fuel : ℕ) where
  -- One round of the inner loop; a failed `Register` is logged and skipped.
  unfoldable pub add_operation :
      (structured_output : Bool) (host path method : Bytes)
      → Option Operation
      → ToolRegistry
      → Call ToolRegistry
  add_operation structured_output host path method none registry = returned registry
  add_operation structured_output host path method (some op) registry =
      if should_skip_operation (some op)
      then returned registry
      else generate_mcp_tool_from_api_operation heap fuel op method path host op.operation_id
        >>= λ (generated, config).
            (let tool = registered_tool structured_output generated in
              returned (register registry (some tool) (some (registered_config tool config))).0)

  unfoldable pub add_operations :
      (structured_output : Bool) (host path : Bytes)
      → List (Bytes × Option Operation)
      → ToolRegistry
      → Call ToolRegistry
  add_operations structured_output host path [] registry = returned registry
  add_operations structured_output host path ((method, op) ∷ more) registry =
      add_operation structured_output host path method op registry
      >>= add_operations structured_output host path more

  unfoldable pub add_paths :
      (structured_output : Bool) (host : Bytes)
      → List (Bytes × List (Bytes × Option Operation))
      → ToolRegistry
      → Call ToolRegistry
  add_paths structured_output host [] registry = returned registry
  add_paths structured_output host ((path, operations) ∷ more) registry =
      add_operations structured_output host path operations registry
      >>= add_paths structured_output host more

unfoldable pub generate_mcp_tools_from_spec :
    (url_host : Bytes → Option Bytes) → ℕ → Spec → ToolRegistryConfig → Call ToolRegistry
generate_mcp_tools_from_spec url_host fuel spec config =
    add_paths spec.schemas fuel config.structured_output
      (extract_host_from_open_api_spec url_host spec.servers) spec.paths new_tool_registry

-- The loop over the tools; a failed `Register` is logged and skipped.
unfoldable pub register_tools : (loaded : ToolRegistry) → List Tool → ToolRegistry → ToolRegistry
register_tools loaded [] registry = registry
register_tools loaded (tool ∷ tools) registry =
    register_tools loaded tools (elim (get_config loaded tool.name) [
      | none ↦ registry
      | some config ↦ (register registry (some tool) (some config)).0
    ])

unfoldable pub register_loaded_tools : (registry loaded : ToolRegistry) → ToolRegistry
register_loaded_tools registry loaded = register_tools loaded loaded.tools registry
