-- ===== src/OpenApi/Listing.antt =====
-- What the registry generated from a document holds.
use envoy_mcp_openapi_proces.Common.{
  >>=-eq-returned, All, All-of_mem, Any, Any-map, Bool, Bool-cases, Bytes, List, Option, [], any,
  ap, arith, equal, false, inl, inr, is_some, none, not, refl, returned, returned-injective, some,
  subst, sym, ℕ, ◌&&◌, ◌∙◌, ◌∷◌, ◌≡◌,
}
use envoy_mcp_openapi_proces.Common.Text.{to_lower}
use envoy_mcp_openapi_proces.Config.{ToolRegistryConfig}
use envoy_mcp_openapi_proces.OpenApi.{
  add_operation, add_operations, add_paths, extract_host_from_open_api_spec,
  generate_mcp_tools_from_spec, registered_config, registered_tool, should_skip_operation,
}
use envoy_mcp_openapi_proces.OpenApi.Document.{Heap, Operation, Spec}
use envoy_mcp_openapi_proces.OpenApi.Generating.{DistinctNames, endpoint_entries, present}
use envoy_mcp_openapi_proces.OpenApi.Parts.{generate_mcp_tool_from_api_operation-IsGenerated}
use envoy_mcp_openapi_proces.OpenApi.Serving.{generated-params}
use envoy_mcp_openapi_proces.OpenApi.Tools.{generate_mcp_tool_from_api_operation}
use envoy_mcp_openapi_proces.Registry.{Tool, ToolConfig, ToolRegistry, new_tool_registry}
use envoy_mcp_openapi_proces.Registry.Linking.{
  Extends, Extends-refl, Extends-trans, Linked, is_valid_name, register-Extends,
}
use envoy_mcp_openapi_proces.Registry.Registering.{IsWellFormed, new_tool_registry-IsWellFormed}
use envoy_mcp_openapi_proces.Registry.Sorted.{has_tool}

abbrev pub offers_name : Bytes → Bytes × Option Operation → Bool
offers_name name (method, none) = false
offers_name name (method, some op) =
    not (should_skip_operation (some op)) && equal op.operation_id name

-- Some operation of the document that is not skipped has this name.
abbrev pub is_offered : List (Bytes × List (Bytes × Option Operation)) → Bytes → Bool
is_offered paths name = any (λ item. any (offers_name name) item.1) paths

-- The operation stands in the document, under the path and the method.
abbrev pub Stands :
    List (Bytes × List (Bytes × Option Operation)) → (path method : Bytes) → Operation → Type 0
Stands paths path method op =
    Any (λ item. (item.0 ≡ path) × Any (λ e. e ≡ (method, some op)) item.1) paths

-- The tool and its configuration come from an operation that is not skipped.
pub record IsFrom (paths : List (Bytes × List (Bytes × Option Operation))) (host : Bytes)
    (structured_output : Bool) (tool : Tool) (config : ToolConfig) : Type 0 where
  pub path : Bytes
  pub method : Bytes
  pub op : Operation
  pub stands : Stands paths path method op
  pub taken : should_skip_operation (some op) ≡ false
  pub same_name : tool.name ≡ op.operation_id
  pub same_host : config.endpoint.host ≡ host
  pub same_path : config.endpoint.path_template ≡ path
  pub same_method : config.endpoint.method ≡ to_lower method
  pub same_params :
      DistinctNames (present op.parameters)
      → config.endpoint.parameters ≡ endpoint_entries (present op.parameters)
  pub structured : config.response_config.use_structured_output ≡ is_some tool.output_schema
  pub only_if : structured_output ≡ false → tool.output_schema ≡ none

registered-name :
    (structured_output : Bool) (tool : Tool)
    → (registered_tool structured_output tool).name ≡ tool.name
unfolding registered_tool
registered-name structured_output tool = ground arith

module _ (heap : Heap) (fuel : ℕ) (structured_output : Bool) (host : Bytes) where
  module _ (paths : List (Bytes × List (Bytes × Option Operation))) where
    generated-IsFrom :
        (path method : Bytes) (op : Operation) (tool : Tool) (config : ToolConfig)
        → Stands paths path method op
        → should_skip_operation (some op) ≡ false
        → generate_mcp_tool_from_api_operation heap fuel op method path host op.operation_id
          ≡ returned (tool, config)
        → IsFrom paths host structured_output
            (registered_tool structured_output tool)
            (registered_config (registered_tool structured_output tool) config)
    unfolding registered_config registered_tool
    generated-IsFrom path method op tool config stands taken h =
        let g =
          generate_mcp_tool_from_api_operation-IsGenerated heap fuel op method path host
            op.operation_id (tool, config) h in
        record {
          path = path;
          method = method;
          op = op;
          stands = stands;
          taken = taken;
          same_name = registered-name structured_output tool ∙ g.same_name;
          same_host = g.same_host;
          same_path = g.same_path;
          same_method = g.same_method;
          same_params = λ distinct.
              generated-params heap fuel op method path host op.operation_id (tool, config) distinct
                h;
          structured = refl;
          only_if = λ off. rw (off, registered_tool) refl;
        }

    -- The entries that are left, each in its place.
    abbrev AllUnder : Bytes → List (Bytes × Option Operation) → Type 0
    AllUnder path entries =
        All (λ e. (op : Operation) → e.1 ≡ some op → Stands paths path e.0 op) entries

    abbrev AllStand : List (Bytes × List (Bytes × Option Operation)) → Type 0
    AllStand more = All (λ item. AllUnder item.0 item.1) more

    abbrev Grows : (Bytes → Bool) → ToolRegistry → ToolRegistry → Type 0
    Grows = Extends (IsFrom paths host structured_output)

    add_operation-Grows :
        (path method : Bytes) (op : Option Operation) (registry after : ToolRegistry)
        → ((o : Operation) → op ≡ some o → Stands paths path method o)
        → IsWellFormed registry
        → Linked (IsFrom paths host structured_output) registry
        → add_operation heap fuel structured_output host path method op registry ≡ returned after
        → Grows (λ name. offers_name name (method, op)) registry after
    unfolding add_operation
    add_operation-Grows path method none registry after stands w l h =
        subst (Grows _ registry) (returned-injective h) (Extends-refl _ registry w l)
    add_operation-Grows path method (some op) registry after stands w l h =
        elim (Bool-cases (should_skip_operation (some op))) [
          | inl skipped ↦ rw skipped (
              subst (Grows _ registry) (returned-injective (rw (skipped, add_operation) at h))
                (Extends-refl _ registry w l))
          | inr taken ↦
              let ((generated, config), made, rest) =
                >>=-eq-returned
                  (generate_mcp_tool_from_api_operation heap fuel op method path host
                    op.operation_id)
                  _ (rw (taken, add_operation) at h) in
              let tool = registered_tool structured_output generated in
              let from =
                generated-IsFrom path method op generated config (stands op refl) taken made in
              let grown =
                register-Extends _ registry tool (registered_config tool config) w l from in
              rw taken (
                subst (λ n. Grows (λ name. equal n name) registry after)
                  (registered-name structured_output generated
                    ∙ (generate_mcp_tool_from_api_operation-IsGenerated heap fuel op method path
                        host op.operation_id (generated, config) made).same_name)
                  (subst (Grows _ registry) (returned-injective rest) grown))
        ]

    add_operations-Grows :
        (path : Bytes) (operations : List (Bytes × Option Operation))
        (registry after : ToolRegistry)
        → AllUnder path operations
        → IsWellFormed registry
        → Linked (IsFrom paths host structured_output) registry
        → add_operations heap fuel structured_output host path operations registry ≡ returned after
        → Grows (λ name. any (offers_name name) operations) registry after
    unfolding add_operations
    add_operations-Grows path [] registry after stands w l h =
        subst (Grows _ registry) (returned-injective h) (Extends-refl _ registry w l)
    add_operations-Grows path ((method, op) ∷ more) registry after stands w l h =
        let (next, first, rest) =
          >>=-eq-returned (add_operation heap fuel structured_output host path method op registry) _
            h in
        let grown = add_operation-Grows path method op registry next stands.0 w l first in
        Extends-trans _ grown
          (add_operations-Grows path more next after stands.1 grown.well_formed grown.linked rest)

    add_paths-Grows :
        (left : List (Bytes × List (Bytes × Option Operation))) (registry after : ToolRegistry)
        → AllStand left
        → IsWellFormed registry
        → Linked (IsFrom paths host structured_output) registry
        → add_paths heap fuel structured_output host left registry ≡ returned after
        → Grows (is_offered left) registry after
    unfolding add_paths
    add_paths-Grows [] registry after stands w l h =
        subst (Grows _ registry) (returned-injective h) (Extends-refl _ registry w l)
    add_paths-Grows ((path, operations) ∷ left) registry after stands w l h =
        let (next, first, rest) =
          >>=-eq-returned (add_operations heap fuel structured_output host path operations registry)
            _ h in
        let grown = add_operations-Grows path operations registry next stands.0 w l first in
        Extends-trans _ grown
          (add_paths-Grows left next after stands.1 grown.well_formed grown.linked rest)

paths-Stands :
    (paths : List (Bytes × List (Bytes × Option Operation)))
    → All
        (λ item. All (λ e. (op : Operation) → e.1 ≡ some op → Stands paths item.0 e.0 op) item.1)
        paths
paths-Stands paths = All-of_mem paths (λ item in_paths. All-of_mem item.1 (λ e in_item op same.
    Any-map
      (λ other same_item. (
        ap (λ i. i.0) same_item,
        subst (λ i. Any (λ d. d ≡ (e.0, some op)) i.1) (sym same_item)
            (Any-map (λ d same_entry. same_entry ∙ ap (λ o. (e.0, o)) same) in_item),
      ))
      in_paths))

-- Once the tools of a document are generated, their registry is well formed. It holds a name exactly
-- if the name is valid and some operation with it is not skipped; and each of its tools, with the
-- configuration of its name, comes from such an operation: the endpoint has the host of the
-- document, the path and the method of the operation, and its parameters if they have distinct
-- names, and structured output is used exactly if the tool has an output schema, which it has only where the configuration asks for structured output.
pub generate_mcp_tools_from_spec-IsFrom :
    (url_host : Bytes → Option Bytes) (fuel : ℕ) (spec : Spec) (config : ToolRegistryConfig)
    (registry : ToolRegistry)
    → generate_mcp_tools_from_spec url_host fuel spec config ≡ returned registry
    → IsWellFormed registry
      × ((name : Bytes)
          → has_tool registry.tools name ≡ (is_offered spec.paths name && is_valid_name name))
      × Linked
          (IsFrom spec.paths
            (extract_host_from_open_api_spec url_host spec.servers)
            config.structured_output)
          registry
unfolding generate_mcp_tools_from_spec
generate_mcp_tools_from_spec-IsFrom url_host fuel spec config registry h =
    let grown =
      add_paths-Grows spec.schemas fuel config.structured_output
        (extract_host_from_open_api_spec url_host spec.servers) spec.paths spec.paths
        new_tool_registry registry (paths-Stands spec.paths) new_tool_registry-IsWellFormed tt h in
    (grown.well_formed, grown.names, grown.linked)
