-- ===== src/OpenApi/Completing.antt =====
-- When the generation of the tools of a document returns.
use envoy_mcp_openapi_proces.Common.{
  >>=-eq-returned, All, Bool, Bool-cases, Bytes, List, Option, Returns, Returns-chain, [], arith,
  at_once, false, inl, inr, none, returned, some, ℕ, ◌↔◌, ◌∷◌, ◌≡◌,
}
use envoy_mcp_openapi_proces.Config.{ToolRegistryConfig}
use envoy_mcp_openapi_proces.OpenApi.{
  add_operation, add_operations, add_paths, generate_mcp_tools_from_spec, should_skip_operation,
}
use envoy_mcp_openapi_proces.OpenApi.Document.{Heap, Operation, Spec}
use envoy_mcp_openapi_proces.OpenApi.Returning.{
  SafeOperation, SafeOperation-Returns, SafeOperation-of_returned,
}
use envoy_mcp_openapi_proces.OpenApi.Tools.{generate_mcp_tool_from_api_operation}
use envoy_mcp_openapi_proces.Registry.{ToolRegistry}

-- An operation that is not skipped can be followed to the end.
abbrev pub SafeEntry : Heap → Bytes × Option Operation → Type 0
SafeEntry heap (method, none) = Unit
SafeEntry heap (method, some op) = should_skip_operation (some op) ≡ false → SafeOperation heap op

abbrev pub SafeDocument : Spec → Type 0
SafeDocument spec = All (λ item. All (SafeEntry spec.schemas) item.1) spec.paths

module _ (heap : Heap) (structured_output : Bool) (host : Bytes) where
  add_operation-Returns :
      (path method : Bytes) (op : Option Operation) (registry : ToolRegistry)
      → SafeEntry heap (method, op)
      → Returns (λ fuel. add_operation heap fuel structured_output host path method op registry)
  unfolding add_operation
  add_operation-Returns path method none registry safe = at_once registry
  add_operation-Returns path method (some op) registry safe =
      elim (Bool-cases (should_skip_operation (some op))) [
        | inl skipped ↦ rw (skipped, add_operation) (at_once registry)
        | inr taken ↦
            rw (taken, add_operation)
              (Returns-chain
                (SafeOperation-Returns heap op method path host op.operation_id (safe taken))
                (λ (generated, config). at_once _))
      ]

  add_operations-Returns :
      (path : Bytes) (operations : List (Bytes × Option Operation)) (registry : ToolRegistry)
      → All (SafeEntry heap) operations
      → Returns (λ fuel. add_operations heap fuel structured_output host path operations registry)
  unfolding add_operations
  add_operations-Returns path [] registry safe = at_once registry
  add_operations-Returns path ((method, op) ∷ more) registry safe =
      Returns-chain (add_operation-Returns path method op registry safe.0)
        (λ next. add_operations-Returns path more next safe.1)

  add_paths-Returns :
      (paths : List (Bytes × List (Bytes × Option Operation))) (registry : ToolRegistry)
      → All (λ item. All (SafeEntry heap) item.1) paths
      → Returns (λ fuel. add_paths heap fuel structured_output host paths registry)
  unfolding add_paths
  add_paths-Returns [] registry safe = at_once registry
  add_paths-Returns ((path, operations) ∷ more) registry safe =
      Returns-chain (add_operations-Returns path operations registry safe.0)
        (λ next. add_paths-Returns more next safe.1)

  module _ (fuel : ℕ) where
    add_operation_sound :
        (path method : Bytes) (op : Option Operation) (registry after : ToolRegistry)
        → add_operation heap fuel structured_output host path method op registry ≡ returned after
        → SafeEntry heap (method, op)
    unfolding add_operation
    add_operation_sound path method none registry after h = tt
    add_operation_sound path method (some op) registry after h = λ taken.
        let (made, generated, rest) =
          >>=-eq-returned
            (generate_mcp_tool_from_api_operation heap fuel op method path host op.operation_id) _
            (rw (taken, add_operation) at h) in
        SafeOperation-of_returned heap fuel op method path host op.operation_id made generated

    add_operations_sound :
        (path : Bytes) (operations : List (Bytes × Option Operation))
        (registry after : ToolRegistry)
        → add_operations heap fuel structured_output host path operations registry ≡ returned after
        → All (SafeEntry heap) operations
    unfolding add_operations
    add_operations_sound path [] registry after h = tt
    add_operations_sound path ((method, op) ∷ more) registry after h =
        let (next, first, rest) =
          >>=-eq-returned (add_operation heap fuel structured_output host path method op registry) _
            h in
        (
          add_operation_sound path method op registry next first,
          add_operations_sound path more next after rest,
        )

    add_paths_sound :
        (paths : List (Bytes × List (Bytes × Option Operation))) (registry after : ToolRegistry)
        → add_paths heap fuel structured_output host paths registry ≡ returned after
        → All (λ item. All (SafeEntry heap) item.1) paths
    unfolding add_paths
    add_paths_sound [] registry after h = tt
    add_paths_sound ((path, operations) ∷ more) registry after h =
        let (next, first, rest) =
          >>=-eq-returned (add_operations heap fuel structured_output host path operations registry)
            _ h in
        (
          add_operations_sound path operations registry next first,
          add_paths_sound more next after rest,
        )

-- The generation of the tools of a document returns, with one and the same registry for every depth
-- of the recursion from some depth on, exactly if every operation that is not skipped is safe: no
-- parameter is nil, nor a request body that is referred to; a media type `application/json` of the
-- body has a schema reference; and the references from every schema that is converted end on every
-- way and meet no nil property.
pub generate_mcp_tools_from_spec-Returns :
    (url_host : Bytes → Option Bytes) (spec : Spec) (config : ToolRegistryConfig)
    → Returns (λ fuel. generate_mcp_tools_from_spec url_host fuel spec config) ↔ SafeDocument spec
unfolding generate_mcp_tools_from_spec
generate_mcp_tools_from_spec-Returns url_host spec config = (
  λ r. add_paths_sound spec.schemas _ _ r.enough spec.paths _ _ (r.returns r.enough (omega arith)),
  add_paths-Returns spec.schemas _ _ spec.paths _,
)
