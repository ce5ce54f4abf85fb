-- ===== src/OpenApi/Parts.antt =====
-- What a tool that was generated, and its configuration, are made of.
use envoy_mcp_openapi_proces.Common.{
  >>=-eq-returned, Bytes, Option, ap, returned, returned-injective, sym, ℕ, ◌≡◌,
}
use envoy_mcp_openapi_proces.Common.Text.{to_lower}
use envoy_mcp_openapi_proces.Json.{Json}
use envoy_mcp_openapi_proces.OpenApi.Document.{Heap, Operation}
use envoy_mcp_openapi_proces.OpenApi.Tools.{
  Inputs, add_body, add_inputs, generate_mcp_tool_from_api_operation, input_schema, no_inputs,
  output_schema,
}
use envoy_mcp_openapi_proces.Registry.{Tool, ToolConfig}

module _ (heap : Heap) (fuel : ℕ) (op : Operation) (method path host tool_name : Bytes) where
  pub record IsGenerated (made : Tool × ToolConfig) : Type 0 where
    pub params : Inputs
    pub looped : add_inputs heap fuel op.parameters no_inputs ≡ returned params
    pub inputs : Inputs
    pub content_type : Bytes
    pub embodied : add_body heap fuel op.request_body params ≡ returned (inputs, content_type)
    pub output : Option Json
    pub found : output_schema heap fuel op.responses ≡ returned output
    pub same_name : made.0.name ≡ tool_name
    pub same_schema : made.0.input_schema ≡ input_schema inputs
    pub same_host : made.1.endpoint.host ≡ host
    pub same_method : made.1.endpoint.method ≡ to_lower method
    pub same_path : made.1.endpoint.path_template ≡ path
    pub same_params : made.1.endpoint.parameters ≡ inputs.endpoint_params

  pub generate_mcp_tool_from_api_operation-IsGenerated :
      (made : Tool × ToolConfig)
      → generate_mcp_tool_from_api_operation heap fuel op method path host tool_name ≡ returned made
      → IsGenerated made
  unfolding generate_mcp_tool_from_api_operation
  generate_mcp_tool_from_api_operation-IsGenerated made h =
      let (params, looped, h1) =
        >>=-eq-returned (add_inputs heap fuel op.parameters no_inputs) _ h in
      let ((inputs, content_type), embodied, h2) =
        >>=-eq-returned (add_body heap fuel op.request_body params) _ h1 in
      let (output, found, h3) = >>=-eq-returned (output_schema heap fuel op.responses) _ h2 in
      let same = sym (returned-injective h3) in
      record {
        params = params;
        looped = looped;
        inputs = inputs;
        content_type = content_type;
        embodied = embodied;
        output = output;
        found = found;
        same_name = ap (λ o. o.0.name) same;
        same_schema = ap (λ o. o.0.input_schema) same;
        same_host = ap (λ o. o.1.endpoint.host) same;
        same_method = ap (λ o. o.1.endpoint.method) same;
        same_path = ap (λ o. o.1.endpoint.path_template) same;
        same_params = ap (λ o. o.1.endpoint.parameters) same;
      }
