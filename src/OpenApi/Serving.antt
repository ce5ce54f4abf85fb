-- ===== src/OpenApi/Serving.antt =====
-- What a tool generated from an operation accepts, through the request of its endpoint.
use envoy_mcp_openapi_proces.Common.{
  >>=-eq-returned, All, Bool-cases, Bytes, List, Option, Option-cases, [], ap, append-nil, inl, inr,
  lookup, none, refl, returned, some, subst, sym, true, ℕ, ◌++◌, ◌↔◌, ◌∙◌, ◌∷◌, ◌≡◌,
}
use envoy_mcp_openapi_proces.Common.Text.{codes}
use envoy_mcp_openapi_proces.Endpoint.{new_endpoint_request}
use envoy_mcp_openapi_proces.Endpoint.Building.{Acceptable, is_ok, new_endpoint_request_iff}
use envoy_mcp_openapi_proces.Json.{array, object, to_fields}
use envoy_mcp_openapi_proces.OpenApi.Document.{Heap, Operation, Parameter, RequestBody}
use envoy_mcp_openapi_proces.OpenApi.Generating.{
  DistinctNames, Fresh, IsClosed, IsFilled, Serves, add_inputs-IsClosed, add_inputs-IsFilled,
  endpoint_entries, endpoint_entries-Accepts, is_empty-insert, present, required_body, required_by,
  required_by-input_schema, required_names,
}
use envoy_mcp_openapi_proces.OpenApi.Parts.{
  IsGenerated, generate_mcp_tool_from_api_operation-IsGenerated,
}
use envoy_mcp_openapi_proces.OpenApi.Schemas.{Map, texts}
use envoy_mcp_openapi_proces.OpenApi.Tools.{
  Inputs, add_body, body_schema, default_body_schema, generate_mcp_tool_from_api_operation,
  no_inputs, with_body,
}
use envoy_mcp_openapi_proces.Registry.{Endpoint, Tool, ToolConfig}

-- What adding the body changes.
record AddsBody (body : Option (Option RequestBody)) (before after : Inputs) : Type 0 where
  same_params : after.endpoint_params ≡ before.endpoint_params
  required : after.required_fields ≡ before.required_fields ++ required_body body
  still_closed : IsClosed before → IsClosed after

with_body-AddsBody :
    (body : RequestBody) (content_type : Bytes) (schema : Map) (st : Inputs)
    → AddsBody (some (some body)) st (with_body body content_type schema st).0
with_body-AddsBody body content_type schema st = record {
  same_params = refl;
  required = elim (Bool-cases body.required) [
    | inl needed ↦ rw needed refl
    | inr optional ↦ rw optional (sym (append-nil st.required_fields))
  ];
  still_closed = λ before none_there.
      absurd (
        cc
          (is_empty-insert (codes "body") (object (to_fields schema)) st.schema_props, none_there));
}

add_body-AddsBody :
    (heap : Heap) (fuel : ℕ) (body : Option (Option RequestBody)) (st after : Inputs)
    (content_type : Bytes)
    → add_body heap fuel body st ≡ returned (after, content_type)
    → AddsBody body st after
unfolding add_body
add_body-AddsBody heap fuel none st after content_type h =
    let same : st ≡ after = cc in
    record {
      same_params = ap (λ st. st.endpoint_params) (sym same);
      required = ap (λ st. st.required_fields) (sym same) ∙ sym (append-nil st.required_fields);
      still_closed = subst IsClosed same;
    }
add_body-AddsBody heap fuel (some none) st after content_type h = cc
add_body-AddsBody heap fuel (some (some body)) st after content_type h =
    elim (Option-cases (lookup (codes "application/json") body.content)) [
      | inl missing ↦
          let plain = rw (missing, add_body) at h in
          let same : (with_body body [] default_body_schema st).0 ≡ after = cc plain in
          subst (AddsBody (some (some body)) st) same
            (with_body-AddsBody body [] default_body_schema st)
      | inr (media, found) ↦
          let (schema, converted, rest) =
            >>=-eq-returned (body_schema heap fuel media) _ (rw (found, add_body) at h) in
          let same : (with_body body (codes "application/json") schema st).0 ≡ after = cc rest in
          subst (AddsBody (some (some body)) st) same
            (with_body-AddsBody body (codes "application/json") schema st)
    ]

nil-Fresh : (ps : List Parameter) → Fresh [] ps
unfolding lookup
nil-Fresh [] = tt
nil-Fresh (p ∷ ps) = (refl, nil-Fresh ps)

-- An endpoint with the parameters of an operation builds a request from the arguments that serve them.
pub new_endpoint_request-Serves :
    (endpoint : Endpoint) (arguments : Map) (ps : List Parameter)
    → endpoint.parameters ≡ endpoint_entries ps
    → (is_ok (new_endpoint_request endpoint arguments) ≡ true) ↔ All (Serves arguments) ps
new_endpoint_request-Serves endpoint arguments ps same =
    let (built, builds) = new_endpoint_request_iff endpoint arguments in
    let (serving, fitting) = endpoint_entries-Accepts arguments ps in
    (
      λ h. serving (subst (All (λ e. Acceptable arguments e.0 e.1)) same (built h)),
      λ h. builds (subst (All (λ e. Acceptable arguments e.0 e.1)) (sym same) (fitting h)),
    )

module _ (heap : Heap) (fuel : ℕ) (op : Operation) (method path host tool_name : Bytes)
    (made : Tool × ToolConfig) (distinct : DistinctNames (present op.parameters)) where
  filled :
      (g : IsGenerated heap fuel op method path host tool_name made)
      → IsFilled (present op.parameters) no_inputs g.params
  filled g =
      add_inputs-IsFilled heap fuel op.parameters no_inputs g.params distinct
        (nil-Fresh (present op.parameters)) g.looped

  embodied :
      (g : IsGenerated heap fuel op method path host tool_name made)
      → AddsBody op.request_body g.params g.inputs
  embodied g =
      add_body-AddsBody heap fuel op.request_body g.params g.inputs g.content_type g.embodied

  pub generated-params :
      generate_mcp_tool_from_api_operation heap fuel op method path host tool_name ≡ returned made
      → made.1.endpoint.parameters ≡ endpoint_entries (present op.parameters)
  generated-params h =
      let g =
        generate_mcp_tool_from_api_operation-IsGenerated heap fuel op method path host tool_name
          made h in
      g.same_params ∙ (embodied g).same_params ∙ (filled g).params

  generated_required :
      (g : IsGenerated heap fuel op method path host tool_name made)
      → g.inputs.required_fields
        ≡ required_names (present op.parameters) ++ required_body op.request_body
  generated_required g =
      (embodied g).required
      ∙ ap (λ names. names ++ required_body op.request_body) (filled g).required

-- The arguments that the generated tool's endpoint accepts, and those that its input schema requires.
module _ (heap : Heap) (fuel : ℕ) (op : Operation) (method path host tool_name : Bytes)
    (tool : Tool) (config : ToolConfig) where
  abbrev pub Describes : Type 0
  Describes =
      ((arguments : Map)
        → (is_ok (new_endpoint_request config.endpoint arguments) ≡ true)
          ↔ All (Serves arguments) (present op.parameters))
      × (required_by tool.input_schema
          ≡ array (texts (required_names (present op.parameters) ++ required_body op.request_body)))

  -- Of an operation whose parameters have distinct names, once a tool and its configuration are
  -- generated: the request of a tool call is built exactly from the arguments that serve every
  -- parameter of the operation (a required one has an argument, and an argument fits the place of
  -- its parameter), and what the tool's input schema requires is the names of the required
  -- parameters, in order, and the body where the operation requires one.
  pub generate_mcp_tool_from_api_operation-Describes :
      DistinctNames (present op.parameters)
      → generate_mcp_tool_from_api_operation heap fuel op method path host tool_name
        ≡ returned (tool, config)
      → Describes
  generate_mcp_tool_from_api_operation-Describes distinct h =
      let g =
        generate_mcp_tool_from_api_operation-IsGenerated heap fuel op method path host tool_name
          (tool, config) h in
      let of_schema = required_by-input_schema g.inputs (
        (embodied heap fuel op method path host tool_name (tool, config) distinct g).still_closed
          (add_inputs-IsClosed heap fuel op.parameters no_inputs g.params (λ h. refl) g.looped)) in
      (
        λ arguments.
            new_endpoint_request-Serves config.endpoint arguments (present op.parameters)
              (generated-params heap fuel op method path host tool_name (tool, config) distinct h),
        ap required_by g.same_schema
            ∙ of_schema
            ∙ ap (λ names. array (texts names))
                (generated_required heap fuel op method path host tool_name (tool, config) distinct
                  g),
      )
