-- ===== src/OpenApi/Tools.antt =====
-- `generateMCPToolFromApiOperation` of openapi.go, and the functions that it calls. `fuel` is the
-- depth of the recursion into schemas; a call that needs more has not returned.
use envoy_mcp_openapi_proces.Common.{
  Bool, Bytes, Call, List, Option, [], false, if◌then◌else◌, insert, is_empty, is_some, lookup,
  none, panicked, returned, some, ℕ, ◌++◌, ◌>>=◌, ◌||◌, ◌∷◌,
}
use envoy_mcp_openapi_proces.Common.Text.{codes, has_prefix, to_lower}
use envoy_mcp_openapi_proces.Json.{
  Json, array, boolean, field, no_fields, object, string, to_fields,
}
use envoy_mcp_openapi_proces.OpenApi.Document.{
  Content, Heap, Operation, Parameter, RequestBody, Schema, SchemaRef,
}
use envoy_mcp_openapi_proces.OpenApi.Responses.{find_json_schema_from_responses}
use envoy_mcp_openapi_proces.OpenApi.Schemas.{Map, open_api_schema_to_map, texts, with_description}
use envoy_mcp_openapi_proces.Registry.{Tool, ToolConfig}

-- The texts with blanks between them.
unfoldable pub join_blank : List Bytes → Bytes
join_blank [] = []
join_blank (s ∷ []) = s
join_blank (s ∷ (t ∷ ts)) = s ++ (b' ' ∷ join_blank (t ∷ ts))

-- `strings.Contains`
unfoldable pub contains : Bytes → Bytes → Bool
contains [] part = is_empty part
contains (c ∷ s) part = has_prefix (c ∷ s) part || contains s part

-- `fmt.Sprint` of the pointer to the types prints them in brackets after an ampersand.
unfoldable pub is_top_level_object_schema : Schema → Bool
is_top_level_object_schema s = elim s.types [
  | none ↦ false
  | some types ↦ contains (codes "&[" ++ (join_blank types ++ codes "]")) (codes "object")
]

-- The description is set where the map has none.
unfoldable pub describe : Bytes → Map → Map
describe phrase m =
    if is_some (lookup (codes "description") m)
    then m
    else insert (codes "description") (string phrase) m

-- The variables of `generateMCPToolFromApiOperation` that its loop fills.
pub record Inputs : Type 0 where
  pub schema_props : Map
  pub required_fields : List Bytes
  pub endpoint_params : Map

abbrev pub no_inputs : Inputs
no_inputs = record { schema_props = []; required_fields = []; endpoint_params = [] }

-- What `newEndpointRequest` reads of a parameter.
abbrev pub endpoint_param : Parameter → Json
endpoint_param p = object (
    field (codes "in") (string p.param_in)
      (field (codes "required") (boolean p.required) no_fields))

unfoldable pub add_input : Parameter → Inputs → Map → Inputs
add_input p st schema = record {
  schema_props = insert p.name (object (to_fields schema)) st.schema_props;
  required_fields = if p.required then st.required_fields ++ p.name ∷ [] else st.required_fields;
  endpoint_params = insert p.name (endpoint_param p) st.endpoint_params;
}

abbrev pub request_body_description : Bytes
request_body_description = codes "Request body"

abbrev pub default_body_schema : Map
default_body_schema =
    (codes "type", string (codes "object"))
    ∷ (codes "description", string request_body_description)
    ∷ []

-- The inputs with the request body among them, and the content type.
abbrev pub with_body : RequestBody → Bytes → Map → Inputs → Inputs × Bytes
with_body body content_type schema st = (
  record st {
    schema_props = insert (codes "body") (object (to_fields schema)) st.schema_props;
    required_fields =
        if body.required then st.required_fields ++ codes "body" ∷ [] else st.required_fields;
  },
  content_type,
)

unfoldable pub input_schema : Inputs → Json
input_schema st =
    if is_empty st.schema_props
    then object (
        to_fields (
          (codes "type", string (codes "object"))
          ∷ (codes "additionalProperties", boolean false)
          ∷ []))
    else object (
        to_fields (
          (codes "type", string (codes "object"))
          ∷ (codes "properties", object (to_fields st.schema_props))
          ∷ (codes "required", array (texts st.required_fields))
          ∷ []))

module _ (heap : Heap) (fuel : ℕ) where
  unfoldable pub open_api_parameter_to_schema : Parameter → Call Map
  open_api_parameter_to_schema p =
      elim p.schema [
        | none ↦ returned []
        | some none ↦ returned []
        | some (some a) ↦ open_api_schema_to_map heap fuel a
      ]
      >>= λ m. returned (with_description p.description m)

  -- The loop over the parameters; a nil one panics.
  unfoldable pub add_inputs : List (Option Parameter) → Inputs → Call Inputs
  add_inputs [] st = returned st
  add_inputs (none ∷ more) st = panicked
  add_inputs (some p ∷ more) st =
      open_api_parameter_to_schema p >>= λ schema. add_inputs more (add_input p st schema)

  -- A media type that is nil, or has no schema, panics.
  unfoldable pub body_schema : Option SchemaRef → Call Map
  body_schema none = panicked
  body_schema (some none) = panicked
  body_schema (some (some none)) = returned default_body_schema
  body_schema (some (some (some a))) =
      open_api_schema_to_map heap fuel a >>= λ m. returned (describe request_body_description m)

  -- A reference to a nil request body panics.
  unfoldable pub add_body : Option (Option RequestBody) → Inputs → Call (Inputs × Bytes)
  add_body none st = returned (st, [])
  add_body (some none) st = panicked
  add_body (some (some body)) st = elim (lookup (codes "application/json") body.content) [
    | none ↦ returned (with_body body [] default_body_schema st)
    | some media ↦ body_schema media >>= λ schema.
        returned (with_body body (codes "application/json") schema st)
  ]

  unfoldable pub output_schema : List (Bytes × Option Content) → Call (Option Json)
  output_schema responses = elim (find_json_schema_from_responses responses) [
    | none ↦ returned none
    | some a ↦
        if is_top_level_object_schema (heap a)
        then (open_api_schema_to_map heap fuel a >>= λ m.
            returned (some (object (to_fields (describe (codes "API response object") m)))))
        else returned none
  ]

  unfoldable pub generate_mcp_tool_from_api_operation :
      Operation → (method path host tool_name : Bytes) → Call (Tool × ToolConfig)
  generate_mcp_tool_from_api_operation op method path host tool_name =
      add_inputs op.parameters no_inputs >>= λ params.
      add_body op.request_body params >>= λ (inputs, content_type).
      output_schema op.responses >>= λ output. returned (
        record {
          name = tool_name;
          title = op.summary;
          description = op.description;
          input_schema = input_schema inputs;
          output_schema = output;
        },
        record {
          endpoint = record {
            host = host;
            method = to_lower method;
            path_template = path;
            parameters = inputs.endpoint_params;
            content_type = content_type;
          };
          response_config = record { use_structured_output = false };
        },
      )
