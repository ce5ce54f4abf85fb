-- ===== src/Endpoint.antt =====
-- endpoint_request.go: the upstream request of a tool call, from the endpoint and the arguments.
-- `query_encode` stands for `url.Values.Encode`.
pub mod Replacing
pub mod Building
use envoy_mcp_openapi_proces.Common.{
  Bool, Bytes, List, Option, Result, [], equal, err, false, if◌then◌else◌, insert, is_empty, length,
  lookup, none, not, ok, some, suc, true, zero, ℕ, ◌++◌, ◌-◌, ◌∷◌,
}
use envoy_mcp_openapi_proces.Common.Text.{codes, has_prefix}
use envoy_mcp_openapi_proces.Json.{
  Items, Json, array, boolean, fields, item, no_items, null, number, object, string,
}
use envoy_mcp_openapi_proces.Registry.{Endpoint, supports_body}

pub record ParamError : Type 0 where
  pub param_in : Bytes
  pub param_name : Bytes
  pub reason : Bytes

pub record EndpointRequest : Type 0 where
  pub path : Bytes
  pub query_params : List (Bytes × List Bytes)
  pub extra_headers : List (Bytes × Bytes)

-- `fmt.Sprintf("%v")` of a text, a number or a truth value.
unfoldable pub json_scalar_to_string : Json → Option Bytes
json_scalar_to_string (string s) = some s
json_scalar_to_string (number n) = some n
json_scalar_to_string (boolean true) = some (codes "true")
json_scalar_to_string (boolean false) = some (codes "false")
json_scalar_to_string null = none
json_scalar_to_string (array vs) = none
json_scalar_to_string (object fs) = none

unfoldable pub scalar_param_string : (param_in param_name : Bytes) → Json → Result ParamError Bytes
scalar_param_string param_in param_name value = elim (json_scalar_to_string value) [
  | some s ↦ ok s
  | none ↦ err (record {
    param_in = param_in;
    param_name = param_name;
    reason = codes "must be a scalar value";
  })
]

-- The loop over the elements of an array.
unfoldable pub element_values : Bytes → Items → Result ParamError (List Bytes)
element_values param_name no_items = ok []
element_values param_name (item v vs) = elim (json_scalar_to_string v) [
  | some s ↦ elim (element_values param_name vs) [ ok more ↦ ok (s ∷ more) | err e ↦ err e ]
  | none ↦ err (record {
    param_in = codes "query";
    param_name = param_name;
    reason = codes "array elements must be scalar values";
  })
]

abbrev pub single_value : Bytes → Option Bytes → Result ParamError (List Bytes)
single_value param_name (some s) = ok (s ∷ [])
single_value param_name none = err (record {
  param_in = codes "query";
  param_name = param_name;
  reason = codes "must be a scalar value or array of scalars";
})

unfoldable pub query_param_values : Bytes → Json → Result ParamError (List Bytes)
query_param_values param_name (array vs) = element_values param_name vs
query_param_values param_name (string s) =
    single_value param_name (json_scalar_to_string (string s))
query_param_values param_name (number n) =
    single_value param_name (json_scalar_to_string (number n))
query_param_values param_name (boolean b) =
    single_value param_name (json_scalar_to_string (boolean b))
query_param_values param_name null = single_value param_name (json_scalar_to_string null)
query_param_values param_name (object fs) =
    single_value param_name (json_scalar_to_string (object fs))

-- `strings.ReplaceAll` for a nonempty `old`; `skip` bytes of an occurrence are still to be passed.
unfoldable pub replace_from : (old new : Bytes) → ℕ → Bytes → Bytes
replace_from old new skip [] = []
replace_from old new (suc skip) (c ∷ s) = replace_from old new skip s
replace_from old new zero (c ∷ s) =
    let found = has_prefix (c ∷ s) old in
    let rest = replace_from old new (if found then length old - 1 else 0) s in
    if found then new ++ rest else c ∷ rest

unfoldable pub replace_all : (s old new : Bytes) → Bytes
replace_all s old new = replace_from old new 0 s

-- `url.Values.Add`, in the order of first use of the keys.
unfoldable pub add_query_value :
    Bytes → List (Bytes × List Bytes) → Bytes → List (Bytes × List Bytes)
add_query_value key params value = elim (lookup key params) [
  | none ↦ insert key (value ∷ []) params
  | some values ↦ insert key (values ++ value ∷ []) params
]

unfoldable pub add_query_values :
    Bytes → List (Bytes × List Bytes) → List Bytes → List (Bytes × List Bytes)
add_query_values key params [] = params
add_query_values key params (v ∷ vs) = add_query_values key (add_query_value key params v) vs

abbrev pub placeholder : Bytes → Bytes
placeholder name = b'{' ∷ (name ++ codes "}")

unfoldable pub apply_path : EndpointRequest → Bytes → Bytes → EndpointRequest
apply_path r name str = record r { path = replace_all r.path (placeholder name) str }

unfoldable pub apply_endpoint_argument :
    EndpointRequest → (param_in param_name : Bytes) → Json → Result ParamError EndpointRequest
apply_endpoint_argument r param_in name value =
    if equal param_in (codes "path")
    then elim (scalar_param_string param_in name value) [
      | ok str ↦ ok (apply_path r name str)
      | err e ↦ err e
    ]
    else if equal param_in (codes "query")
    then elim (query_param_values name value) [
      | ok values ↦ ok (record r { query_params = add_query_values name r.query_params values })
      | err e ↦ err e
    ]
    else if equal param_in (codes "header")
    then elim (scalar_param_string param_in name value) [
      | ok str ↦ ok (record r { extra_headers = insert name str r.extra_headers })
      | err e ↦ err e
    ]
    else ok r

-- `paramMap["in"].(string)`: empty where it is not a text.
unfoldable pub param_in_of : List (Bytes × Json) → Bytes
param_in_of config = elim (lookup (codes "in") config) [
  | some (string s) ↦ s
  | some _ ↦ []
  | none ↦ []
]

unfoldable pub required_of : List (Bytes × Json) → Bool
required_of config = elim (lookup (codes "required") config) [
  | some (boolean b) ↦ b
  | some _ ↦ false
  | none ↦ false
]

-- One round of the loop, for a configuration that is an object.
unfoldable pub apply_parameter :
    List (Bytes × Json)
    → EndpointRequest
    → Bytes
    → List (Bytes × Json)
    → Result ParamError EndpointRequest
apply_parameter arguments r name config = elim (lookup name arguments) [
  | some value ↦ apply_endpoint_argument r (param_in_of config) name value
  | none ↦
      if required_of config
      then err (record {
        param_in = param_in_of config;
        param_name = name;
        reason = codes "required but missing";
      })
      else ok r
]

unfoldable pub apply_config :
    List (Bytes × Json) → EndpointRequest → Bytes → Json → Result ParamError EndpointRequest
apply_config arguments r name (object fs) = apply_parameter arguments r name (fields fs)
apply_config arguments r name _ = ok r

-- The loop over the parameters, in one order of the map.
unfoldable pub apply_parameters :
    List (Bytes × Json) → EndpointRequest → List (Bytes × Json) → Result ParamError EndpointRequest
apply_parameters arguments r [] = ok r
apply_parameters arguments r ((name, config) ∷ more) = elim (apply_config arguments r name config) [
  | ok r' ↦ apply_parameters arguments r' more
  | err e ↦ err e
]

unfoldable pub initial_headers : Bytes → List (Bytes × Bytes)
initial_headers content_type =
    let accept = (codes "accept", codes "*/*") ∷ [] in
    if equal content_type [] then accept else insert (codes "content-type") content_type accept

unfoldable pub new_endpoint_request :
    Endpoint → List (Bytes × Json) → Result ParamError EndpointRequest
new_endpoint_request endpoint arguments =
    apply_parameters arguments
      (record {
        path = endpoint.path_template;
        query_params = [];
        extra_headers = initial_headers endpoint.content_type;
      })
      endpoint.parameters

unfoldable pub full_path : (List (Bytes × List Bytes) → Bytes) → EndpointRequest → Bytes
full_path query_encode r =
    if is_empty r.query_params then r.path else r.path ++ (codes "?" ++ query_encode r.query_params)

-- `json.Marshal` is a parameter; its error is given by its text.
unfoldable pub marshal_request_body :
    (Json → Result Bytes Bytes) → Endpoint → List (Bytes × Json) → Result Bytes Bytes
marshal_request_body marshal endpoint arguments =
    if not (supports_body endpoint)
    then ok []
    else elim (lookup (codes "body") arguments) [ none ↦ ok [] | some value ↦ marshal value ]
