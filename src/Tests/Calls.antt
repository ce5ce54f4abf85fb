-- ===== src/Tests/Calls.antt =====
-- What the handler makes of the call.
use envoy_mcp_openapi_proces.Common.{
  Bytes, List, [], equal, insert, lookup, ok, refl, some, true, ◌∷◌, ◌≡◌,
}
use envoy_mcp_openapi_proces.Common.Text.{
  codes, has_prefix, lower_byte, to_lower, to_upper, upper_byte,
}
use envoy_mcp_openapi_proces.Endpoint.{
  EndpointRequest, apply_config, apply_endpoint_argument, apply_parameter, apply_parameters,
  apply_path, full_path, initial_headers, json_scalar_to_string, marshal_request_body,
  new_endpoint_request, param_in_of, replace_all, replace_from, required_of, scalar_param_string,
}
use envoy_mcp_openapi_proces.Era.{
  is_modern_version, legacy_era, meta_protocol_version, resolve_era, resolve_requested, serves,
  validate_headers,
}
use envoy_mcp_openapi_proces.Handler.{
  McpProcResponse, call_endpoint, dispatch, handle_in_era, handle_request, handle_tool_call,
  mcp_request_handler, reroute_call,
}
use envoy_mcp_openapi_proces.Json.{Json, fields, string}
use envoy_mcp_openapi_proces.Protocol.{numeric}
use envoy_mcp_openapi_proces.Registry.{get_config, supports_body}
use envoy_mcp_openapi_proces.Std.Decimal.{pos}
use envoy_mcp_openapi_proces.Std.Order.{lt_bytes}
use envoy_mcp_openapi_proces.Tests.Sample.{
  codecs, get_user, get_user_7, get_user_config, no_headers, server,
}

abbrev pub forwarded_call : McpProcResponse
forwarded_call = record {
  id = numeric (pos 1);
  immediate = [];
  reroute = some get_user_7;
  tool_response_config = some (record { use_structured_output = true });
  era = some legacy_era;
}

abbrev arguments_7 : List (Bytes × Json)
arguments_7 = (codes "id", string (codes "7")) ∷ []

abbrev request_7 : EndpointRequest
request_7 = record {
  path = codes "/users/7";
  query_params = [];
  extra_headers = (codes "accept", codes "*/*") ∷ [];
}

built : new_endpoint_request get_user arguments_7 ≡ ok request_7
unfolding new_endpoint_request apply_parameters lookup insert equal has_prefix apply_config
    apply_endpoint_argument apply_parameter apply_path initial_headers json_scalar_to_string
    param_in_of replace_all replace_from required_of scalar_param_string fields
built = refl

sends_no_body : marshal_request_body codecs.marshal_json get_user arguments_7 ≡ ok []
unfolding marshal_request_body supports_body equal lower_byte to_lower
sends_no_body = refl

rerouted :
    reroute_call codecs legacy_era (numeric (pos 1)) get_user_config request_7 [] []
    ≡ forwarded_call
unfolding reroute_call full_path to_upper upper_byte
rerouted = refl

called :
    call_endpoint codecs legacy_era (numeric (pos 1)) get_user_config arguments_7 []
    ≡ forwarded_call
unfolding call_endpoint
called = rw (built, call_endpoint) (rw (sends_no_body, call_endpoint) rerouted)

pub forwards : (body : Bytes) → mcp_request_handler codecs server body no_headers ≡ forwarded_call
unfolding mcp_request_handler handle_request handle_in_era resolve_era equal resolve_requested
    is_modern_version lt_bytes meta_protocol_version serves validate_headers dispatch
    handle_tool_call get_config lookup
forwards [] = called
forwards (c ∷ body) = called
