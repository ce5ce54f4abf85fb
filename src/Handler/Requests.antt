-- ===== src/Handler/Requests.antt =====
-- The request side of mcp_handler.go.
use envoy_mcp_openapi_proces.Common.{
  Bool, Bytes, List, Option, [], equal, err, if◌then◌else◌, none, not, ok, some, true, ◌++◌,
}
use envoy_mcp_openapi_proces.Common.Text.{codes, to_upper}
use envoy_mcp_openapi_proces.Endpoint.{
  EndpointRequest, ParamError, full_path, marshal_request_body, new_endpoint_request,
}
use envoy_mcp_openapi_proces.Era.{
  ProtocolEra, ServerInfo, encode_result, error_status, legacy_era, meta_protocol_version,
  method_discover, method_initialize, method_notifications_initialized, method_tools_list,
  negotiate_legacy_version, resolve_era, serves, supported_protocol_versions, validate_headers,
}
use envoy_mcp_openapi_proces.Headers.{McpRequestHeaders, method_tools_call}
use envoy_mcp_openapi_proces.Hosts.{HostAllowlist}
use envoy_mcp_openapi_proces.Json.{Json}
use envoy_mcp_openapi_proces.Protocol.{
  Codecs, ErrorCode, RequestId, McpResult, Message, Request, ServerCapabilities, absent, call_tool,
  code_header_mismatch, code_internal_error, code_invalid_params, code_invalid_request,
  code_method_not_found, code_parse_error, code_unsupported_protocol_version, discover, failure,
  initialize, list_tools, new_text_content, no_meta, request, response, result,
}
use envoy_mcp_openapi_proces.Registry.{ToolConfig, ToolRegistry, ToolResponseConfig, get_config}
use envoy_mcp_openapi_proces.Wire.{
  ProcessingResponse, StreamedMutation, http_status_response, new_immediate_body_response,
  new_immediate_body_response_with_status, reroute_with_body_mutation,
}

-- `extProcServer` of server.go.
pub record ExtProcServer : Type 0 where
  pub registry : ToolRegistry
  pub server_info : ServerInfo
  pub allowed_hosts : HostAllowlist

-- A refused or answered request has `immediate` responses, a tool call a rerouted body.
pub record McpProcResponse : Type 0 where
  pub id : RequestId
  pub immediate : List ProcessingResponse
  pub reroute : Option StreamedMutation
  pub tool_response_config : Option ToolResponseConfig
  pub era : Option ProtocolEra

abbrev pub answer : RequestId → List ProcessingResponse → McpProcResponse
answer id responses = record {
  id = id;
  immediate = responses;
  reroute = none;
  tool_response_config = none;
  era = none;
}

-- What is sent where even the error cannot be encoded.
abbrev pub fallback_error : Bytes
fallback_error =
    codes
      "{\"jsonrpc\":\"2.0\",\"id\":null,\"error\":{\"code\":-32603,\"message\":\"Internal error\"}}"

module _ (k : Codecs) where
  -- `data` is the marshalled error data; data that does not marshal is left out.
  unfoldable pub encode_jsonrpc_error_with_data :
      RequestId → ErrorCode → (message : Bytes) → Option Bytes → Bytes
  encode_jsonrpc_error_with_data id code message error_data =
      elim (k.encode_message id
        (failure (record { code = code; message = message; error_data = error_data }))) [
          | some buf ↦ buf
          | none ↦ fallback_error
        ]

  unfoldable pub encode_jsonrpc_error : RequestId → ErrorCode → (message : Bytes) → Bytes
  encode_jsonrpc_error id code message = encode_jsonrpc_error_with_data id code message none

  unfoldable pub error_response :
      ProtocolEra → RequestId → ErrorCode → (message : Bytes) → Option Bytes → McpProcResponse
  error_response era id code message error_data = answer id (
      new_immediate_body_response_with_status
        (encode_jsonrpc_error_with_data id code message error_data) (error_status era code))

  unfoldable pub result_response : ProtocolEra → RequestId → McpResult → McpProcResponse
  result_response era id payload = elim (encode_result k era payload) [
    | none ↦ error_response era id code_internal_error (codes "Internal error") none
    | some json ↦ elim (k.encode_message id (result json)) [
      | none ↦ error_response era id code_internal_error (codes "Internal error") none
      | some message ↦ answer id (new_immediate_body_response message)
    ]
  ]

  unfoldable pub tool_execution_error_response :
      ProtocolEra → RequestId → (client_message : Bytes) → McpProcResponse
  tool_execution_error_response era id client_message = result_response era id (
      call_tool (record {
        result_meta = no_meta;
        contents = new_text_content client_message;
        structured_content = none;
        is_error = true;
      }))

  abbrev pub server_capabilities : ServerCapabilities
  server_capabilities = record { tools = true }

  unfoldable pub handle_discover : ExtProcServer → ProtocolEra → Request → McpProcResponse
  handle_discover s era req = result_response era req.id (
      discover (record {
        result_meta = no_meta;
        supported_versions = supported_protocol_versions;
        capabilities = server_capabilities;
        instructions = s.server_info.instructions;
        cacheable = record { ttl_ms = 0; cache_scope = [] };
      }))

  unfoldable pub handle_initialize : ExtProcServer → ProtocolEra → Request → McpProcResponse
  handle_initialize s era req = elim (k.unmarshal_initialize req.params) [
    | err e ↦ error_response era req.id code_invalid_params (codes "Invalid params: " ++ e) none
    | ok client_version ↦ result_response era req.id (
        initialize (record {
          protocol_version = negotiate_legacy_version client_version;
          server_info = record { name = s.server_info.name; version = s.server_info.version };
          capabilities = server_capabilities;
          instructions = s.server_info.instructions;
        }))
  ]

  -- The call of a tool that is known and whose arguments fit.
  unfoldable pub reroute_call :
      ProtocolEra
      → RequestId
      → ToolConfig
      → EndpointRequest
      → (body : Bytes) → List Bytes
      → McpProcResponse
  reroute_call era id config r body strip_headers = record {
    id = id;
    immediate = [];
    reroute = some (
        reroute_with_body_mutation config.endpoint.host (to_upper config.endpoint.method)
          (full_path k.query_encode r) body r.extra_headers strip_headers);
    tool_response_config = some config.response_config;
    era = some era;
  }

  abbrev pub invalid_argument : ParamError → Bytes
  invalid_argument e =
      codes "Invalid argument " ++ (k.quote e.param_name ++ (codes ": " ++ e.reason))

  unfoldable pub call_endpoint :
      ProtocolEra → RequestId → ToolConfig → List (Bytes × Json) → List Bytes → McpProcResponse
  call_endpoint era id config arguments strip_headers =
      elim (new_endpoint_request config.endpoint arguments) [
        | err e ↦ tool_execution_error_response era id (invalid_argument e)
        | ok r ↦ elim (marshal_request_body k.marshal_json config.endpoint arguments) [
          | err e ↦
              tool_execution_error_response era id
                (codes "Failed to serialize 'body' argument: " ++ e)
          | ok body ↦ reroute_call era id config r body strip_headers
        ]
      ]

  unfoldable pub handle_tool_call :
      ExtProcServer → ProtocolEra → Request → List Bytes → McpProcResponse
  handle_tool_call s era req strip_headers = elim (k.unmarshal_call req.params) [
    | err e ↦ error_response era req.id code_invalid_params (codes "Invalid params: " ++ e) none
    | ok (name, arguments) ↦ elim (get_config s.registry name) [
      | none ↦ error_response era req.id code_invalid_params (codes "Unknown tool: " ++ name) none
      | some config ↦ call_endpoint era req.id config arguments strip_headers
    ]
  ]

  abbrev pub method_not_found : ProtocolEra → Request → McpProcResponse
  method_not_found era req =
      error_response era req.id code_method_not_found (codes "Method not found") none

  -- The switch on the method.
  unfoldable pub dispatch :
      ExtProcServer → ProtocolEra → Request → McpRequestHeaders → McpProcResponse
  dispatch s era req hdrs =
      if equal req.method method_initialize
      then handle_initialize s era req
      else if equal req.method method_notifications_initialized
      then answer req.id (http_status_response 202)
      else if equal req.method method_discover
      then handle_discover s era req
      else if equal req.method method_tools_list
      then result_response era req.id (
          list_tools (record { result_meta = no_meta; cacheable = none; tools = s.registry.tools }))
      else if equal req.method method_tools_call
      then handle_tool_call s era req hdrs.param_header_names
      else method_not_found era req

  -- The checks of a request whose era is resolved.
  unfoldable pub handle_in_era :
      ExtProcServer
      → Request
      → (declared : Bytes) → McpRequestHeaders
      → ProtocolEra × Bytes × Bool
      → McpProcResponse
  handle_in_era s req declared hdrs (era, requested, served) =
      if not served
      then error_response era req.id code_unsupported_protocol_version
          (codes "Unsupported protocol version: " ++ requested)
          (k.marshal_versions supported_protocol_versions requested)
      else if not (serves era req.method)
      then method_not_found era req
      else elim (validate_headers k era req declared hdrs) [
        | some message ↦ error_response era req.id code_header_mismatch message none
        | none ↦ dispatch s era req hdrs
      ]

  unfoldable pub handle_request : ExtProcServer → Request → McpRequestHeaders → McpProcResponse
  handle_request s req hdrs =
      let declared = meta_protocol_version k req.params in
      handle_in_era s req declared hdrs
        (resolve_era s.server_info req.method declared hdrs.protocol_version)

  -- The decoded message, `none` where it does not decode.
  abbrev pub handle_message : ExtProcServer → McpRequestHeaders → Option Message → McpProcResponse
  handle_message s hdrs none =
      error_response legacy_era absent code_parse_error (codes "Parse error") none
  handle_message s hdrs (some response) =
      error_response legacy_era absent code_invalid_request (codes "Invalid Request") none
  handle_message s hdrs (some (request req)) = handle_request s req hdrs

  unfoldable pub mcp_request_handler :
      ExtProcServer → (body : Bytes) → McpRequestHeaders → McpProcResponse
  mcp_request_handler s body hdrs = handle_message s hdrs (k.decode_message body)
