-- ===== src/Handler/Responses.antt =====
-- The response side of mcp_handler.go.
use envoy_mcp_openapi_proces.Common.{
  Bool, Bytes, List, Option, [], false, if◌then◌else◌, is_empty, is_some, leb, length, none, not,
  some, zero, ◌&&◌, ◌++◌, ◌==◌, ◌||◌,
}
use envoy_mcp_openapi_proces.Common.Text.{codes}
use envoy_mcp_openapi_proces.Era.{ProtocolEra, encode_result, legacy_era}
use envoy_mcp_openapi_proces.Handler.Requests.{encode_jsonrpc_error}
use envoy_mcp_openapi_proces.Handler.StatusText.{status_text}
use envoy_mcp_openapi_proces.Hosts.{find_header}
use envoy_mcp_openapi_proces.Protocol.{
  CallToolResult, Codecs, RequestId, call_tool, code_internal_error, is_valid, new_text_content,
  no_meta, result,
}
use envoy_mcp_openapi_proces.Registry.{ToolResponseConfig}
use envoy_mcp_openapi_proces.Std.Decimal.{atoi, int_text, itoa, negsuc, pos, ℤ}
use envoy_mcp_openapi_proces.Wire.{
  HeaderValue, HeaderValueOption, ProcessingResponse, StreamedMutation, append_header,
  content_headers, header_mutation, new_replaced_response, response_factory,
}

-- `requestContext` of stream_state.go.
pub record RequestContext : Type 0 where
  pub jsonrpc_id : RequestId
  pub tool_response_config : Option ToolResponseConfig
  pub upstream_status_code : ℤ
  pub era : Option ProtocolEra

unfoldable pub protocol_era : RequestContext → ProtocolEra
protocol_era rc = elim rc.era [ none ↦ legacy_era | some era ↦ era ]

unfoldable pub is_tool_call : RequestContext → Bool
is_tool_call rc = is_valid rc.jsonrpc_id && is_some rc.tool_response_config

unfoldable pub is_http_error_status : ℤ → Bool
is_http_error_status (pos code) = code == 0 || leb 400 code
is_http_error_status (negsuc n) = false

unfoldable pub parse_upstream_status_code : List HeaderValue → Option ℤ
parse_upstream_status_code headers = elim (find_header headers (codes ":status")) [
  | none ↦ none
  | some value ↦ atoi value
]

unfoldable pub describe_empty_upstream_response : ℤ → Bytes
describe_empty_upstream_response (pos zero) =
    codes "API returned an unknown status with no response body."
describe_empty_upstream_response code =
    let name = status_text code in
    codes "API returned HTTP "
    ++ (int_text code
        ++ (codes " ("
            ++ ((if is_empty name then codes "Unknown Status" else name)
                ++ codes ") with no response body.")))

-- The result that the tool call is answered with.
unfoldable pub upstream_result :
    (config : ToolResponseConfig) → (is_error json_valid : Bool) → Bytes → CallToolResult
upstream_result config is_error json_valid body = record {
  result_meta = no_meta;
  contents = new_text_content body;
  structured_content =
      if config.use_structured_output && json_valid && not is_error then some body else none;
  is_error = is_error;
}

module _ (k : Codecs) where
  -- `none` for an error, whose text is only traced.
  unfoldable pub build_mcp_response :
      RequestContext → (body : Bytes) → (is_error : Bool) → Option Bytes
  build_mcp_response rc body is_error =
      if not (is_valid rc.jsonrpc_id) then none else elim rc.tool_response_config [
        | none ↦ none
        | some config ↦
            elim (encode_result k (protocol_era rc)
              (call_tool (upstream_result config is_error (k.json_is_valid body) body))) [
                | none ↦ none
                | some json ↦ k.encode_message rc.jsonrpc_id (result json)
              ]
      ]

  unfoldable pub response_bytes : RequestContext → Bytes → Bytes
  response_bytes rc body =
      elim (build_mcp_response rc body (is_http_error_status rc.upstream_status_code)) [
        | some buf ↦ buf
        | none ↦ encode_jsonrpc_error k rc.jsonrpc_id code_internal_error (codes "Internal error")
      ]

  abbrev pub payload_headers : Bytes → List HeaderValueOption
  payload_headers buf =
      append_header (append_header [] (codes "content-type") (codes "application/json"))
        (codes "content-length") (itoa (length buf))

  unfoldable pub build_mcp_response_payload :
      RequestContext → Bytes → Bytes × List HeaderValueOption
  build_mcp_response_payload rc body =
      let buf = response_bytes rc body in (buf, payload_headers buf)

  unfoldable pub build_end_of_stream_response : RequestContext → List ProcessingResponse
  build_end_of_stream_response rc =
      let (buf, headers) =
        build_mcp_response_payload rc (describe_empty_upstream_response rc.upstream_status_code) in
      new_replaced_response headers buf

  unfoldable pub mcp_response_handler : RequestContext → Bytes → StreamedMutation
  mcp_response_handler rc body =
      let (buf, headers) = build_mcp_response_payload rc body in
      record { headers = header_mutation response_factory headers content_headers; body = buf }
