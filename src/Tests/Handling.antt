-- ===== src/Tests/Handling.antt =====
-- One tool call, handled and answered.
use envoy_mcp_openapi_proces.Common.{Bytes, [], ap, arith, equal, length, refl, some, true, ◌≡◌}
use envoy_mcp_openapi_proces.Common.Text.{codes}
use envoy_mcp_openapi_proces.Era.{
  encode_result, is_modern_version, meta_protocol_version, resolve_era, resolve_requested,
}
use envoy_mcp_openapi_proces.Handler.{
  build_mcp_response, build_mcp_response_payload, handle_request, is_http_error_status,
  mcp_request_handler, mcp_response_handler, protocol_era, response_bytes, upstream_result,
}
use envoy_mcp_openapi_proces.Handler.Answering.{
  Answers, json_headers, mcp_response_handler-Answers, mcp_response_handler_content_length,
}
use envoy_mcp_openapi_proces.Handler.Dispatching.{
  IsShaped, LegacyStatus, ModernStatus, legacy_handle_request-IsShaped,
  mcp_request_handler-IsShaped,
}
use envoy_mcp_openapi_proces.Handler.ToolCalls.{Forwarded, mcp_request_handler-Forwarded}
use envoy_mcp_openapi_proces.Protocol.{Request, numeric}
use envoy_mcp_openapi_proces.Std.Decimal.{atoi, pos}
use envoy_mcp_openapi_proces.Std.Order.{lt_bytes}
use envoy_mcp_openapi_proces.Tests.Calls.{forwards}
use envoy_mcp_openapi_proces.Tests.Sample.{call_context, codecs, get_user_7, no_headers, server}
use envoy_mcp_openapi_proces.Wire.{content_headers, header_mutation, response_factory}

mcp_request_handler-IsShaped_example :
    IsShaped ModernStatus (mcp_request_handler codecs server (codes "body") no_headers)
mcp_request_handler-IsShaped_example =
    mcp_request_handler-IsShaped codecs server (codes "body") no_headers

abbrev tools_list : Request
tools_list = record { id = numeric (pos 2); method = codes "tools/list"; params = [] }

legacy_handle_request-IsShaped_example :
    IsShaped LegacyStatus (handle_request codecs server tools_list no_headers)
unfolding resolve_era equal resolve_requested is_modern_version lt_bytes meta_protocol_version
legacy_handle_request-IsShaped_example =
    legacy_handle_request-IsShaped codecs server tools_list no_headers refl

mcp_request_handler-Forwarded_example : Forwarded codecs server (codes "body") no_headers get_user_7
mcp_request_handler-Forwarded_example =
    mcp_request_handler-Forwarded codecs server (codes "body") no_headers get_user_7
      (ap (λ r. r.reroute) (forwards (codes "body")))

mcp_response_handler-Answers_example :
    Answers codecs call_context
      (record { use_structured_output = true })
      (codes "{}")
      (codes "message")
      (upstream_result
        (record { use_structured_output = true })
        (is_http_error_status (pos 200))
        true
        (codes "{}"))
unfolding encode_result protocol_era
mcp_response_handler-Answers_example =
    mcp_response_handler-Answers codecs call_context (record { use_structured_output = true })
      (codes "{}") (codes "result") (codes "message") refl refl refl refl

mcp_response_handler_content_length_example :
    (value : Bytes) × ((mcp_response_handler codecs call_context (codes "{}")).headers
      ≡ header_mutation response_factory (json_headers value) content_headers)
    × (atoi value
        ≡ some (pos (length (mcp_response_handler codecs call_context (codes "{}")).body)))
unfolding mcp_response_handler build_mcp_response_payload response_bytes build_mcp_response
    encode_result protocol_era
mcp_response_handler_content_length_example =
    mcp_response_handler_content_length codecs call_context (codes "{}") (omega arith)
