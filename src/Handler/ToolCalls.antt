-- ===== src/Handler/ToolCalls.antt =====
-- When a request is forwarded to the upstream.
use envoy_mcp_openapi_proces.Common.{
  Bytes, List, Option, none, ok, refl, some, subst, sym, true, ◌≡◌,
}
use envoy_mcp_openapi_proces.Common.Text.{codes, to_upper}
use envoy_mcp_openapi_proces.Endpoint.{
  EndpointRequest, full_path, marshal_request_body, new_endpoint_request,
}
use envoy_mcp_openapi_proces.Era.{
  ProtocolEra, legacy_era, meta_protocol_version, resolve_era, validate_headers,
}
use envoy_mcp_openapi_proces.Handler.Requests.{
  ExtProcServer, handle_message, handle_request, mcp_request_handler,
}
use envoy_mcp_openapi_proces.Handler.Rerouting.{
  dispatch_reroute, error_response_reroute, handle_in_era_reroute, handle_tool_call-Called,
}
use envoy_mcp_openapi_proces.Headers.{McpRequestHeaders, method_tools_call}
use envoy_mcp_openapi_proces.Json.{Json}
use envoy_mcp_openapi_proces.Protocol.{
  Codecs, Message, Request, absent, code_invalid_request, code_parse_error, request, response,
}
use envoy_mcp_openapi_proces.Registry.{ToolConfig, get_config}
use envoy_mcp_openapi_proces.Wire.{StreamedMutation, reroute_with_body_mutation}
use envoy_mcp_openapi_proces.Wire.Routing.{IsRouted, reroute_with_body_mutation-IsRouted}

pub record Forwarded (k : Codecs) (s : ExtProcServer) (body : Bytes) (hdrs : McpRequestHeaders)
    (m : StreamedMutation) : Type 0 where
  pub req : Request
  pub decoded : k.decode_message body ≡ some (request req)
  pub tool_call : req.method ≡ method_tools_call
  pub era : ProtocolEra
  pub requested : Bytes
  pub served :
      resolve_era s.server_info req.method
        (meta_protocol_version k req.params)
        hdrs.protocol_version
      ≡ (era, requested, true)
  pub valid_headers : validate_headers k era req (meta_protocol_version k req.params) hdrs ≡ none
  pub name : Bytes
  pub arguments : List (Bytes × Json)
  pub params : k.unmarshal_call req.params ≡ ok (name, arguments)
  pub config : ToolConfig
  pub registered : get_config s.registry name ≡ some config
  pub endpoint_request : EndpointRequest
  pub built : new_endpoint_request config.endpoint arguments ≡ ok endpoint_request
  pub request_body : Bytes
  pub marshalled : marshal_request_body k.marshal_json config.endpoint arguments ≡ ok request_body
  pub sent :
      m
      ≡ reroute_with_body_mutation config.endpoint.host
          (to_upper config.endpoint.method)
          (full_path k.query_encode endpoint_request)
          request_body
          endpoint_request.extra_headers
          hdrs.param_header_names
  pub routed :
      IsRouted config.endpoint.host
        (to_upper config.endpoint.method)
        (full_path k.query_encode endpoint_request)
        request_body
        endpoint_request.extra_headers
        hdrs.param_header_names
        m

handle_request-Forwarded :
    (k : Codecs) (s : ExtProcServer) (body : Bytes) (req : Request) (hdrs : McpRequestHeaders)
    {m : StreamedMutation}
    → k.decode_message body ≡ some (request req)
    → (handle_request k s req hdrs).reroute ≡ some m
    → Forwarded k s body hdrs m
unfolding handle_request
handle_request-Forwarded k s body req hdrs decoded h =
    let declared = meta_protocol_version k req.params in
    let out = resolve_era s.server_info req.method declared hdrs.protocol_version in
    let (served, valid, h1) = handle_in_era_reroute k out.0 s req declared hdrs out.1 out.2 h in
    let (call, h2) = dispatch_reroute k out.0 s req hdrs h1 in
    let c = handle_tool_call-Called k out.0 s req hdrs.param_header_names h2 in
    record {
      req = req;
      decoded = decoded;
      tool_call = call;
      era = out.0;
      requested = out.1;
      served = λ i. (out.0, out.1, served i);
      valid_headers = valid;
      name = c.name;
      arguments = c.arguments;
      params = c.decoded;
      config = c.config;
      registered = c.registered;
      endpoint_request = c.endpoint_request;
      built = c.built;
      request_body = c.request_body;
      marshalled = c.marshalled;
      sent = c.sent;
      routed =
          subst
            (IsRouted c.config.endpoint.host (to_upper c.config.endpoint.method)
              (full_path k.query_encode c.endpoint_request) c.request_body
              c.endpoint_request.extra_headers hdrs.param_header_names)
            (sym c.sent) (reroute_with_body_mutation-IsRouted _ _ _ _ _ _);
    }

-- Only a tool call is forwarded: the body decodes to a request for tools/call of a version that is
-- served, whose headers pass the check of its era; it names a registered tool, its arguments make
-- a request for that tool's endpoint. What is sent overwrites the headers: after all settings in
-- order `:authority` is the endpoint's host, `:method` its method, `:path` the path and query of
-- that request, and any other header the last value that the request gives it, if it gives one.
-- Exactly the content headers, the three MCP headers and the captured parameter headers are
-- removed, and the body is that of the request.
pub mcp_request_handler-Forwarded :
    (k : Codecs) (s : ExtProcServer) (body : Bytes) (hdrs : McpRequestHeaders)
    (m : StreamedMutation)
    → (mcp_request_handler k s body hdrs).reroute ≡ some m
    → Forwarded k s body hdrs m
unfolding mcp_request_handler
mcp_request_handler-Forwarded k s body hdrs m = from_message (k.decode_message body) refl
  where
    from_message :
        (o : Option Message)
        → k.decode_message body ≡ o
        → (handle_message k s hdrs o).reroute ≡ some m
        → Forwarded k s body hdrs m
    from_message none e h = absurd (
        cc (
          error_response_reroute k legacy_era absent code_parse_error (codes "Parse error") none,
          h,
        ))
    from_message (some response) e h = absurd (
        cc (
          error_response_reroute k legacy_era absent code_invalid_request (codes "Invalid Request")
              none,
          h,
        ))
    from_message (some (request req)) e h = handle_request-Forwarded k s body req hdrs e h
