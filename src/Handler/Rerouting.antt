-- ===== src/Handler/Rerouting.antt =====
-- What a handler of mcp_handler.go has done where its answer is an upstream call.
use envoy_mcp_openapi_proces.Common.{
  Bool, Bool-cases, Bytes, List, Option, Option-cases, Result-cases, arith, equal, equal_iff, false,
  if◌then◌else◌, inl, inr, none, not, ok, refl, some, true, ◌++◌, ◌≡◌,
}
use envoy_mcp_openapi_proces.Common.Text.{codes, to_upper}
use envoy_mcp_openapi_proces.Endpoint.{
  EndpointRequest, full_path, marshal_request_body, new_endpoint_request,
}
use envoy_mcp_openapi_proces.Era.{
  ProtocolEra, method_discover, method_initialize, method_notifications_initialized,
  method_tools_list, serves, validate_headers,
}
use envoy_mcp_openapi_proces.Handler.Requests.{
  ExtProcServer, McpProcResponse, call_endpoint, dispatch, error_response, handle_discover,
  handle_in_era, handle_initialize, handle_tool_call, reroute_call, result_response,
  tool_execution_error_response,
}
use envoy_mcp_openapi_proces.Headers.{McpRequestHeaders, method_tools_call}
use envoy_mcp_openapi_proces.Json.{Json}
use envoy_mcp_openapi_proces.Protocol.{
  Codecs, ErrorCode, McpResult, Request, RequestId, code_header_mismatch, code_invalid_params,
  code_method_not_found,
}
use envoy_mcp_openapi_proces.Registry.{ToolConfig, get_config}
use envoy_mcp_openapi_proces.Wire.{StreamedMutation, reroute_with_body_mutation}

-- A branch that does not forward was not taken.
skip :
    (b : Bool) (x y : McpProcResponse) {m : StreamedMutation}
    → x.reroute ≡ none
    → (if b then x else y).reroute ≡ some m
    → (b ≡ false) × (y.reroute ≡ some m)
skip true x y never h = absurd (cc (never, h))
skip false x y never h = (refl, h)

module _ (k : Codecs) (era : ProtocolEra) where
  pub error_response_reroute :
      (id : RequestId) (code : ErrorCode) (message : Bytes) (error_data : Option Bytes)
      → (error_response k era id code message error_data).reroute ≡ none
  unfolding error_response
  error_response_reroute id code message error_data = refl

  result_response_reroute :
      (id : RequestId) (payload : McpResult) → (result_response k era id payload).reroute ≡ none
  unfolding result_response error_response
  result_response_reroute id payload = ground arith

  handle_initialize_reroute :
      (s : ExtProcServer) (req : Request) → (handle_initialize k s era req).reroute ≡ none
  unfolding handle_initialize error_response
  handle_initialize_reroute s req = elim (Result-cases (k.unmarshal_initialize req.params)) [
    | inl (e, bad) ↦ rw (bad, handle_initialize) refl
    | inr (v, decoded) ↦ rw (decoded, handle_initialize) (result_response_reroute req.id _)
  ]

  handle_discover_reroute :
      (s : ExtProcServer) (req : Request) → (handle_discover k s era req).reroute ≡ none
  unfolding handle_discover
  handle_discover_reroute s req = result_response_reroute req.id _

  pub dispatch_reroute :
      (s : ExtProcServer) (req : Request) (hdrs : McpRequestHeaders) {m : StreamedMutation}
      → (dispatch k s era req hdrs).reroute ≡ some m
      → (req.method ≡ method_tools_call)
        × ((handle_tool_call k s era req hdrs.param_header_names).reroute ≡ some m)
  unfolding dispatch
  dispatch_reroute s req hdrs h =
      let (a, h1) =
        skip (equal req.method method_initialize) _ _ (handle_initialize_reroute s req) h in
      let (b, h2) = skip (equal req.method method_notifications_initialized) _ _ refl h1 in
      let (c, h3) =
        skip (equal req.method method_discover) _ _ (handle_discover_reroute s req) h2 in
      let (d, h4) =
        skip (equal req.method method_tools_list) _ _ (result_response_reroute req.id _) h3 in
      elim (Bool-cases (equal req.method method_tools_call)) [
        | inl call ↦ ((equal_iff _ _).0 call, rw call at h4)
        | inr other ↦ absurd (
            cc (
              error_response_reroute req.id code_method_not_found (codes "Method not found") none,
              rw other at h4,
            ))
      ]

-- What forwards a tool call once its parameters are decoded.
pub record Called (k : Codecs) (s : ExtProcServer) (params : Bytes) (strip : List Bytes)
    (m : StreamedMutation) : Type 0 where
  pub name : Bytes
  pub arguments : List (Bytes × Json)
  pub decoded : k.unmarshal_call params ≡ ok (name, arguments)
  pub config : ToolConfig
  pub registered : get_config s.registry name ≡ some config
  pub endpoint_request : EndpointRequest
  pub built : new_endpoint_request config.endpoint arguments ≡ ok endpoint_request
  pub request_body : Bytes
  pub marshalled : marshal_request_body k.marshal_json config.endpoint arguments ≡ ok request_body
  pub sent :
      m
      ≡ reroute_with_body_mutation config.endpoint.host
          (to_upper config.endpoint.method)
          (full_path k.query_encode endpoint_request)
          request_body
          endpoint_request.extra_headers
          strip

module _ (k : Codecs) (era : ProtocolEra) (s : ExtProcServer) where
  pub handle_tool_call-Called :
      (req : Request) (strip : List Bytes) {m : StreamedMutation}
      → (handle_tool_call k s era req strip).reroute ≡ some m
      → Called k s req.params strip m
  unfolding handle_tool_call call_endpoint tool_execution_error_response reroute_call
  handle_tool_call-Called req strip {m} h = elim (Result-cases (k.unmarshal_call req.params)) [
    | inl (e, bad) ↦ absurd (
        cc (
          error_response_reroute k era req.id code_invalid_params (codes "Invalid params: " ++ e)
              none,
          rw (bad, handle_tool_call) at h,
        ))
    | inr ((name, arguments), decoded) ↦
        let h1 = rw (decoded, handle_tool_call) at h in
        elim (Option-cases (get_config s.registry name)) [
          | inl unknown ↦ absurd (
              cc (
                error_response_reroute k era req.id code_invalid_params
                    (codes "Unknown tool: " ++ name) none,
                rw unknown at h1,
              ))
          | inr (config, found) ↦
              let h2 = rw found at h1 in
              elim (Result-cases (new_endpoint_request config.endpoint arguments)) [
                | inl (e, bad) ↦
                    absurd
                      (cc (result_response_reroute k era req.id _, rw (bad, call_endpoint) at h2))
                | inr (r, built) ↦
                    let h3 = rw (built, call_endpoint) at h2 in
                    elim (Result-cases
                      (marshal_request_body k.marshal_json config.endpoint arguments)) [
                        | inl (e, bad) ↦
                            absurd (cc (result_response_reroute k era req.id _, rw bad at h3))
                        | inr (body, marshalled) ↦
                            let h4 = rw marshalled at h3 in
                            record {
                              name = name;
                              arguments = arguments;
                              decoded = decoded;
                              config = config;
                              registered = found;
                              endpoint_request = r;
                              built = built;
                              request_body = body;
                              marshalled = marshalled;
                              sent = cc;
                            }
                      ]
              ]
        ]
  ]

  pub handle_in_era_reroute :
      (req : Request) (declared : Bytes) (hdrs : McpRequestHeaders) (requested : Bytes)
      (served : Bool) {m : StreamedMutation}
      → (handle_in_era k s req declared hdrs (era, requested, served)).reroute ≡ some m
      → (served ≡ true)
        × (validate_headers k era req declared hdrs ≡ none)
        × ((dispatch k s era req hdrs).reroute ≡ some m)
  unfolding handle_in_era
  handle_in_era_reroute req declared hdrs requested served h =
      let (a, h1) = skip (not served) _ _ (error_response_reroute k era req.id _ _ _) h in
      let (b, h2) =
        skip (not (serves era req.method)) _ _ (error_response_reroute k era req.id _ _ _) h1 in
      elim (Option-cases (validate_headers k era req declared hdrs)) [
        | inl valid ↦ (ground arith, valid, rw valid at h2)
        | inr (message, refused) ↦ absurd (
            cc (
              error_response_reroute k era req.id code_header_mismatch message none,
              rw refused at h2,
            ))
      ]
