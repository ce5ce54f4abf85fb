-- ===== src/Handler/Dispatching.antt =====
-- The shape of every answer to a request.
use envoy_mcp_openapi_proces.Common.{
  Bool, Bytes, List, Option, Option-cases, Result-cases, [], equal, false, if◌then◌else◌, inl, inr,
  none, not, refl, some, subst, sym, true, ℕ, ◌∷◌, ◌≡◌, ◌⊎◌,
}
use envoy_mcp_openapi_proces.Endpoint.{marshal_request_body, new_endpoint_request}
use envoy_mcp_openapi_proces.Era.{
  ProtocolEra, encode_result, error_status, legacy_era, meta_protocol_version, method_discover,
  method_initialize, method_notifications_initialized, method_tools_list, modern_era, resolve_era,
  serves, validate_headers,
}
use envoy_mcp_openapi_proces.Handler.Requests.{
  ExtProcServer, McpProcResponse, call_endpoint, dispatch, error_response, handle_discover,
  handle_in_era, handle_initialize, handle_message, handle_request, handle_tool_call,
  mcp_request_handler, reroute_call, result_response, tool_execution_error_response,
}
use envoy_mcp_openapi_proces.Headers.{McpRequestHeaders, method_tools_call}
use envoy_mcp_openapi_proces.Json.{Json}
use envoy_mcp_openapi_proces.Protocol.{
  Codecs, ErrorCode, RequestId, McpResult, Message, Request, absent, code_header_mismatch,
  code_invalid_params, code_method_not_found, code_unsupported_protocol_version, request, response,
  result,
}
use envoy_mcp_openapi_proces.Registry.{ToolConfig, ToolResponseConfig, get_config}
use envoy_mcp_openapi_proces.Wire.{
  ImmediateResponse, StreamedMutation, empty_common, http_status_response, immediate,
  immediate_response, new_immediate_body_response, new_immediate_body_response_with_status,
  request_headers,
}

-- An answer is either sent as it is, after the acknowledgement of the request headers and with a
-- status that satisfies `P`, or it is an upstream call with all that its response needs.
pub data IsShaped (P : ℕ → Type 0) (r : McpProcResponse) : Type 0 where
  immediate_answer :
      (im : ImmediateResponse)
      → r.immediate ≡ request_headers empty_common ∷ immediate im ∷ []
      → P im.status
      → r.reroute ≡ none
      → r.tool_response_config ≡ none
      → r.era ≡ none
      → IsShaped P r
  upstream_call :
      (m : StreamedMutation) (config : ToolResponseConfig) (era : ProtocolEra)
      → r.immediate ≡ []
      → r.reroute ≡ some m
      → r.tool_response_config ≡ some config
      → r.era ≡ some era
      → IsShaped P r

module _ (k : Codecs) (era : ProtocolEra) (P : ℕ → Type 0) (fine : P 200) (accepted : P 202)
    (errors : (code : ErrorCode) → P (error_status era code)) where
  error_response-IsShaped :
      (id : RequestId) (code : ErrorCode) (message : Bytes) (error_data : Option Bytes)
      → IsShaped P (error_response k era id code message error_data)
  unfolding error_response new_immediate_body_response_with_status immediate_response
  error_response-IsShaped id code message error_data =
      immediate_answer _ refl (errors code) refl refl refl

  result_response-IsShaped :
      (id : RequestId) (payload : McpResult) → IsShaped P (result_response k era id payload)
  unfolding result_response new_immediate_body_response new_immediate_body_response_with_status
      immediate_response
  result_response-IsShaped id payload = elim (Option-cases (encode_result k era payload)) [
    | inl failed ↦ rw (failed, result_response) (error_response-IsShaped id _ _ _)
    | inr (json, e) ↦ elim (Option-cases (k.encode_message id (result json))) [
      | inl failed ↦ rw (e, result_response) (rw failed (error_response-IsShaped id _ _ _))
      | inr (message, f) ↦
          rw (e, result_response) (rw f (immediate_answer _ refl fine refl refl refl))
    ]
  ]

  call_endpoint-IsShaped :
      (id : RequestId) (config : ToolConfig) (arguments : List (Bytes × Json)) (strip : List Bytes)
      → IsShaped P (call_endpoint k era id config arguments strip)
  unfolding call_endpoint tool_execution_error_response reroute_call
  call_endpoint-IsShaped id config arguments strip =
      elim (Result-cases (new_endpoint_request config.endpoint arguments)) [
        | inl (e, bad) ↦ rw (bad, call_endpoint) (result_response-IsShaped id _)
        | inr (r, built) ↦
            elim (Result-cases (marshal_request_body k.marshal_json config.endpoint arguments)) [
              | inl (e, bad) ↦ rw (built, call_endpoint) (rw bad (result_response-IsShaped id _))
              | inr (body, e) ↦
                  rw (built, call_endpoint) (rw e (upstream_call _ _ _ refl refl refl refl))
            ]
      ]

  handle_tool_call-IsShaped :
      (s : ExtProcServer) (req : Request) (strip : List Bytes)
      → IsShaped P (handle_tool_call k s era req strip)
  unfolding handle_tool_call
  handle_tool_call-IsShaped s req strip = elim (Result-cases (k.unmarshal_call req.params)) [
    | inl (e, bad) ↦ rw (bad, handle_tool_call) (error_response-IsShaped req.id _ _ _)
    | inr ((name, arguments), decoded) ↦ elim (Option-cases (get_config s.registry name)) [
      | inl unknown ↦
          rw (decoded, handle_tool_call) (rw unknown (error_response-IsShaped req.id _ _ _))
      | inr (config, found) ↦
          rw (decoded, handle_tool_call)
            (rw found (call_endpoint-IsShaped req.id config arguments strip))
    ]
  ]

  handle_initialize-IsShaped :
      (s : ExtProcServer) (req : Request) → IsShaped P (handle_initialize k s era req)
  unfolding handle_initialize
  handle_initialize-IsShaped s req = elim (Result-cases (k.unmarshal_initialize req.params)) [
    | inl (e, bad) ↦ rw (bad, handle_initialize) (error_response-IsShaped req.id _ _ _)
    | inr (v, decoded) ↦ rw (decoded, handle_initialize) (result_response-IsShaped req.id _)
  ]

  IsShaped-if :
      (b : Bool) (x y : McpProcResponse)
      → IsShaped P x
      → IsShaped P y
      → IsShaped P (if b then x else y)
  IsShaped-if true x y h g = h
  IsShaped-if false x y h g = g

  dispatch-IsShaped :
      (s : ExtProcServer) (req : Request) (hdrs : McpRequestHeaders)
      → IsShaped P (dispatch k s era req hdrs)
  unfolding dispatch handle_discover http_status_response immediate_response
  dispatch-IsShaped s req hdrs =
      IsShaped-if (equal req.method method_initialize) _ _ (handle_initialize-IsShaped s req) (
        IsShaped-if (equal req.method method_notifications_initialized) _ _
          (immediate_answer _ refl accepted refl refl refl)
          (IsShaped-if (equal req.method method_discover) _ _ (result_response-IsShaped req.id _) (
            IsShaped-if (equal req.method method_tools_list) _ _ (result_response-IsShaped req.id _)
              (IsShaped-if (equal req.method method_tools_call) _ _
                (handle_tool_call-IsShaped s req hdrs.param_header_names)
                (error_response-IsShaped req.id _ _ _)))))

  handle_in_era-IsShaped :
      (s : ExtProcServer) (req : Request) (declared : Bytes) (hdrs : McpRequestHeaders)
      (requested : Bytes) (served : Bool)
      → IsShaped P (handle_in_era k s req declared hdrs (era, requested, served))
  unfolding handle_in_era
  handle_in_era-IsShaped s req declared hdrs requested served =
      IsShaped-if (not served) _ _ (error_response-IsShaped req.id _ _ _) (
        IsShaped-if (not (serves era req.method)) _ _ (error_response-IsShaped req.id _ _ _)
          (elim (Option-cases (validate_headers k era req declared hdrs)) [
            | inl valid ↦ rw valid (dispatch-IsShaped s req hdrs)
            | inr (message, refused) ↦ rw refused (error_response-IsShaped req.id _ _ _)
          ]))

-- The statuses that the handler sends.
abbrev pub LegacyStatus : ℕ → Type 0
LegacyStatus n = (n ≡ 200) ⊎ (n ≡ 202)

abbrev pub ModernStatus : ℕ → Type 0
ModernStatus n = LegacyStatus n ⊎ ((n ≡ 400) ⊎ (n ≡ 404))

legacy_errors : (code : ErrorCode) → LegacyStatus (error_status legacy_era code)
unfolding error_status
legacy_errors code = inl refl

any_errors : (era : ProtocolEra) (code : ErrorCode) → ModernStatus (error_status era code)
unfolding error_status
any_errors legacy_era code = inl (inl refl)
any_errors (modern_era info) code_unsupported_protocol_version = inr (inl refl)
any_errors (modern_era info) code_header_mismatch = inr (inl refl)
any_errors (modern_era info) code_invalid_params = inr (inl refl)
any_errors (modern_era info) code_method_not_found = inr (inr refl)
any_errors (modern_era info) _ = inl (inl refl)

handle_request-IsShaped :
    (k : Codecs) (s : ExtProcServer) (req : Request) (hdrs : McpRequestHeaders)
    → IsShaped ModernStatus (handle_request k s req hdrs)
unfolding handle_request
handle_request-IsShaped k s req hdrs =
    let (era, requested, served) =
      resolve_era s.server_info req.method (meta_protocol_version k req.params)
        hdrs.protocol_version in
    handle_in_era-IsShaped k era ModernStatus (inl (inl refl)) (inl (inr refl)) (any_errors era) s
      req (meta_protocol_version k req.params) hdrs requested served

-- Whatever the body, exactly one of the two kinds of answer comes out: immediate responses, which
-- acknowledge the request headers first and carry one of the statuses 200, 202, 400 and 404, with
-- no upstream call; or an upstream call with the configuration and the era that its response needs
-- and no immediate response.
pub mcp_request_handler-IsShaped :
    (k : Codecs) (s : ExtProcServer) (body : Bytes) (hdrs : McpRequestHeaders)
    → IsShaped ModernStatus (mcp_request_handler k s body hdrs)
unfolding mcp_request_handler
mcp_request_handler-IsShaped k s body hdrs = decoded (k.decode_message body)
  where
    refusal :
        (code : ErrorCode) (message : Bytes)
        → IsShaped ModernStatus (error_response k legacy_era absent code message none)
    refusal code message =
        error_response-IsShaped k legacy_era ModernStatus (inl (inl refl)) (inl (inr refl))
          (any_errors legacy_era) absent code message none

    decoded : (o : Option Message) → IsShaped ModernStatus (handle_message k s hdrs o)
    decoded none = refusal _ _
    decoded (some response) = refusal _ _
    decoded (some (request req)) = handle_request-IsShaped k s req hdrs

-- A request of the legacy era is never refused by an HTTP status: it is answered with 200 or 202,
-- errors included, or forwarded.
pub legacy_handle_request-IsShaped :
    (k : Codecs) (s : ExtProcServer) (req : Request) (hdrs : McpRequestHeaders)
    → (resolve_era s.server_info req.method
        (meta_protocol_version k req.params)
        hdrs.protocol_version).0
      ≡ legacy_era
    → IsShaped LegacyStatus (handle_request k s req hdrs)
unfolding handle_request
legacy_handle_request-IsShaped k s req hdrs legacy =
    let declared = meta_protocol_version k req.params in
    let out = resolve_era s.server_info req.method declared hdrs.protocol_version in
    subst
      (λ (era : ProtocolEra).
        IsShaped LegacyStatus (handle_in_era k s req declared hdrs (era, out.1, out.2)))
      (sym legacy)
      (handle_in_era-IsShaped k legacy_era LegacyStatus (inl refl) (inr refl) legacy_errors s req
        declared hdrs out.1 out.2)
