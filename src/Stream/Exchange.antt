-- ===== src/Stream/Exchange.antt =====
-- A whole exchange.
use envoy_mcp_openapi_proces.Common.{
  Bytes, List, Option-cases, [], ap, concat_all, false, inl, inr, none, ok, refl, some, true, ◌++◌,
  ◌∙◌, ◌∷◌, ◌≡◌,
}
use envoy_mcp_openapi_proces.Common.Text.{codes}
use envoy_mcp_openapi_proces.Handler.{
  ExtProcServer, McpProcResponse, RequestContext, is_tool_call, mcp_request_handler,
  mcp_response_handler, parse_upstream_status_code,
}
use envoy_mcp_openapi_proces.Handler.Dispatching.{
  immediate_answer, mcp_request_handler-IsShaped, upstream_call,
}
use envoy_mcp_openapi_proces.Headers.{McpRequestHeaders, capture_mcp_request_headers}
use envoy_mcp_openapi_proces.Hosts.{check_headers, find_header}
use envoy_mcp_openapi_proces.Protocol.{Codecs, is_valid}
use envoy_mcp_openapi_proces.Std.Decimal.{atoi, pos, ℤ}
use envoy_mcp_openapi_proces.Stream.Buffering.{
  handle_all, request_chunks, request_chunks_buffer, response_body_chunking, response_chunks,
  silent,
}
use envoy_mcp_openapi_proces.Stream.Machine.{
  ProcessingRequest, State, Step, awaiting_request_headers, awaiting_response_headers,
  body_of_request, body_of_response, buffering_request, buffering_response, finalize_request,
  finalize_response, handle, handle_request_headers, handle_response_headers, headers_of_request,
  headers_of_response, method_allowed, request_context, request_responses, step_to, with_status,
}
use envoy_mcp_openapi_proces.Wire.{
  HeaderValue, StreamedMutation, frame, request_factory, response_factory,
}

-- The messages of an accepted tool call: its headers, its body in chunks, and the upstream
-- response's headers and body in chunks.
abbrev pub exchange :
    (request_headers : List HeaderValue) (request_body : List Bytes) (request_last : Bytes)
    (response_headers : List HeaderValue) (response_body : List Bytes) (response_last : Bytes)
    → List ProcessingRequest
exchange hs cs c rhs ds d =
    headers_of_request hs false
    ∷ request_chunks cs (
        body_of_request c true
        ∷ headers_of_response rhs false
        ∷ response_chunks ds (body_of_response d true ∷ []))

module _ (k : Codecs) (server : ExtProcServer) where
  -- Running on after a message that is handled.
  after_step :
      (st : State) (buf : Bytes) (req : ProcessingRequest) (reqs : List ProcessingRequest)
      (s t : Step)
      → handle k server st buf req ≡ ok s
      → handle_all k server s.next s.buf reqs ≡ ok t
      → handle_all k server st buf (req ∷ reqs) ≡ step_to t.next t.buf (s.responses ++ t.responses)
  unfolding handle_all
  after_step st buf req reqs s t e f = rw (e, handle_all) (rw (f, handle_all))

  headers_accepted :
      (buf : Bytes) (hs : List HeaderValue)
      → method_allowed hs ≡ true
      → (check_headers k.url_hostname server.allowed_hosts hs).0 ≡ true
      → handle k server awaiting_request_headers buf (headers_of_request hs false)
        ≡ step_to (buffering_request (capture_mcp_request_headers hs)) [] []
  unfolding handle handle_request_headers
  headers_accepted buf hs post passed = rw (post, passed) refl

  response_headers_accepted :
      (rc : RequestContext) (buf : Bytes) (hs : List HeaderValue)
      → is_tool_call rc ≡ true
      → handle k server (awaiting_response_headers rc) buf (headers_of_response hs false)
        ≡ step_to (buffering_response (with_status k server rc hs)) [] []
  unfolding handle handle_response_headers
  response_headers_accepted rc buf hs call = rw call refl

  -- The response phase, from the upstream's headers on.
  response_phase :
      (rc : RequestContext) (buf : Bytes) (hs : List HeaderValue) (ds : List Bytes) (d : Bytes)
      → is_tool_call rc ≡ true
      → handle_all k server
          (awaiting_response_headers rc)
          buf
          (headers_of_response hs false ∷ response_chunks ds (body_of_response d true ∷ []))
        ≡ finalize_response k server (with_status k server rc hs) (concat_all ds ++ d) false
  response_phase rc buf hs ds d call =
      silent k server (response_chunks ds (body_of_response d true ∷ [])) _ buf _ _ _
        (response_headers_accepted rc buf hs call)
      ∙ (response_body_chunking k server (with_status k server rc hs) ds d []).0

  -- The request phase, up to the answer of the handler.
  request_phase :
      (hdrs : McpRequestHeaders) (cs : List Bytes) (c : Bytes) (after : List ProcessingRequest)
      (t : Step)
      → handle_all k server
          (awaiting_response_headers
            (request_context k server (mcp_request_handler k server (concat_all cs ++ c) hdrs)))
          (concat_all cs ++ c)
          after
        ≡ ok t
      → handle_all k server
          (buffering_request hdrs)
          []
          (request_chunks cs (body_of_request c true ∷ after))
        ≡ step_to t.next t.buf (
            request_responses k server
              (mcp_request_handler k server (concat_all cs ++ c) hdrs)
              false
            ++ t.responses)
  unfolding handle finalize_request
  request_phase hdrs cs c after t e =
      request_chunks_buffer k server hdrs cs [] (body_of_request c true ∷ after)
      ∙ after_step (buffering_request hdrs) (concat_all cs) (body_of_request c true) after _ t refl
          e

-- The status that the upstream's response headers give, 0 where there is none or it is no number.
abbrev status_of : List HeaderValue → ℤ
status_of hs = elim (find_header hs (codes ":status")) [
  | none ↦ pos 0
  | some v ↦ elim (atoi v) [ none ↦ pos 0 | some n ↦ n ]
]

-- What the answer to a call is made with: the call's own id, configuration and era, and the status
-- of the upstream's response.
abbrev pub context_of : McpProcResponse → List HeaderValue → RequestContext
context_of r hs = record {
  jsonrpc_id = r.id;
  tool_response_config = r.tool_response_config;
  upstream_status_code = status_of hs;
  era = r.era;
}

module _ (k : Codecs) (server : ExtProcServer) where
  with_status-request_context :
      (r : McpProcResponse) (hs : List HeaderValue)
      → with_status k server (request_context k server r) hs ≡ context_of r hs
  unfolding with_status request_context parse_upstream_status_code
  with_status-request_context r hs = elim (Option-cases (find_header hs (codes ":status"))) [
    | inl missing ↦ rw (missing, with_status, parse_upstream_status_code, status_of) refl
    | inr (v, found) ↦ elim (Option-cases (atoi v)) [
      | inl no_number ↦
          rw (found, no_number, with_status, parse_upstream_status_code, status_of) refl
      | inr (n, e) ↦ rw (found, e, with_status, parse_upstream_status_code, status_of) refl
    ]
  ]

  answer_phase :
      (r : McpProcResponse) (buf : Bytes) (hs : List HeaderValue) (ds : List Bytes) (d : Bytes)
      → is_tool_call (request_context k server r) ≡ true
      → handle_all k server
          (awaiting_response_headers (request_context k server r))
          buf
          (headers_of_response hs false ∷ response_chunks ds (body_of_response d true ∷ []))
        ≡ finalize_response k server (context_of r hs) (concat_all ds ++ d) false
  answer_phase r buf hs ds d call =
      response_phase k server (request_context k server r) buf hs ds d call
      ∙ ap (λ rc. finalize_response k server rc (concat_all ds ++ d) false)
          (with_status-request_context r hs)

  -- A call that is forwarded and has an id awaits a tool's response.
  forwarded_call :
      (body : Bytes) (hdrs : McpRequestHeaders) (m : StreamedMutation)
      → (mcp_request_handler k server body hdrs).reroute ≡ some m
      → is_valid (mcp_request_handler k server body hdrs).id ≡ true
      → is_tool_call (request_context k server (mcp_request_handler k server body hdrs)) ≡ true
  unfolding is_tool_call request_context
  forwarded_call body hdrs m rerouted valid =
      elim (mcp_request_handler-IsShaped k server body hdrs) [
        | immediate_answer im a b never c f ↦ absurd (cc (never, rerouted))
        | upstream_call n config era a b keeps f ↦ rw (valid, keeps) refl
      ]

-- An accepted tool call is carried through. For request headers that pass the checks, and a body
-- that has an id and that the handler rewrites to an upstream call, in any chunks: the stream sends
-- the framed upstream request, then the framed MCP answer made of the call's id, configuration and
-- era, the upstream's status (0 where its headers give no number) and its whole body, in this order
-- and nothing else, and awaits the next request.
pub tool_call_exchange :
    (k : Codecs) (server : ExtProcServer) (buf : Bytes) (hs : List HeaderValue) (cs : List Bytes)
    (c : Bytes) (rhs : List HeaderValue) (ds : List Bytes) (d : Bytes) (m : StreamedMutation)
    → method_allowed hs ≡ true
    → (check_headers k.url_hostname server.allowed_hosts hs).0 ≡ true
    → (mcp_request_handler k server (concat_all cs ++ c) (capture_mcp_request_headers hs)).reroute
      ≡ some m
    → is_valid
        (mcp_request_handler k server (concat_all cs ++ c) (capture_mcp_request_headers hs)).id
      ≡ true
    → handle_all k server awaiting_request_headers buf (exchange hs cs c rhs ds d)
      ≡ step_to awaiting_request_headers (concat_all ds ++ d) (
          frame m request_factory false
          ++ frame
              (mcp_response_handler k
                (context_of
                  (mcp_request_handler k server
                    (concat_all cs ++ c)
                    (capture_mcp_request_headers hs))
                  rhs)
                (concat_all ds ++ d))
              response_factory
              false)
unfolding finalize_response request_responses
tool_call_exchange k server buf hs cs c rhs ds d m post passed rerouted valid =
    let call =
      forwarded_call k server (concat_all cs ++ c) (capture_mcp_request_headers hs) m rerouted
        valid in
    silent k server _ _ buf _ _ _ (headers_accepted k server buf hs post passed)
    ∙ request_phase k server (capture_mcp_request_headers hs) cs c _ _ (
        answer_phase k server
          (mcp_request_handler k server (concat_all cs ++ c) (capture_mcp_request_headers hs))
          (concat_all cs ++ c) rhs ds d call)
    ∙ rw (rerouted, request_responses)
