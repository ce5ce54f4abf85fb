-- ===== src/Stream/Machine.antt =====
-- The states, their handlers, and the loop that runs them.
use envoy_mcp_openapi_proces.Common.{
  Bool, Bytes, List, Result, [], equal, err, false, if◌then◌else◌, length, none, not, ok, some,
  true, ℕ, ◌++◌, ◌∷◌,
}
use envoy_mcp_openapi_proces.Common.Text.{codes}
use envoy_mcp_openapi_proces.Handler.{
  ExtProcServer, McpProcResponse, RequestContext, build_end_of_stream_response,
  encode_jsonrpc_error, is_tool_call, mcp_request_handler, mcp_response_handler,
  parse_upstream_status_code,
}
use envoy_mcp_openapi_proces.Headers.{McpRequestHeaders, capture_mcp_request_headers}
use envoy_mcp_openapi_proces.Hosts.{check_headers, find_header}
use envoy_mcp_openapi_proces.Protocol.{Codecs, absent, code_invalid_request}
use envoy_mcp_openapi_proces.Std.Decimal.{pos}
use envoy_mcp_openapi_proces.Wire.{
  HeaderValue, ProcessingResponse, forbidden_response, frame, method_not_allowed_response,
  new_immediate_body_response, request_factory, response_factory,
}

-- `extProcPb.ProcessingRequest`, by the member of its oneof.
pub data ProcessingRequest : Type 0 where
  headers_of_request : List HeaderValue → (end_of_stream : Bool) → ProcessingRequest
  body_of_request : Bytes → (end_of_stream : Bool) → ProcessingRequest
  trailers_of_request : ProcessingRequest
  headers_of_response : List HeaderValue → (end_of_stream : Bool) → ProcessingRequest
  body_of_response : Bytes → (end_of_stream : Bool) → ProcessingRequest
  trailers_of_response : ProcessingRequest
  unset : ProcessingRequest

pub data State : Type 0 where
  awaiting_request_headers : State
  draining_request : (reject : List ProcessingResponse) → State
  buffering_request : McpRequestHeaders → State
  awaiting_response_headers : RequestContext → State
  buffering_response : RequestContext → State

-- The error of `protocolViolation`: what was expected, and the message that came.
pub record Violation : Type 0 where
  pub expected : Bytes
  pub got : ProcessingRequest

-- A state, the stream's buffer and the responses to send.
pub record Step : Type 0 where
  pub next : State
  pub buf : Bytes
  pub responses : List ProcessingResponse

abbrev pub Outcome : Type 0
Outcome = Result Violation Step

abbrev pub step_to : State → Bytes → List ProcessingResponse → Outcome
step_to st buf reps = ok (record { next = st; buf = buf; responses = reps })

abbrev pub violation : ProcessingRequest → Bytes → Outcome
violation req expected = err (record { expected = expected; got = req })

-- Whether the `:method` header, where there is one, is POST.
unfoldable pub method_allowed : List HeaderValue → Bool
method_allowed headers = elim (find_header headers (codes ":method")) [
  | none ↦ true
  | some m ↦ equal m (codes "POST")
]

module _ (k : Codecs) (server : ExtProcServer) where
  unfoldable pub invalid_request_response : List ProcessingResponse
  invalid_request_response =
      new_immediate_body_response
        (encode_jsonrpc_error k absent code_invalid_request (codes "Invalid Request"))

  unfoldable pub handle_request_headers : Bytes → List HeaderValue → Bool → Outcome
  handle_request_headers buf headers end_of_stream =
      if not (method_allowed headers)
      then step_to awaiting_request_headers buf method_not_allowed_response
      else if not (check_headers k.url_hostname server.allowed_hosts headers).0
      then (if end_of_stream
          then step_to awaiting_request_headers buf forbidden_response
          else step_to (draining_request forbidden_response) buf [])
      else if end_of_stream
      then step_to awaiting_request_headers buf invalid_request_response
      else step_to (buffering_request (capture_mcp_request_headers headers)) [] []

  unfoldable pub request_context : McpProcResponse → RequestContext
  request_context r = record {
    jsonrpc_id = r.id;
    tool_response_config = r.tool_response_config;
    upstream_status_code = pos 0;
    era = r.era;
  }

  unfoldable pub request_responses : McpProcResponse → Bool → List ProcessingResponse
  request_responses r has_trailers = elim r.reroute [
    | none ↦ r.immediate
    | some m ↦ frame m request_factory has_trailers
  ]

  unfoldable pub finalize_request : McpRequestHeaders → Bytes → Bool → Outcome
  finalize_request hdrs buf has_trailers =
      let r = mcp_request_handler k server buf hdrs in
      step_to (awaiting_response_headers (request_context r)) buf (request_responses r has_trailers)

  -- The status is kept where it is there and a number.
  unfoldable pub with_status : RequestContext → List HeaderValue → RequestContext
  with_status rc headers = elim (parse_upstream_status_code headers) [
    | none ↦ rc
    | some code ↦ record rc { upstream_status_code = code }
  ]

  unfoldable pub handle_response_headers :
      RequestContext → Bytes → List HeaderValue → Bool → Outcome
  handle_response_headers rc buf headers end_of_stream =
      if not (is_tool_call rc)
      then violation (headers_of_response headers end_of_stream) (codes "tool call response")
      else if end_of_stream
      then step_to awaiting_request_headers buf
          (build_end_of_stream_response k (with_status rc headers))
      else step_to (buffering_response (with_status rc headers)) [] []

  unfoldable pub finalize_response : RequestContext → Bytes → Bool → Outcome
  finalize_response rc buf has_trailers =
      step_to awaiting_request_headers buf
        (frame (mcp_response_handler k rc buf) response_factory has_trailers)

  -- One message, by the state that receives it.
  unfoldable pub handle : State → Bytes → ProcessingRequest → Outcome
  handle awaiting_request_headers buf (headers_of_request headers end_of_stream) =
      handle_request_headers buf headers end_of_stream
  handle awaiting_request_headers buf req = violation req (codes "RequestHeaders")
  handle (draining_request reject) buf (body_of_request chunk end_of_stream) =
      if end_of_stream
      then step_to awaiting_request_headers buf reject
      else step_to (draining_request reject) buf []
  handle (draining_request reject) buf trailers_of_request =
      step_to awaiting_request_headers buf reject
  handle (draining_request reject) buf req =
      violation req (codes "RequestBody or RequestTrailers while draining request")
  handle (buffering_request hdrs) buf (body_of_request chunk end_of_stream) =
      if end_of_stream
      then finalize_request hdrs (buf ++ chunk) false
      else step_to (buffering_request hdrs) (buf ++ chunk) []
  handle (buffering_request hdrs) buf trailers_of_request = finalize_request hdrs buf true
  handle (buffering_request hdrs) buf req =
      violation req (codes "RequestBody or RequestTrailers while buffering request")
  handle (awaiting_response_headers rc) buf (headers_of_response headers end_of_stream) =
      handle_response_headers rc buf headers end_of_stream
  handle (awaiting_response_headers rc) buf req = violation req (codes "ResponseHeaders")
  handle (buffering_response rc) buf (body_of_response chunk end_of_stream) =
      if end_of_stream
      then finalize_response rc (buf ++ chunk) false
      else step_to (buffering_response rc) (buf ++ chunk) []
  handle (buffering_response rc) buf trailers_of_response = finalize_response rc buf true
  handle (buffering_response rc) buf req =
      violation req (codes "ResponseBody or ResponseTrailers while buffering response")

-- What `Recv` returns: a message, the end of the stream or its cancellation, or an error.
pub data Received : Type 0 where
  received_message : ProcessingRequest → Received
  stream_closed : Received
  receive_error : Received

-- How the loop stands: waiting for the next message, or returned.
pub data Exit : Type 0 where
  running : State → Bytes → Exit
  closed : Exit
  violated : Violation → Exit
  receive_failed : Exit
  send_failed : Exit

-- The responses that were handed to `Send`, the one of a failed call included, with how the loop
-- stands.
pub record Run : Type 0 where
  pub sent : List ProcessingResponse
  pub exit : Exit

-- The loop over the responses; `fails n` says whether the n-th call of `Send` fails. The responses
-- that were handed to it count the calls.
unfoldable pub send_all :
    (ℕ → Bool) → List ProcessingResponse → List ProcessingResponse → List ProcessingResponse × Bool
send_all fails sent [] = (sent, true)
send_all fails sent (rep ∷ reps) =
    let rest = send_all fails (sent ++ rep ∷ []) reps in
    if fails (length sent) then (sent ++ rep ∷ [], false) else rest

module _ (k : Codecs) (server : ExtProcServer) (fails : ℕ → Bool) where
  unfoldable pub process_from : State → Bytes → List ProcessingResponse → List Received → Run
  process_from st buf sent [] = record { sent = sent; exit = running st buf }
  process_from st buf sent (stream_closed ∷ more) = record { sent = sent; exit = closed }
  process_from st buf sent (receive_error ∷ more) = record { sent = sent; exit = receive_failed }
  process_from st buf sent (received_message req ∷ more) = elim (handle k server st buf req) [
    | err v ↦ record { sent = sent; exit = violated v }
    | ok s ↦
        let (sent', done) = send_all fails sent s.responses in
        let rest = process_from s.next s.buf sent' more in
        if done then rest else record { sent = sent'; exit = send_failed }
  ]

  unfoldable pub process : List Received → Run
  process = process_from awaiting_request_headers [] []
