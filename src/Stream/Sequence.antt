-- ===== src/Stream/Sequence.antt =====
-- Which message each state takes.
use envoy_mcp_openapi_proces.Common.{
  Bool, Bytes, List, arith, false, if◌then◌else◌, not, ok, refl, true, ◌↔◌, ◌≡◌,
}
use envoy_mcp_openapi_proces.Handler.{ExtProcServer, RequestContext, is_tool_call}
use envoy_mcp_openapi_proces.Headers.{McpRequestHeaders}
use envoy_mcp_openapi_proces.Hosts.{check_headers}
use envoy_mcp_openapi_proces.Protocol.{Codecs}
use envoy_mcp_openapi_proces.Stream.Machine.{
  Outcome, ProcessingRequest, State, Step, awaiting_request_headers, awaiting_response_headers,
  body_of_request, body_of_response, buffering_request, buffering_response, draining_request,
  finalize_request, finalize_response, handle, handle_request_headers, handle_response_headers,
  headers_of_request, headers_of_response, method_allowed, trailers_of_request,
  trailers_of_response,
}
use envoy_mcp_openapi_proces.Wire.{HeaderValue, ProcessingResponse}

-- The protocol's table: the messages that may come in a state.
pub data InSequence : State → ProcessingRequest → Type 0 where
  starts :
      {hs : List HeaderValue} {e : Bool}
      → InSequence awaiting_request_headers (headers_of_request hs e)
  drains :
      {reject : List ProcessingResponse} {b : Bytes} {e : Bool}
      → InSequence (draining_request reject) (body_of_request b e)
  drained :
      {reject : List ProcessingResponse} → InSequence (draining_request reject) trailers_of_request
  request_chunk :
      {hdrs : McpRequestHeaders} {b : Bytes} {e : Bool}
      → InSequence (buffering_request hdrs) (body_of_request b e)
  request_end : {hdrs : McpRequestHeaders} → InSequence (buffering_request hdrs) trailers_of_request
  answered :
      {rc : RequestContext} {hs : List HeaderValue} {e : Bool}
      → is_tool_call rc ≡ true
      → InSequence (awaiting_response_headers rc) (headers_of_response hs e)
  response_chunk :
      {rc : RequestContext} {b : Bytes} {e : Bool}
      → InSequence (buffering_response rc) (body_of_response b e)
  response_end : {rc : RequestContext} → InSequence (buffering_response rc) trailers_of_response

abbrev pub Succeeds : Outcome → Type 0
Succeeds out = (s : Step) × (out ≡ ok s)

if_Succeeds : (b : Bool) {x y : Outcome} → Succeeds x → Succeeds y → Succeeds (if b then x else y)
if_Succeeds true x y = x
if_Succeeds false x y = y

module _ (k : Codecs) (server : ExtProcServer) where
  request_headers_succeed :
      (buf : Bytes) (hs : List HeaderValue) (e : Bool)
      → Succeeds (handle_request_headers k server buf hs e)
  unfolding handle_request_headers
  request_headers_succeed buf hs e =
      if_Succeeds (not (method_allowed hs)) (_, refl)
        (if_Succeeds (not (check_headers k.url_hostname server.allowed_hosts hs).0)
          (if_Succeeds e (_, refl) (_, refl)) (if_Succeeds e (_, refl) (_, refl)))

  in_sequence-Succeeds :
      {st : State} {req : ProcessingRequest} (buf : Bytes)
      → InSequence st req
      → Succeeds (handle k server st buf req)
  unfolding handle finalize_request finalize_response handle_response_headers
  in_sequence-Succeeds buf (starts {hs} {e}) = request_headers_succeed buf hs e
  in_sequence-Succeeds buf (drains {reject} {b} {e}) = if_Succeeds e (_, refl) (_, refl)
  in_sequence-Succeeds buf drained = (_, refl)
  in_sequence-Succeeds buf (request_chunk {hdrs} {b} {e}) = if_Succeeds e (_, refl) (_, refl)
  in_sequence-Succeeds buf request_end = (_, refl)
  in_sequence-Succeeds buf (answered {rc} {hs} {e} call) =
      rw call (if_Succeeds e (_, refl) (_, refl))
  in_sequence-Succeeds buf (response_chunk {rc} {b} {e}) = if_Succeeds e (_, refl) (_, refl)
  in_sequence-Succeeds buf response_end = (_, refl)

  response_headers_tool_call :
      (rc : RequestContext) (buf : Bytes) (hs : List HeaderValue) (e : Bool)
      → Succeeds (handle_response_headers k server rc buf hs e)
      → is_tool_call rc ≡ true
  unfolding handle_response_headers
  response_headers_tool_call rc buf hs e (s, h) = ground arith

  succeeds_in_sequence :
      (st : State) (req : ProcessingRequest) (buf : Bytes)
      → Succeeds (handle k server st buf req)
      → InSequence st req
  unfolding handle
  succeeds_in_sequence awaiting_request_headers (headers_of_request hs e) buf h = starts
  succeeds_in_sequence awaiting_request_headers _ buf (s, h) = absurd (cc h)
  succeeds_in_sequence (draining_request reject) (body_of_request b e) buf h = drains
  succeeds_in_sequence (draining_request reject) trailers_of_request buf h = drained
  succeeds_in_sequence (draining_request reject) _ buf (s, h) = absurd (cc h)
  succeeds_in_sequence (buffering_request hdrs) (body_of_request b e) buf h = request_chunk
  succeeds_in_sequence (buffering_request hdrs) trailers_of_request buf h = request_end
  succeeds_in_sequence (buffering_request hdrs) _ buf (s, h) = absurd (cc h)
  succeeds_in_sequence (awaiting_response_headers rc) (headers_of_response hs e) buf h =
      answered (response_headers_tool_call rc buf hs e h)
  succeeds_in_sequence (awaiting_response_headers rc) _ buf (s, h) = absurd (cc h)
  succeeds_in_sequence (buffering_response rc) (body_of_response b e) buf h = response_chunk
  succeeds_in_sequence (buffering_response rc) trailers_of_response buf h = response_end
  succeeds_in_sequence (buffering_response rc) _ buf (s, h) = absurd (cc h)

-- A state takes a message, whatever is buffered, exactly if the protocol's table allows it there;
-- every other message ends the stream with a protocol violation.
pub handle-InSequence :
    (k : Codecs) (server : ExtProcServer) (st : State) (req : ProcessingRequest) (buf : Bytes)
    → Succeeds (handle k server st buf req) ↔ InSequence st req
handle-InSequence k server st req buf =
    (succeeds_in_sequence k server st req buf, in_sequence-Succeeds k server buf)
