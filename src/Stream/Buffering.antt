-- ===== src/Stream/Buffering.antt =====
-- Bodies that come in chunks.
use envoy_mcp_openapi_proces.Common.{
  Bytes, List, [], ap, append-nil, append_assoc, arith, concat_all, err, false, ok, refl, true,
  ◌++◌, ◌∙◌, ◌∷◌, ◌≡◌,
}
use envoy_mcp_openapi_proces.Handler.{ExtProcServer, RequestContext}
use envoy_mcp_openapi_proces.Headers.{McpRequestHeaders}
use envoy_mcp_openapi_proces.Protocol.{Codecs}
use envoy_mcp_openapi_proces.Stream.Machine.{
  Outcome, ProcessingRequest, State, Step, awaiting_request_headers, body_of_request,
  body_of_response, buffering_request, buffering_response, draining_request, finalize_request,
  finalize_response, handle, step_to, trailers_of_request, trailers_of_response,
}
use envoy_mcp_openapi_proces.Wire.{ProcessingResponse}

-- The messages of one stream handled one after the other, with all responses in order.
unfoldable pub handle_all :
    Codecs → ExtProcServer → State → Bytes → List ProcessingRequest → Outcome
handle_all k server st buf [] = step_to st buf []
handle_all k server st buf (req ∷ reqs) = elim (handle k server st buf req) [
  | err v ↦ err v
  | ok s ↦ elim (handle_all k server s.next s.buf reqs) [
    | err v ↦ err v
    | ok t ↦ ok (record t { responses = s.responses ++ t.responses })
  ]
]

-- Chunks of a request's body that do not end it.
abbrev pub request_chunks : List Bytes → List ProcessingRequest → List ProcessingRequest
request_chunks [] after = after
request_chunks (c ∷ cs) after = body_of_request c false ∷ request_chunks cs after

abbrev pub response_chunks : List Bytes → List ProcessingRequest → List ProcessingRequest
response_chunks [] after = after
response_chunks (c ∷ cs) after = body_of_response c false ∷ response_chunks cs after

module _ (k : Codecs) (server : ExtProcServer) (after : List ProcessingRequest) where
  -- A message that moves the state and sends nothing.
  pub silent :
      (st : State) (buf : Bytes) (req : ProcessingRequest) (st' : State) (buf' : Bytes)
      → handle k server st buf req ≡ step_to st' buf' []
      → handle_all k server st buf (req ∷ after) ≡ handle_all k server st' buf' after
  unfolding handle_all
  silent st buf req st' buf' e = ground arith

module _ (k : Codecs) (server : ExtProcServer) where
  pub request_chunks_buffer :
      (hdrs : McpRequestHeaders) (cs : List Bytes) (buf : Bytes) (after : List ProcessingRequest)
      → handle_all k server (buffering_request hdrs) buf (request_chunks cs after)
        ≡ handle_all k server (buffering_request hdrs) (buf ++ concat_all cs) after
  request_chunks_buffer hdrs [] buf after = rw append-nil
  request_chunks_buffer hdrs (c ∷ cs) buf after =
      silent k server (request_chunks cs after) (buffering_request hdrs) buf
        (body_of_request c false) (buffering_request hdrs) (buf ++ c) (unfold handle in refl)
      ∙ request_chunks_buffer hdrs cs (buf ++ c) after
      ∙ rw append_assoc

  response_chunks_buffer :
      (rc : RequestContext) (cs : List Bytes) (buf : Bytes) (after : List ProcessingRequest)
      → handle_all k server (buffering_response rc) buf (response_chunks cs after)
        ≡ handle_all k server (buffering_response rc) (buf ++ concat_all cs) after
  response_chunks_buffer rc [] buf after = rw append-nil
  response_chunks_buffer rc (c ∷ cs) buf after =
      silent k server (response_chunks cs after) (buffering_response rc) buf
        (body_of_response c false) (buffering_response rc) (buf ++ c) (unfold handle in refl)
      ∙ response_chunks_buffer rc cs (buf ++ c) after
      ∙ rw append_assoc

  draining_chunks :
      (reject : List ProcessingResponse) (cs : List Bytes) (buf : Bytes)
      (after : List ProcessingRequest)
      → handle_all k server (draining_request reject) buf (request_chunks cs after)
        ≡ handle_all k server (draining_request reject) buf after
  draining_chunks reject [] buf after = refl
  draining_chunks reject (c ∷ cs) buf after =
      silent k server (request_chunks cs after) (draining_request reject) buf
        (body_of_request c false) (draining_request reject) buf (unfold handle in refl)
      ∙ draining_chunks reject cs buf after

  -- One message that ends a phase.
  ends :
      (st : State) (buf : Bytes) (req : ProcessingRequest) (s : Step)
      → handle k server st buf req ≡ ok s
      → handle_all k server st buf (req ∷ []) ≡ ok s
  unfolding handle_all
  ends st buf req s e =
      rw (e, handle_all)
        (ap (λ (r : List ProcessingResponse). step_to s.next s.buf r) (append-nil s.responses))

module _ (k : Codecs) (server : ExtProcServer) where
  request_ends :
      (hdrs : McpRequestHeaders) (buf last : Bytes)
      → (handle_all k server (buffering_request hdrs) buf (body_of_request last true ∷ [])
          ≡ finalize_request k server hdrs (buf ++ last) false)
        × (handle_all k server (buffering_request hdrs) buf (trailers_of_request ∷ [])
            ≡ finalize_request k server hdrs buf true)
  unfolding handle finalize_request
  request_ends hdrs buf last = (
    ends k server (buffering_request hdrs) buf _ _ refl,
    ends k server (buffering_request hdrs) buf _ _ refl,
  )

  response_ends :
      (rc : RequestContext) (buf last : Bytes)
      → (handle_all k server (buffering_response rc) buf (body_of_response last true ∷ [])
          ≡ finalize_response k server rc (buf ++ last) false)
        × (handle_all k server (buffering_response rc) buf (trailers_of_response ∷ [])
            ≡ finalize_response k server rc buf true)
  unfolding handle finalize_response
  response_ends rc buf last = (
    ends k server (buffering_response rc) buf _ _ refl,
    ends k server (buffering_response rc) buf _ _ refl,
  )

-- However a request's body is cut into chunks, the handler sees the whole body: the phase ends as
-- it does for the pieces put together, with the last one in the final chunk, or with all of them
-- before trailers. Nothing is sent before.
pub request_body_chunking :
    (k : Codecs) (server : ExtProcServer) (hdrs : McpRequestHeaders) (cs : List Bytes)
    (last buf : Bytes)
    → (handle_all k server
          (buffering_request hdrs)
          buf
          (request_chunks cs (body_of_request last true ∷ []))
        ≡ finalize_request k server hdrs (buf ++ (concat_all cs ++ last)) false)
      × (handle_all k server
            (buffering_request hdrs)
            buf
            (request_chunks cs (trailers_of_request ∷ []))
          ≡ finalize_request k server hdrs (buf ++ concat_all cs) true)
request_body_chunking k server hdrs cs last buf = (
  request_chunks_buffer k server hdrs cs buf (body_of_request last true ∷ [])
      ∙ (request_ends k server hdrs (buf ++ concat_all cs) last).0
      ∙ rw append_assoc,
  request_chunks_buffer k server hdrs cs buf (trailers_of_request ∷ [])
      ∙ (request_ends k server hdrs (buf ++ concat_all cs) last).1,
)

-- However the upstream response's body is cut into chunks, the answer is made of the whole body: the
-- phase ends as it does for the pieces put together, with the last one in the final chunk, or with
-- all of them before trailers. Nothing is sent before.
pub response_body_chunking :
    (k : Codecs) (server : ExtProcServer) (rc : RequestContext) (cs : List Bytes) (last buf : Bytes)
    → (handle_all k server
          (buffering_response rc)
          buf
          (response_chunks cs (body_of_response last true ∷ []))
        ≡ finalize_response k server rc (buf ++ (concat_all cs ++ last)) false)
      × (handle_all k server
            (buffering_response rc)
            buf
            (response_chunks cs (trailers_of_response ∷ []))
          ≡ finalize_response k server rc (buf ++ concat_all cs) true)
response_body_chunking k server rc cs last buf = (
  response_chunks_buffer k server rc cs buf (body_of_response last true ∷ [])
      ∙ (response_ends k server rc (buf ++ concat_all cs) last).0
      ∙ rw append_assoc,
  response_chunks_buffer k server rc cs buf (trailers_of_response ∷ [])
      ∙ (response_ends k server rc (buf ++ concat_all cs) last).1,
)

-- A rejected request's body is read to its end before the rejection is sent: after any number of
-- chunks that do not end it, nothing has been sent and the rejection is still held; with the last
-- chunk or with trailers exactly the rejection is sent. The body is not kept, and the stream then
-- awaits the next request.
pub rejection_deferred :
    (k : Codecs) (server : ExtProcServer) (reject : List ProcessingResponse) (cs : List Bytes)
    (last buf : Bytes)
    → (handle_all k server
          (draining_request reject)
          buf
          (request_chunks cs (body_of_request last true ∷ []))
        ≡ step_to awaiting_request_headers buf reject)
      × (handle_all k server
            (draining_request reject)
            buf
            (request_chunks cs (trailers_of_request ∷ []))
          ≡ step_to awaiting_request_headers buf reject)
      × (handle_all k server (draining_request reject) buf (request_chunks cs [])
          ≡ step_to (draining_request reject) buf [])
unfolding handle handle_all
rejection_deferred k server reject cs last buf = (
  draining_chunks k server reject cs buf (body_of_request last true ∷ [])
      ∙ ends k server (draining_request reject) buf (body_of_request last true) _ refl,
  draining_chunks k server reject cs buf (trailers_of_request ∷ [])
      ∙ ends k server (draining_request reject) buf trailers_of_request _ refl,
  draining_chunks k server reject cs buf [],
)
