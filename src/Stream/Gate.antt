-- ===== src/Stream/Gate.antt =====
-- What a stream must have seen before a request is handled or forwarded.
use envoy_mcp_openapi_proces.Common.{
  Bool, Bytes, List, Option, [], arith, err, false, if◌then◌else◌, none, not, ok, refl, some, subst,
  true, ◌++◌, ◌∙◌, ◌∷◌, ◌≡◌,
}
use envoy_mcp_openapi_proces.Handler.{
  ExtProcServer, RequestContext, is_tool_call, mcp_request_handler,
}
use envoy_mcp_openapi_proces.Headers.{capture_mcp_request_headers}
use envoy_mcp_openapi_proces.Hosts.{check_headers}
use envoy_mcp_openapi_proces.Hosts.Checking.{Accepted, check_headers_iff}
use envoy_mcp_openapi_proces.Protocol.{Codecs}
use envoy_mcp_openapi_proces.Stream.Machine.{
  Outcome, ProcessingRequest, State, Step, awaiting_request_headers, awaiting_response_headers,
  body_of_request, body_of_response, buffering_request, buffering_response, draining_request,
  finalize_request, finalize_response, handle, handle_request_headers, handle_response_headers,
  headers_of_request, headers_of_response, method_allowed, request_context, trailers_of_request,
  trailers_of_response, with_status,
}
use envoy_mcp_openapi_proces.Wire.{HeaderValue, forbidden_response}

-- The request headers that a state goes back to have passed the checks.
abbrev Passed : Codecs → ExtProcServer → List HeaderValue → Type 0
Passed k server headers =
    (method_allowed headers ≡ true) × Accepted k.url_hostname server.allowed_hosts headers

-- A run of the stream: the messages that were handled, the last first, and all that was sent.
pub data Reach (k : Codecs) (server : ExtProcServer)
    : List ProcessingRequest → State → Bytes → Type 0 where
  start : Reach k server [] awaiting_request_headers []
  then_handle :
      {seen : List ProcessingRequest} {st : State} {buf : Bytes} (req : ProcessingRequest)
      (s : Step)
      → Reach k server seen st buf
      → handle k server st buf req ≡ ok s
      → Reach k server (req ∷ seen) s.next s.buf

-- The request headers that came last.
abbrev pub last_headers : List ProcessingRequest → Option (List HeaderValue)
last_headers [] = none
last_headers (headers_of_request hs e ∷ seen) = some hs
last_headers (_ ∷ seen) = last_headers seen

-- The body that came since then.
abbrev pub body_since : List ProcessingRequest → Bytes
body_since [] = []
body_since (body_of_request b e ∷ seen) = body_since seen ++ b
body_since (headers_of_request hs e ∷ seen) = []
body_since (_ ∷ seen) = body_since seen

module _ (k : Codecs) (server : ExtProcServer) where
  -- The last request headers passed the checks.
  pub record Admitted (seen : List ProcessingRequest) : Type 0 where
    pub headers : List HeaderValue
    pub last : last_headers seen ≡ some headers
    pub post : method_allowed headers ≡ true
    pub accepted : Accepted k.url_hostname server.allowed_hosts headers

  -- What holds in each state.
  abbrev pub Behind : List ProcessingRequest → State → Bytes → Type 0
  Behind seen awaiting_request_headers buf = Unit
  Behind seen (draining_request reject) buf = reject ≡ forbidden_response
  Behind seen (buffering_request hdrs) buf =
      (a : Admitted seen) × (hdrs ≡ capture_mcp_request_headers a.headers) × (buf ≡ body_since seen)
  Behind seen (awaiting_response_headers rc) buf =
      (a : Admitted seen) × (rc
        ≡ request_context k server (
            mcp_request_handler k server (body_since seen) (capture_mcp_request_headers a.headers)))
  Behind seen (buffering_response rc) buf = Admitted seen × (is_tool_call rc ≡ true)

  abbrev BehindAfter : List ProcessingRequest → Outcome → Type 0
  BehindAfter seen (ok s) = Behind seen s.next s.buf
  BehindAfter seen (err v) = Unit

  BehindAfter-if :
      (seen : List ProcessingRequest) (b : Bool) (x y : Outcome)
      → (b ≡ true → BehindAfter seen x)
      → (b ≡ false → BehindAfter seen y)
      → BehindAfter seen (if b then x else y)
  BehindAfter-if seen true x y h g = h refl
  BehindAfter-if seen false x y h g = g refl

  request_headers-Behind :
      (seen : List ProcessingRequest) (buf : Bytes) (hs : List HeaderValue) (e : Bool)
      → BehindAfter (headers_of_request hs e ∷ seen) (handle_request_headers k server buf hs e)
  unfolding handle_request_headers
  request_headers-Behind seen buf hs e =
      let now = headers_of_request hs e ∷ seen in
      BehindAfter-if now (not (method_allowed hs)) _ _ (λ refused. tt)
        (λ post.
          BehindAfter-if now (not (check_headers k.url_hostname server.allowed_hosts hs).0) _ _
            (λ blocked. BehindAfter-if now e _ _ (λ last. tt) (λ more. refl))
            (λ passed.
              BehindAfter-if now e _ _ (λ last. tt)
                (λ more. (
                  record {
                    headers = hs;
                    last = refl;
                    post = ground arith;
                    accepted =
                        (check_headers_iff k.url_hostname server.allowed_hosts hs).0 (ground arith);
                  },
                  refl,
                  refl,
                ))))

  abbrev keep :
      (seen seen' : List ProcessingRequest)
      → last_headers seen' ≡ last_headers seen
      → Admitted seen
      → Admitted seen'
  keep seen seen' same a = record {
    headers = a.headers;
    last = same ∙ a.last;
    post = a.post;
    accepted = a.accepted;
  }

  with_status-is_tool_call :
      (rc : RequestContext) (hs : List HeaderValue)
      → is_tool_call (with_status k server rc hs) ≡ is_tool_call rc
  unfolding with_status is_tool_call
  with_status-is_tool_call rc hs = ground arith

  response_headers-Behind :
      (seen : List ProcessingRequest) (rc : RequestContext) (buf : Bytes) (hs : List HeaderValue)
      (e : Bool)
      → Admitted seen
      → BehindAfter (headers_of_response hs e ∷ seen) (handle_response_headers k server rc buf hs e)
  unfolding handle_response_headers
  response_headers-Behind seen rc buf hs e a =
      let now = headers_of_response hs e ∷ seen in
      BehindAfter-if now (not (is_tool_call rc)) _ _ (λ other. tt)
        (λ call.
          BehindAfter-if now e _ _ (λ last. tt)
            (λ more. (keep seen now refl a, with_status-is_tool_call rc hs ∙ ground arith)))

  handle-Behind :
      (seen : List ProcessingRequest) (st : State) (buf : Bytes) (req : ProcessingRequest)
      → Behind seen st buf
      → BehindAfter (req ∷ seen) (handle k server st buf req)
  unfolding handle finalize_request finalize_response
  handle-Behind seen awaiting_request_headers buf (headers_of_request hs e) h =
      request_headers-Behind seen buf hs e
  handle-Behind seen awaiting_request_headers buf _ h = tt
  handle-Behind seen (draining_request reject) buf (body_of_request b e) h =
      BehindAfter-if (body_of_request b e ∷ seen) e _ _ (λ last. tt) (λ more. h)
  handle-Behind seen (draining_request reject) buf trailers_of_request h = tt
  handle-Behind seen (draining_request reject) buf _ h = tt
  handle-Behind seen (buffering_request hdrs) buf (body_of_request b e) (a, captured, body) =
      let now = body_of_request b e ∷ seen in
      BehindAfter-if now e _ _ (λ last. (keep seen now refl a, rw (captured, body)))
        (λ more. (keep seen now refl a, captured, rw body))
  handle-Behind seen (buffering_request hdrs) buf trailers_of_request (a, captured, body) =
      (keep seen (trailers_of_request ∷ seen) refl a, rw (captured, body))
  handle-Behind seen (buffering_request hdrs) buf _ h = tt
  handle-Behind seen (awaiting_response_headers rc) buf (headers_of_response hs e) (a, context) =
      response_headers-Behind seen rc buf hs e a
  handle-Behind seen (awaiting_response_headers rc) buf _ h = tt
  handle-Behind seen (buffering_response rc) buf (body_of_response b e) (a, call) =
      let now = body_of_response b e ∷ seen in
      BehindAfter-if now e _ _ (λ last. tt) (λ more. (keep seen now refl a, call))
  handle-Behind seen (buffering_response rc) buf trailers_of_response h = tt
  handle-Behind seen (buffering_response rc) buf _ h = tt

-- In every run of a stream: a request's body is collected, handled and answered for only after
-- the last request headers were a POST (or named no method) whose Host and Origin are allowed. The
-- body that is buffered is all that came since, the context kept for the response is that of the
-- handler's answer to that body and those headers, a response is collected for a tool call only,
-- and a body that is drained is one to be refused with 403.
pub Reach-Behind :
    (k : Codecs) (server : ExtProcServer) {seen : List ProcessingRequest} {st : State} {buf : Bytes}
    → Reach k server seen st buf
    → Behind k server seen st buf
Reach-Behind k server start = tt
Reach-Behind k server (then_handle {seen} {st} {buf} req s r e) =
    subst (BehindAfter k server (req ∷ seen)) e
      (handle-Behind k server seen st buf req (Reach-Behind k server r))
