-- ===== src/Wire/Build.antt =====
-- The constructors of extproc_response.go.
use envoy_mcp_openapi_proces.Common.{
  Bool, Bytes, List, [], drop, if◌then◌else◌, is_empty, length, min, none, not, some, suc, take,
  zero, ℕ, ◌&&◌, ◌*◌, ◌++◌, ◌∷◌,
}
use envoy_mcp_openapi_proces.Common.Text.{codes}
use envoy_mcp_openapi_proces.Wire.Types.{
  CommonResponse, HeaderValueOption, ImmediateResponse, MessageFactory, ProcessingResponse,
  StreamedMutation, continue, continue_and_replace, immediate, overwrite_if_exists_or_add,
  request_body, request_headers, request_trailers, response_body, response_headers,
  response_trailers, streamed, whole,
}

abbrev pub kb : ℕ
kb = 1024

unfoldable pub stream_chunk_size : ℕ
stream_chunk_size = 60 * kb

abbrev pub content_headers : List Bytes
content_headers = codes "content-length" ∷ codes "content-type" ∷ []

abbrev pub remove_on_routing_headers : List Bytes
remove_on_routing_headers =
    codes "content-length"
    ∷ codes "content-type"
    ∷ codes "mcp-protocol-version"
    ∷ codes "mcp-method"
    ∷ codes "mcp-name"
    ∷ []

-- `&extProcPb.CommonResponse{}`
abbrev pub empty_common : CommonResponse
empty_common = record { status = continue; header_mutation = none; body_mutation = none }

abbrev pub request_factory : MessageFactory
request_factory = record {
  wrap_headers = request_headers;
  wrap_body = request_body;
  trailer = request_trailers;
}

abbrev pub response_factory : MessageFactory
response_factory = record {
  wrap_headers = response_headers;
  wrap_body = response_body;
  trailer = response_trailers;
}

unfoldable pub append_header : List HeaderValueOption → Bytes → Bytes → List HeaderValueOption
append_header headers key value =
    headers
    ++ (record {
      header = record { key = key; raw_value = value };
      append_action = overwrite_if_exists_or_add;
    }
        ∷ [])

-- The empty request-headers response acknowledges the message that is still unanswered.
unfoldable pub immediate_response : ImmediateResponse → List ProcessingResponse
immediate_response r = request_factory.wrap_headers empty_common ∷ immediate r ∷ []

unfoldable pub http_status_response : ℕ → List ProcessingResponse
unfolding immediate_response
http_status_response status =
    immediate_response (record { status = status; headers = none; body = [] })

unfoldable pub method_not_allowed_response : List ProcessingResponse
unfolding immediate_response append_header
method_not_allowed_response = immediate_response (record {
  status = 405;
  headers = some (record {
    set_headers = append_header [] (codes "allow") (codes "POST");
    remove_headers = [];
  });
  body = [];
})

unfoldable pub forbidden_response : List ProcessingResponse
unfolding http_status_response
forbidden_response = http_status_response 403

unfoldable pub new_immediate_body_response_with_status : Bytes → ℕ → List ProcessingResponse
unfolding immediate_response append_header
new_immediate_body_response_with_status body status = immediate_response (record {
  status = status;
  headers = some (record {
    set_headers = append_header [] (codes "content-type") (codes "application/json");
    remove_headers = [];
  });
  body = body;
})

unfoldable pub new_immediate_body_response : Bytes → List ProcessingResponse
unfolding new_immediate_body_response_with_status
new_immediate_body_response body = new_immediate_body_response_with_status body 200

unfoldable pub new_streamed_body_response : Bytes → Bool → CommonResponse
new_streamed_body_response chunk end_of_stream = record {
  status = continue;
  header_mutation = none;
  body_mutation = some (streamed (record { body = chunk; end_of_stream = end_of_stream }));
}

unfoldable pub header_mutation :
    MessageFactory → List HeaderValueOption → List Bytes → ProcessingResponse
header_mutation f set remove = f.wrap_headers (record {
  status = continue;
  header_mutation = some (record { set_headers = set; remove_headers = remove });
  body_mutation = none;
})

-- The loop over the map `extraHeaders`, in the order of the list.
unfoldable pub append_headers :
    List HeaderValueOption → List (Bytes × Bytes) → List HeaderValueOption
unfolding append_header
append_headers headers [] = headers
append_headers headers ((key, value) ∷ more) = append_headers (append_header headers key value) more

unfoldable pub reroute_with_body_mutation :
    (host method path body : Bytes) → List (Bytes × Bytes) → List Bytes → StreamedMutation
unfolding append_headers header_mutation
reroute_with_body_mutation host method path body extra_headers strip_headers =
    let h0 = append_headers [] extra_headers in
    let h1 = append_header h0 (codes ":method") method in
    let h2 = append_header h1 (codes ":path") path in
    let headers = append_header h2 (codes ":authority") host in
    let remove_headers = remove_on_routing_headers ++ strip_headers in
    record { headers = header_mutation request_factory headers remove_headers; body = body }

unfoldable pub new_replaced_response : List HeaderValueOption → Bytes → List ProcessingResponse
unfolding append_header
new_replaced_response headers body =
    response_factory.wrap_headers (record {
      status = continue_and_replace;
      header_mutation = some (record {
        set_headers = append_header headers (codes ":status") (codes "200");
        remove_headers = content_headers;
      });
      body_mutation = some (whole body);
    })
    ∷ []

-- The loop of `frame`. One round takes a chunk off the body, so a fuel above the body's length is
-- enough.
unfoldable pub frame_chunks : ℕ → ℕ → MessageFactory → Bool → Bytes → List ProcessingResponse
unfolding new_streamed_body_response
frame_chunks zero size f has_trailers body = []
frame_chunks (suc fuel) size f has_trailers body =
    let end = min (length body) size in
    let chunk = take end body in
    let rest = drop end body in
    let last = is_empty rest in
    let more = frame_chunks fuel size f has_trailers rest in
    f.wrap_body (new_streamed_body_response chunk (last && not has_trailers))
    ∷ (if last then [] else more)

unfoldable pub frame : StreamedMutation → MessageFactory → Bool → List ProcessingResponse
unfolding frame_chunks stream_chunk_size
frame m f has_trailers =
    let chunks = frame_chunks (suc (length m.body)) stream_chunk_size f has_trailers m.body in
    m.headers ∷ (chunks ++ (if has_trailers then f.trailer ∷ [] else []))
