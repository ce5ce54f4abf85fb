-- ===== src/Tests/Streams.antt =====
-- Streams of messages.
use envoy_mcp_openapi_proces.Common.{
  [], ap, concat_all, equal, false, length, refl, some, suc, true, ◌++◌, ◌==◌, ◌↔◌, ◌∷◌, ◌≡◌, ◌≤◌,
  ◌⊎◌,
}
use envoy_mcp_openapi_proces.Common.Text.{codes, has_prefix, has_suffix, to_lower, trim_space}
use envoy_mcp_openapi_proces.Handler.{mcp_request_handler, mcp_response_handler}
use envoy_mcp_openapi_proces.Headers.{capture_all, capture_header, capture_mcp_request_headers}
use envoy_mcp_openapi_proces.Hosts.{
  allows, check_headers, check_host, check_origin, find_header, normalize_hostname,
}
use envoy_mcp_openapi_proces.Protocol.{is_valid}
use envoy_mcp_openapi_proces.Std.HostPort.{split_host_port}
use envoy_mcp_openapi_proces.Stream.{
  awaiting_request_headers, body_of_request, buffering_request, closed, draining_request,
  finalize_request, handle, handle_request_headers, headers_of_request, method_allowed, process,
  received_message, send_failed, step_to, stream_closed, trailers_of_request,
}
use envoy_mcp_openapi_proces.Stream.Buffering.{
  handle_all, rejection_deferred, request_body_chunking, request_chunks,
}
use envoy_mcp_openapi_proces.Stream.Exchange.{context_of, exchange, tool_call_exchange}
use envoy_mcp_openapi_proces.Stream.Gate.{Behind, Reach-Behind, start, then_handle}
use envoy_mcp_openapi_proces.Stream.Running.{process_closes, process_send_bound, received_all}
use envoy_mcp_openapi_proces.Stream.Sequence.{InSequence, Succeeds, handle-InSequence}
use envoy_mcp_openapi_proces.Tests.Calls.{forwards}
use envoy_mcp_openapi_proces.Tests.Sample.{
  codecs, get_user_7, local_only, no_headers, post_headers, server, upstream_headers,
}
use envoy_mcp_openapi_proces.Wire.{forbidden_response, frame, request_factory, response_factory}

handle-InSequence_example :
    Succeeds (handle codecs server awaiting_request_headers [] trailers_of_request)
    ↔ InSequence awaiting_request_headers trailers_of_request
handle-InSequence_example =
    handle-InSequence codecs server awaiting_request_headers trailers_of_request []

request_body_chunking_example :
    (handle_all codecs server
        (buffering_request no_headers)
        []
        (request_chunks (codes "a" ∷ []) (body_of_request (codes "b") true ∷ []))
      ≡ finalize_request codecs server no_headers
          ([] ++ (concat_all (codes "a" ∷ []) ++ codes "b"))
          false)
    × (handle_all codecs server
          (buffering_request no_headers)
          []
          (request_chunks (codes "a" ∷ []) (trailers_of_request ∷ []))
        ≡ finalize_request codecs server no_headers ([] ++ concat_all (codes "a" ∷ [])) true)
request_body_chunking_example =
    request_body_chunking codecs server no_headers (codes "a" ∷ []) (codes "b") []

rejection_deferred_example :
    (handle_all codecs server
        (draining_request forbidden_response)
        []
        (request_chunks (codes "a" ∷ []) (body_of_request (codes "b") true ∷ []))
      ≡ step_to awaiting_request_headers [] forbidden_response)
    × (handle_all codecs server
          (draining_request forbidden_response)
          []
          (request_chunks (codes "a" ∷ []) (trailers_of_request ∷ []))
        ≡ step_to awaiting_request_headers [] forbidden_response)
    × (handle_all codecs server
          (draining_request forbidden_response)
          []
          (request_chunks (codes "a" ∷ []) [])
        ≡ step_to (draining_request forbidden_response) [] [])
rejection_deferred_example =
    rejection_deferred codecs server forbidden_response (codes "a" ∷ []) (codes "b") []

post : method_allowed post_headers ≡ true
unfolding method_allowed find_header equal
post = refl

passed : (check_headers codecs.url_hostname local_only post_headers).0 ≡ true
unfolding check_headers find_header check_host check_origin allows normalize_hostname
    split_host_port trim_space equal has_prefix has_suffix to_lower
passed = refl

captured : capture_mcp_request_headers post_headers ≡ no_headers
unfolding capture_mcp_request_headers capture_all capture_header equal to_lower has_prefix
captured = refl

call_reroute :
    (mcp_request_handler codecs server
      (concat_all (codes "a" ∷ []) ++ codes "b")
      (capture_mcp_request_headers post_headers)).reroute
    ≡ some get_user_7
call_reroute = rw captured (ap (λ r. r.reroute) (forwards (codes "ab")))

call_id_valid :
    is_valid
      (mcp_request_handler codecs server
        (concat_all (codes "a" ∷ []) ++ codes "b")
        (capture_mcp_request_headers post_headers)).id
    ≡ true
call_id_valid = rw (captured, forwards (codes "ab")) refl

tool_call_exchange_example :
    handle_all codecs server awaiting_request_headers [] (
      exchange post_headers
        (codes "a" ∷ [])
        (codes "b")
        upstream_headers
        (codes "c" ∷ [])
        (codes "d"))
    ≡ step_to awaiting_request_headers (concat_all (codes "c" ∷ []) ++ codes "d") (
        frame get_user_7 request_factory false
        ++ frame
            (mcp_response_handler codecs
              (context_of
                (mcp_request_handler codecs server
                  (concat_all (codes "a" ∷ []) ++ codes "b")
                  (capture_mcp_request_headers post_headers))
                upstream_headers)
              (concat_all (codes "c" ∷ []) ++ codes "d"))
            response_factory
            false)
tool_call_exchange_example =
    tool_call_exchange codecs server [] post_headers (codes "a" ∷ []) (codes "b") upstream_headers
      (codes "c" ∷ []) (codes "d") get_user_7 post passed call_reroute call_id_valid

headers_handled :
    handle codecs server awaiting_request_headers [] (headers_of_request post_headers false)
    ≡ step_to (buffering_request (capture_mcp_request_headers post_headers)) [] []
unfolding handle handle_request_headers
headers_handled = rw (post, passed) refl

Reach-Behind_example :
    Behind codecs server
      (headers_of_request post_headers false ∷ [])
      (buffering_request (capture_mcp_request_headers post_headers))
      []
Reach-Behind_example = Reach-Behind codecs server (
    then_handle (headers_of_request post_headers false)
      (record {
        next = buffering_request (capture_mcp_request_headers post_headers);
        buf = [];
        responses = [];
      })
      start headers_handled)

one_request :
    handle_all codecs server awaiting_request_headers []
      (headers_of_request post_headers false ∷ [])
    ≡ step_to (buffering_request (capture_mcp_request_headers post_headers)) [] []
unfolding handle_all
one_request = rw (headers_handled, handle_all) refl

process_closes_example :
    process codecs server
      (λ n. false)
      (received_all (headers_of_request post_headers false ∷ []) (stream_closed ∷ []))
    ≡ record { sent = []; exit = closed }
process_closes_example =
    process_closes codecs server (λ n. false) (headers_of_request post_headers false ∷ []) []
      (record {
        next = buffering_request (capture_mcp_request_headers post_headers);
        buf = [];
        responses = [];
      })
      (λ n. refl) one_request

process_send_bound_example :
    (length
        (process codecs server
          (λ n. n == 0)
          (received_message (headers_of_request [] true) ∷ [])).sent
      ≤ 0)
    ⊎ ((length
            (process codecs server
              (λ n. n == 0)
              (received_message (headers_of_request [] true) ∷ [])).sent
          ≡ suc 0)
        × ((process codecs server
              (λ n. n == 0)
              (received_message (headers_of_request [] true) ∷ [])).exit
            ≡ send_failed))
process_send_bound_example =
    process_send_bound codecs server (λ n. n == 0)
      (received_message (headers_of_request [] true) ∷ []) 0 refl
