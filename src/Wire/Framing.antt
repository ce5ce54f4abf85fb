-- ===== src/Wire/Framing.antt =====
-- What `frame` puts on the wire.
use envoy_mcp_openapi_proces.Common.{
  Bool, Bool-cases, Bytes, List, Option, [], ap, append-nil, append_assoc, arith, drop, false,
  if◌then◌else◌, inl, inr, is_empty, length, length-drop, length-pos_of_not_empty, length-take, min,
  nil_of_is_empty, none, not, refl, some, suc, sym, take, take-append-drop, true, zero, ℕ, ◌&&◌,
  ◌++◌, ◌<◌, ◌∙◌, ◌∷◌, ◌≡◌, ◌≤◌,
}
use envoy_mcp_openapi_proces.Wire.Build.{
  frame, frame_chunks, new_streamed_body_response, request_factory, response_factory,
  stream_chunk_size,
}
use envoy_mcp_openapi_proces.Wire.Types.{
  BodyMutation, CommonResponse, MessageFactory, ProcessingResponse, StreamedBody, StreamedMutation,
  request_body, request_headers, request_trailers, response_body, response_headers,
  response_trailers, streamed,
}

-- A legal sequence of messages for a body: full chunks with no end mark, then one chunk that is
-- not longer than `size`; the end of the stream is marked once, by that chunk or by trailers.
pub data Framed (size : ℕ) (f : MessageFactory) (has_trailers : Bool)
    : Bytes → List ProcessingResponse → Type 0 where
  last_chunk :
      {b : Bytes} {rs : List ProcessingResponse}
      → length b ≤ size
      → rs
        ≡ f.wrap_body (new_streamed_body_response b (not has_trailers))
          ∷ (if has_trailers then f.trailer ∷ [] else [])
      → Framed size f has_trailers b rs
  full_chunk :
      {b rest : Bytes} {rs : List ProcessingResponse} (c : Bytes)
      → b ≡ c ++ rest
      → length c ≡ size
      → 0 < length rest
      → Framed size f has_trailers rest rs
      → Framed size f has_trailers b (f.wrap_body (new_streamed_body_response c false) ∷ rs)

module _ (size : ℕ) (f : MessageFactory) (has_trailers : Bool) (positive : 0 < size) where
  abbrev tail_of : List ProcessingResponse
  tail_of = if has_trailers then f.trailer ∷ [] else []

  frame_chunks-Framed :
      (fuel : ℕ) (b : Bytes)
      → length b < fuel
      → Framed size f has_trailers b (frame_chunks fuel size f has_trailers b ++ tail_of)
  unfolding frame_chunks
  frame_chunks-Framed zero b h = elim h [ ]
  frame_chunks-Framed (suc fuel) b h =
      let end = min (length b) size in
      let split = take-append-drop end b in
      elim (Bool-cases (is_empty (drop end b))) [
        | inl empty ↦
            let no_rest = nil_of_is_empty (drop end b) empty in
            let whole : take end b ≡ b = sym (append-nil (take end b)) ∙ rw no_rest at split in
            last_chunk (omega (arith, length-drop end b, ap length no_rest))
              (rw (empty, whole) refl)
        | inr more ↦
            let pos = length-pos_of_not_empty (drop end b) more in
            rw more (
              full_chunk (take end b) (sym split)
                (omega (arith, length-take end b, length-drop end b)) pos
                (frame_chunks-Framed fuel (drop end b) (omega (arith, length-drop end b))))
      ]

-- Framing a body gives the header mutation and then a legal sequence of chunks for exactly that
-- body: the chunks put together are the body, every chunk but the last is full, the last is not
-- longer than the chunk size, and the end of the stream is marked once and last, on the last chunk
-- without trailers and by the trailers message with them.
pub frame-Framed :
    (m : StreamedMutation) (f : MessageFactory) (has_trailers : Bool)
    → (rs : List ProcessingResponse) × (frame m f has_trailers ≡ m.headers ∷ rs)
      × Framed stream_chunk_size f has_trailers m.body rs
unfolding frame
frame-Framed m f has_trailers = (
  _,
  refl,
  frame_chunks-Framed stream_chunk_size f has_trailers (unfold stream_chunk_size in omega arith)
      (suc (length m.body)) m.body (omega arith),
)

pub data Direction : Type 0 where
  to_upstream to_client : Direction

abbrev is_headers : Direction → ProcessingResponse → Bool
is_headers to_upstream (request_headers r) = true
is_headers to_client (response_headers r) = true
is_headers _ _ = false

abbrev is_trailers : Direction → ProcessingResponse → Bool
is_trailers to_upstream request_trailers = true
is_trailers to_client response_trailers = true
is_trailers _ _ = false

abbrev streamed_part : Option BodyMutation → Option StreamedBody
streamed_part (some (streamed s)) = some s
streamed_part _ = none

abbrev chunk_of : Direction → ProcessingResponse → Option StreamedBody
chunk_of to_upstream (request_body r) = streamed_part r.body_mutation
chunk_of to_client (response_body r) = streamed_part r.body_mutation
chunk_of _ _ = none

-- A receiver of chunks: a body is whole at a chunk that ends the stream or at trailers, and nothing
-- may follow them. A message of another kind or direction, or none where one must come, is refused.
receive_body : Direction → Bytes → List ProcessingResponse → Option Bytes
receive_body d got [] = none
receive_body d got (r ∷ rs) = elim (chunk_of d r) [
  | none ↦ if is_trailers d r && is_empty rs then some got else none
  | some s ↦
      let rest = receive_body d (got ++ s.body) rs in
      if s.end_of_stream then (if is_empty rs then some (got ++ s.body) else none) else rest
]

pub receive : Direction → List ProcessingResponse → Option Bytes
receive d [] = none
receive d (h ∷ rs) =
    let whole_body = receive_body d [] rs in if is_headers d h then whole_body else none

module _ (d : Direction) (f : MessageFactory) (has_trailers : Bool)
    (chunks : (c : Bytes) (last : Bool)
      → chunk_of d (f.wrap_body (new_streamed_body_response c last))
        ≡ some (record { body = c; end_of_stream = last }))
    (no_chunk : chunk_of d f.trailer ≡ none) (trails : is_trailers d f.trailer ≡ true) where
  receive_body-Framed :
      {size : ℕ} {b : Bytes} {rs : List ProcessingResponse} (got : Bytes)
      → Framed size f has_trailers b rs
      → receive_body d got rs ≡ some (got ++ b)
  unfolding receive_body
  receive_body-Framed got (last_chunk {b} h e) = rw e (elim (Bool-cases has_trailers) [
    | inl t ↦ rw t (rw (chunks b false, receive_body) (rw (no_chunk, trails, receive_body) refl))
    | inr n ↦ rw n (rw (chunks b true, receive_body) refl)
  ])
  receive_body-Framed got (full_chunk c split full more rest) =
      rw (chunks c false, receive_body)
        (receive_body-Framed (got ++ c) rest
          ∙ ap some (append_assoc got c _ ∙ ap (λ x. got ++ x) (sym split)))

-- In both directions, a receiver that takes only the messages of its direction, headers first, and
-- nothing after the end of the stream, gets from the framed messages exactly the body.
pub receive-frame :
    (c : CommonResponse) (b : Bytes) (has_trailers : Bool)
    → (receive to_upstream
          (frame (record { headers = request_headers c; body = b }) request_factory has_trailers)
        ≡ some b)
      × (receive to_client (
            frame (record { headers = response_headers c; body = b }) response_factory has_trailers)
          ≡ some b)
unfolding receive new_streamed_body_response
receive-frame c b t =
    let (rs, e, framed) =
      frame-Framed (record { headers = request_headers c; body = b }) request_factory t in
    let (qs, d, framed') =
      frame-Framed (record { headers = response_headers c; body = b }) response_factory t in
    (
      rw e (receive_body-Framed to_upstream request_factory t (λ _ _. refl) refl refl [] framed),
      rw d (receive_body-Framed to_client response_factory t (λ _ _. refl) refl refl [] framed'),
    )
