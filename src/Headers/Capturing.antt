-- ===== src/Headers/Capturing.antt =====
-- What is captured of a request's headers.
use envoy_mcp_openapi_proces.Common.{
  Bool-cases, Bytes, List, [], ap, append-nil, append_assoc, arith, equal, equal_iff, false,
  if◌then◌else◌, inl, inr, refl, sym, true, ◌++◌, ◌∙◌, ◌∷◌, ◌≡◌,
}
use envoy_mcp_openapi_proces.Common.Text.{codes, has_prefix, to_lower}
use envoy_mcp_openapi_proces.Headers.{
  Capture, FirstHeaderValue, capture, capture_all, capture_header, capture_mcp_request_headers,
  header_value, nothing_captured, unseen,
}
use envoy_mcp_openapi_proces.Wire.{HeaderValue}

-- The first value of a header, by its name in any case, empty where it is absent.
abbrev pub first_value : Bytes → List HeaderValue → Bytes
first_value key [] = []
first_value key (h ∷ hs) = if equal (to_lower h.key) key then header_value h else first_value key hs

-- The names of the parameter headers, in order.
abbrev pub param_keys : List HeaderValue → List Bytes
param_keys [] = []
param_keys (h ∷ hs) =
    let more = param_keys hs in
    if has_prefix (to_lower h.key) (codes "mcp-param-") then to_lower h.key ∷ more else more

-- One variable of the loop, over the headers of its name.
abbrev step : Bytes → FirstHeaderValue → HeaderValue → FirstHeaderValue
step key f h = if equal (to_lower h.key) key then capture f h else f

abbrev steps : Bytes → FirstHeaderValue → List HeaderValue → FirstHeaderValue
steps key f [] = f
steps key f (h ∷ hs) = steps key (step key f h) hs

steps_seen :
    (key value : Bytes) (hs : List HeaderValue)
    → steps key (record { value = value; seen = true }) hs ≡ record { value = value; seen = true }
unfolding capture
steps_seen key value [] = refl
steps_seen key value (h ∷ hs) = ground (arith, steps_seen key value hs)

steps-first_value :
    (key : Bytes) (hs : List HeaderValue) → (steps key unseen hs).value ≡ first_value key hs
unfolding capture
steps-first_value key [] = refl
steps-first_value key (h ∷ hs) =
    ground (arith, steps-first_value key hs, steps_seen key (header_value h) hs)

abbrev version_key : Bytes
version_key = codes "mcp-protocol-version"

abbrev method_key : Bytes
method_key = codes "mcp-method"

abbrev name_key : Bytes
name_key = codes "mcp-name"

-- No header is read as two of the four kinds.
kinds_apart :
    (has_prefix version_key (codes "mcp-param-") ≡ false)
    × (has_prefix method_key (codes "mcp-param-") ≡ false)
    × (has_prefix name_key (codes "mcp-param-") ≡ false)
unfolding has_prefix
kinds_apart = (refl, refl, refl)

module _ (s : Capture) (h : HeaderValue) where
  capture_header_version :
      (capture_header s h).protocol_version ≡ step version_key s.protocol_version h
  unfolding capture_header
  capture_header_version = ground arith

  capture_header_method : (capture_header s h).method ≡ step method_key s.method h
  unfolding capture_header
  capture_header_method =
      ground (arith, equal_iff (to_lower h.key) version_key, equal_iff (to_lower h.key) method_key)

  capture_header_name : (capture_header s h).name ≡ step name_key s.name h
  unfolding capture_header
  capture_header_name = ground (
    arith,
    equal_iff (to_lower h.key) version_key,
    equal_iff (to_lower h.key) method_key,
    equal_iff (to_lower h.key) name_key,
  )

  capture_header_params : (capture_header s h).param_header_names ≡ (
      if has_prefix (to_lower h.key) (codes "mcp-param-")
      then s.param_header_names ++ to_lower h.key ∷ []
      else s.param_header_names)
  unfolding capture_header
  capture_header_params = ground (
    arith,
    equal_iff (to_lower h.key) version_key,
    equal_iff (to_lower h.key) method_key,
    equal_iff (to_lower h.key) name_key,
    kinds_apart,
  )

capture_all_fields :
    (s : Capture) (hs : List HeaderValue)
    → ((capture_all s hs).protocol_version ≡ steps version_key s.protocol_version hs)
      × ((capture_all s hs).method ≡ steps method_key s.method hs)
      × ((capture_all s hs).name ≡ steps name_key s.name hs)
      × ((capture_all s hs).param_header_names ≡ s.param_header_names ++ param_keys hs)
unfolding capture_all
capture_all_fields s [] = (refl, refl, refl, sym (append-nil s.param_header_names))
capture_all_fields s (h ∷ hs) =
    let (v, m, n, p) = capture_all_fields (capture_header s h) hs in
    (
      v ∙ ap (λ f. steps version_key f hs) (capture_header_version s h),
      m ∙ ap (λ f. steps method_key f hs) (capture_header_method s h),
      n ∙ ap (λ f. steps name_key f hs) (capture_header_name s h),
      p ∙ elim (Bool-cases (has_prefix (to_lower h.key) (codes "mcp-param-"))) [
        | inl param ↦
            rw (capture_header_params s h)
              (rw param (append_assoc s.param_header_names (to_lower h.key ∷ []) (param_keys hs)))
        | inr other ↦ rw (capture_header_params s h) (rw other)
      ],
    )

-- The captured values are the trimmed values of the first header of each name, in any case, also
-- where that value is empty and a later one is not, and empty where there is none; the captured
-- parameter headers are all those of the prefix, in order and nothing else.
pub capture_mcp_request_headers_lem :
    (headers : List HeaderValue)
    → capture_mcp_request_headers headers ≡ record {
      protocol_version = first_value (codes "mcp-protocol-version") headers;
      method = first_value (codes "mcp-method") headers;
      name = first_value (codes "mcp-name") headers;
      param_header_names = param_keys headers;
    }
unfolding capture_mcp_request_headers
capture_mcp_request_headers_lem headers =
    let (v, m, n, p) = capture_all_fields nothing_captured headers in
    ground (
      arith,
      v,
      m,
      n,
      p,
      steps-first_value version_key headers,
      steps-first_value method_key headers,
      steps-first_value name_key headers,
    )
