-- ===== src/Tests/Parts.antt =====
-- Framing, host names, headers, paths, versions and the configuration.
use envoy_mcp_openapi_proces.Common.{
  All, Any, Bytes, List, [], arith, false, none, refl, some, true, ◌++◌, ◌↔◌, ◌∷◌, ◌≡◌, ◌≢◌, ◌⊎◌,
}
use envoy_mcp_openapi_proces.Common.Text.{codes, contains_byte, has_prefix, trim_space}
use envoy_mcp_openapi_proces.Config.{Config, valid_allowed_host, validate}
use envoy_mcp_openapi_proces.Config.Validating.{IsHostPattern, padded_wildcard, validate_iff}
use envoy_mcp_openapi_proces.Endpoint.{EndpointRequest, apply_path, new_endpoint_request}
use envoy_mcp_openapi_proces.Endpoint.Building.{Acceptable, is_ok, new_endpoint_request_iff}
use envoy_mcp_openapi_proces.Endpoint.Replacing.{
  Piece, apply_path-render, fill, literal, render, variable,
}
use envoy_mcp_openapi_proces.Era.{
  encode_result, is_modern_version, is_supported_version, latest_legacy_version, legacy_era,
  modern_era, negotiate_legacy_version, resolve_era,
}
use envoy_mcp_openapi_proces.Era.Envelope.{Stamps, encode_result-Stamps}
use envoy_mcp_openapi_proces.Era.Resolving.{NamesModern, resolve_era-NamesModern}
use envoy_mcp_openapi_proces.Era.Versions.{negotiate_legacy_version_lem}
use envoy_mcp_openapi_proces.Headers.{
  capture_mcp_request_headers, decode_header_value, validate_modern_headers,
}
use envoy_mcp_openapi_proces.Headers.Capturing.{
  capture_mcp_request_headers_lem, first_value, param_keys,
}
use envoy_mcp_openapi_proces.Headers.Decoding.{decode_header_value_wrapped}
use envoy_mcp_openapi_proces.Headers.Validating.{Mirrors, validate_modern_headers_iff}
use envoy_mcp_openapi_proces.Hosts.{allows, check_headers, effective, new_host_allowlist}
use envoy_mcp_openapi_proces.Hosts.Checking.{Accepted, check_headers_iff}
use envoy_mcp_openapi_proces.Hosts.Matching.{EntryMatches, allows_iff}
use envoy_mcp_openapi_proces.Json.{string}
use envoy_mcp_openapi_proces.Protocol.{InitializeResult, McpResult, call_tool, initialize, no_meta}
use envoy_mcp_openapi_proces.Std.Base64.{base64_encode}
use envoy_mcp_openapi_proces.Std.Order.{lt_bytes}
use envoy_mcp_openapi_proces.Tests.Sample.{
  codecs, get_user, get_user_7, info, local_only, no_headers, post_headers,
}
use envoy_mcp_openapi_proces.Wire.{
  ProcessingResponse, empty_common, frame, request_factory, request_headers, response_factory,
  response_headers, stream_chunk_size,
}
use envoy_mcp_openapi_proces.Wire.Framing.{
  Framed, frame-Framed, receive, receive-frame, to_client, to_upstream,
}

frame-Framed_example :
    (rs : List ProcessingResponse) × (frame get_user_7 request_factory true
      ≡ get_user_7.headers ∷ rs)
    × Framed stream_chunk_size request_factory true get_user_7.body rs
frame-Framed_example = frame-Framed get_user_7 request_factory true

receive-frame_example :
    (receive to_upstream (
        frame
          (record { headers = request_headers empty_common; body = codes "body" })
          request_factory
          true)
      ≡ some (codes "body"))
    × (receive to_client (
          frame
            (record { headers = response_headers empty_common; body = codes "body" })
            response_factory
            true)
        ≡ some (codes "body"))
receive-frame_example = receive-frame empty_common (codes "body") true

allows_iff_example :
    (allows (new_host_allowlist (codes "*.example.org" ∷ [])) (codes "a.example.org") ≡ true)
    ↔ Any (EntryMatches (codes "a.example.org")) (effective (codes "*.example.org" ∷ []))
allows_iff_example = allows_iff (codes "*.example.org" ∷ []) (codes "a.example.org")

check_headers_iff_example :
    ((check_headers codecs.url_hostname local_only post_headers).0 ≡ true)
    ↔ Accepted codecs.url_hostname local_only post_headers
check_headers_iff_example = check_headers_iff codecs.url_hostname local_only post_headers

capture_mcp_request_headers_example : capture_mcp_request_headers post_headers ≡ record {
  protocol_version = first_value (codes "mcp-protocol-version") post_headers;
  method = first_value (codes "mcp-method") post_headers;
  name = first_value (codes "mcp-name") post_headers;
  param_header_names = param_keys post_headers;
}
capture_mcp_request_headers_example = capture_mcp_request_headers_lem post_headers

decode_header_value_example :
    (decode_header_value (codes "=?base64?" ++ (base64_encode (codes "hi") ++ codes "?="))
      ≡ some (codes "hi"))
    × (decode_header_value (codes "plain") ≡ some (codes "plain"))
unfolding has_prefix
decode_header_value_example =
    decode_header_value_wrapped (codes "hi") (codes "plain") (omega arith, (omega arith, tt)) refl

validate_modern_headers_example :
    (validate_modern_headers codecs.unmarshal_name
        (codes "tools/call")
        []
        (codes "2026-07-28")
        no_headers
      ≡ none)
    ↔ Mirrors codecs.unmarshal_name (codes "tools/call") [] (codes "2026-07-28") no_headers
validate_modern_headers_example =
    validate_modern_headers_iff codecs.unmarshal_name (codes "tools/call") [] (codes "2026-07-28")
      no_headers

-- /users/{id}
abbrev user_path : List Piece
user_path = literal (codes "/users/") ∷ variable (codes "id") ∷ []

abbrev user_request : EndpointRequest
user_request = record { path = codes "/users/{id}"; query_params = []; extra_headers = [] }

apply_path-render_example :
    apply_path user_request (codes "id") (codes "7")
    ≡ record user_request { path = render (fill (codes "id") (codes "7") user_path) }
unfolding contains_byte
apply_path-render_example =
    apply_path-render user_request user_path (codes "id") (codes "7") refl
      (refl, ((refl, refl), tt)) refl

new_endpoint_request_example :
    (is_ok (new_endpoint_request get_user ((codes "id", string (codes "7")) ∷ [])) ≡ true)
    ↔ All (λ p. Acceptable ((codes "id", string (codes "7")) ∷ []) p.0 p.1) get_user.parameters
new_endpoint_request_example =
    new_endpoint_request_iff get_user ((codes "id", string (codes "7")) ∷ [])

negotiate_legacy_version_example :
    (is_supported_version (negotiate_legacy_version (codes "2025-06-18")) ≡ true)
    × (is_modern_version (negotiate_legacy_version (codes "2025-06-18")) ≡ false)
    × ((negotiate_legacy_version (codes "2025-06-18") ≡ codes "2025-06-18") ↔ (
        (is_supported_version (codes "2025-06-18") ≡ true)
        × (is_modern_version (codes "2025-06-18") ≡ false)))
    × ((negotiate_legacy_version (codes "2025-06-18") ≡ codes "2025-06-18")
        ⊎ (negotiate_legacy_version (codes "2025-06-18") ≡ latest_legacy_version))
    × ((w : Bytes)
        → is_supported_version w ≡ true
        → is_modern_version w ≡ false
        → (negotiate_legacy_version (codes "2025-06-18") ≡ codes "2025-06-18")
          ⊎ (lt_bytes (negotiate_legacy_version (codes "2025-06-18")) w ≡ false))
negotiate_legacy_version_example = negotiate_legacy_version_lem (codes "2025-06-18")

resolve_era-NamesModern_example :
    ((v : Bytes)
      → (resolve_era info (codes "tools/list") (codes "2026-07-28") []
          ≡ (modern_era info, v, is_supported_version v))
        ↔ NamesModern (codes "tools/list") (codes "2026-07-28") [] v)
    × ((resolve_era info (codes "tools/list") (codes "2026-07-28") [] ≡ (legacy_era, [], true))
        ↔ ((v : Bytes) → ¬ NamesModern (codes "tools/list") (codes "2026-07-28") [] v))
resolve_era-NamesModern_example =
    resolve_era-NamesModern info (codes "tools/list") (codes "2026-07-28") []

abbrev found_user : McpResult
found_user =
    call_tool
      (record { result_meta = no_meta; contents = []; structured_content = none; is_error = false })

encode_result-Stamps_example :
    (encode_result codecs legacy_era found_user ≡ codecs.marshal_result found_user)
    × (((i : InitializeResult) × (found_user ≡ initialize i)
          × (encode_result codecs (modern_era info) found_user ≡ none))
        ⊎ ((s : McpResult) × Stamps codecs info found_user s
            × (encode_result codecs (modern_era info) found_user ≡ codecs.marshal_result s)))
encode_result-Stamps_example = encode_result-Stamps codecs info found_user

abbrev no_registry : Config
no_registry = record {
  socket_path = codes "/tmp/sock";
  tool_registry_config = none;
  server_info = info;
  allowed_hosts = codes "*" ∷ [];
}

validate_iff_example : (validate codecs.quote no_registry ≡ none) ↔ (
    (no_registry.tool_registry_config ≢ none)
    × (no_registry.socket_path ≢ [])
    × All (λ h. IsHostPattern (trim_space h)) no_registry.allowed_hosts)
validate_iff_example = validate_iff codecs.quote no_registry

star_within : trim_space (codes " *\t") ≡ codes "*"
unfolding trim_space
star_within = refl

padded_wildcard_example :
    (valid_allowed_host (codes " *\t") ≡ true)
    × ((allows (new_host_allowlist (codes " *\t" ∷ [])) (codes "localhost") ≡ true)
        ↔ (codes "localhost" ≡ codes "*"))
padded_wildcard_example =
    padded_wildcard (codes " *\t") (codes "localhost") star_within (λ same. cc same)
