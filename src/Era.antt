-- ===== src/Era.antt =====
-- mcp.go: protocol versions, and the two eras of the MCP protocol.
pub mod Versions
pub mod Resolving
pub mod Envelope
use envoy_mcp_openapi_proces.Common.{
  Bool, Bytes, List, Option, [], any, equal, if◌then◌else◌, insert, is_empty, lookup, none, not,
  some, true, ℕ, ◌&&◌, ◌||◌, ◌∷◌,
}
use envoy_mcp_openapi_proces.Common.Text.{codes}
use envoy_mcp_openapi_proces.Headers.{McpRequestHeaders, method_tools_call, validate_modern_headers}
use envoy_mcp_openapi_proces.Protocol.{
  Cacheable, Codecs, ErrorCode, Implementation, McpResult, Request, ResultMeta, call_tool,
  code_header_mismatch, code_invalid_params, code_method_not_found,
  code_unsupported_protocol_version, discover, initialize, list_tools,
}
use envoy_mcp_openapi_proces.Std.Order.{lt_bytes}

abbrev pub first_modern_version : Bytes
first_modern_version = codes "2026-07-28"

abbrev pub latest_legacy_version : Bytes
latest_legacy_version = codes "2025-11-25"

abbrev pub supported_protocol_versions : List Bytes
supported_protocol_versions = codes "2026-07-28" ∷ codes "2025-11-25" ∷ codes "2025-06-18" ∷ []

unfoldable pub is_modern_version : Bytes → Bool
is_modern_version v = not (lt_bytes v first_modern_version)

unfoldable pub is_supported_version : Bytes → Bool
is_supported_version v = any (λ s. equal s v) supported_protocol_versions

unfoldable pub negotiate_legacy_version : Bytes → Bytes
negotiate_legacy_version client_version =
    if is_supported_version client_version && not (is_modern_version client_version)
    then client_version
    else latest_legacy_version

pub record ServerInfo : Type 0 where
  pub name : Bytes
  pub version : Bytes
  pub instructions : Bytes

-- `protocolEra`, by its implementations.
pub data ProtocolEra : Type 0 where
  legacy_era : ProtocolEra
  modern_era : ServerInfo → ProtocolEra

abbrev pub method_initialize : Bytes
method_initialize = codes "initialize"

abbrev pub method_tools_list : Bytes
method_tools_list = codes "tools/list"

abbrev pub method_notifications_initialized : Bytes
method_notifications_initialized = codes "notifications/initialized"

abbrev pub method_discover : Bytes
method_discover = codes "server/discover"

unfoldable pub serves : ProtocolEra → Bytes → Bool
serves legacy_era method =
    equal method method_initialize
    || equal method method_notifications_initialized
    || equal method method_tools_list
    || equal method method_tools_call
serves (modern_era info) method =
    equal method method_discover || equal method method_tools_list || equal method method_tools_call

unfoldable pub error_status : ProtocolEra → ErrorCode → ℕ
error_status legacy_era code = 200
error_status (modern_era info) code_unsupported_protocol_version = 400
error_status (modern_era info) code_header_mismatch = 400
error_status (modern_era info) code_invalid_params = 400
error_status (modern_era info) code_method_not_found = 404
error_status (modern_era info) _ = 200

abbrev pub cache_hints : Cacheable
cache_hints = record { ttl_ms = 300000; cache_scope = codes "private" }

abbrev pub result_type_complete : Bytes
result_type_complete = codes "complete"

module _ (k : Codecs) where
  unfoldable pub meta_with_server_info :
      ServerInfo → List (Bytes × Implementation) → List (Bytes × Implementation)
  meta_with_server_info info meta =
      insert k.meta_key_server_info (record { name = info.name; version = info.version }) meta

  unfoldable pub stamp_envelope : ServerInfo → ResultMeta → ResultMeta
  stamp_envelope info m = record m {
    meta = meta_with_server_info info m.meta;
    result_type = result_type_complete;
  }

  -- What the modern era marshals, `none` for the result that it does not encode.
  unfoldable pub stamp_result : ServerInfo → McpResult → Option McpResult
  stamp_result info (call_tool r) =
      some (call_tool (record r { result_meta = stamp_envelope info r.result_meta }))
  stamp_result info (list_tools r) = some (
      list_tools (record r {
        result_meta = stamp_envelope info r.result_meta;
        cacheable = some cache_hints;
      }))
  stamp_result info (discover r) = some (
      discover
        (record r { result_meta = stamp_envelope info r.result_meta; cacheable = cache_hints }))
  stamp_result info (initialize r) = none

  unfoldable pub encode_result : ProtocolEra → McpResult → Option Bytes
  encode_result legacy_era r = k.marshal_result r
  encode_result (modern_era info) r = elim (stamp_result info r) [
    | none ↦ none
    | some stamped ↦ k.marshal_result stamped
  ]

  -- The error's text, `none` where there is none.
  unfoldable pub validate_headers : ProtocolEra → Request → Bytes → McpRequestHeaders → Option Bytes
  validate_headers legacy_era req meta_version hdrs = none
  validate_headers (modern_era info) req meta_version hdrs =
      validate_modern_headers k.unmarshal_name req.method req.params meta_version hdrs

  unfoldable pub meta_protocol_version : Bytes → Bytes
  meta_protocol_version params = if is_empty params then [] else elim (k.unmarshal_meta params) [
    | none ↦ []
    | some entries ↦ elim (lookup k.meta_key_protocol_version entries) [
      | none ↦ []
      | some raw ↦ elim (k.unmarshal_text raw) [ none ↦ [] | some version ↦ version ]
    ]
  ]

unfoldable pub resolve_requested : ServerInfo → Bytes → ProtocolEra × Bytes × Bool
resolve_requested info requested =
    if is_modern_version requested
    then (modern_era info, requested, is_supported_version requested)
    else (legacy_era, [], true)

-- The era, the version that selected it, and whether the request may be served.
unfoldable pub resolve_era :
    ServerInfo → (method declared mirrored : Bytes) → ProtocolEra × Bytes × Bool
resolve_era info method declared mirrored =
    if equal method method_initialize || equal method method_notifications_initialized
    then (legacy_era, [], true)
    else resolve_requested info (if is_modern_version declared then declared else mirrored)
