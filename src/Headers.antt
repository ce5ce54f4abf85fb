-- ===== src/Headers.antt =====
-- header_validation.go: the MCP headers of a request, and their check against the body. Where
-- `encoding/json` reads the tool name off the parameters is a parameter of the model: `none` where
-- the text does not decode.
pub mod Capturing
pub mod Decoding
pub mod Validating
use envoy_mcp_openapi_proces.Common.{
  Bool, Bytes, List, Option, [], equal, false, if◌then◌else◌, none, not, some, true, ◌++◌, ◌∷◌,
}
use envoy_mcp_openapi_proces.Common.Text.{
  codes, cut_prefix, cut_suffix, has_prefix, to_lower, trim_space,
}
use envoy_mcp_openapi_proces.Std.Base64.{base64_decode}
use envoy_mcp_openapi_proces.Wire.{HeaderValue}

-- An absent header is the empty text.
pub record McpRequestHeaders : Type 0 where
  pub protocol_version : Bytes
  pub method : Bytes
  pub name : Bytes
  pub param_header_names : List Bytes

pub record FirstHeaderValue : Type 0 where
  pub value : Bytes
  pub seen : Bool

unfoldable pub header_value : HeaderValue → Bytes
header_value h = trim_space h.raw_value

unfoldable pub capture : FirstHeaderValue → HeaderValue → FirstHeaderValue
capture f h = if f.seen then f else record { value = header_value h; seen = true }

-- The variables of `captureMCPRequestHeaders`.
pub record Capture : Type 0 where
  pub protocol_version : FirstHeaderValue
  pub method : FirstHeaderValue
  pub name : FirstHeaderValue
  pub param_header_names : List Bytes

unfoldable pub capture_header : Capture → HeaderValue → Capture
capture_header s h =
    let key = to_lower h.key in
    if equal key (codes "mcp-protocol-version")
    then record s { protocol_version = capture s.protocol_version h }
    else if equal key (codes "mcp-method")
    then record s { method = capture s.method h }
    else if equal key (codes "mcp-name")
    then record s { name = capture s.name h }
    else if has_prefix key (codes "mcp-param-")
    then record s { param_header_names = s.param_header_names ++ key ∷ [] }
    else s

unfoldable pub capture_all : Capture → List HeaderValue → Capture
capture_all s [] = s
capture_all s (h ∷ hs) = capture_all (capture_header s h) hs

abbrev pub unseen : FirstHeaderValue
unseen = record { value = []; seen = false }

abbrev pub nothing_captured : Capture
nothing_captured = record {
  protocol_version = unseen;
  method = unseen;
  name = unseen;
  param_header_names = [];
}

unfoldable pub capture_mcp_request_headers : List HeaderValue → McpRequestHeaders
capture_mcp_request_headers headers =
    let s = capture_all nothing_captured headers in
    record {
      protocol_version = s.protocol_version.value;
      method = s.method.value;
      name = s.name.value;
      param_header_names = s.param_header_names;
    }

-- `none` where the wrapped payload is not valid Base64.
unfoldable pub decode_header_value : Bytes → Option Bytes
decode_header_value value = elim (cut_prefix value (codes "=?base64?")) [
  | none ↦ some value
  | some encoded ↦ elim (cut_suffix encoded (codes "?=")) [
    | none ↦ some value
    | some payload ↦ base64_decode payload
  ]
]

abbrev pub method_tools_call : Bytes
method_tools_call = codes "tools/call"

abbrev pub mismatch : Bytes → Bytes → Bytes → Bytes
mismatch header value expected =
    codes "header mismatch: "
    ++ (header
        ++ (codes " header value '"
            ++ (value ++ (codes "' does not match body value '" ++ (expected ++ codes "'")))))

-- `%q` of the method, which is a plain text wherever the program prints it so.
abbrev pub quoted : Bytes → Bytes
quoted s = codes "\"" ++ (s ++ codes "\"")

module _ (name_param : Bytes → Option Bytes) where
  -- The error's text, `none` where there is no error.
  unfoldable pub validate_name : (method params header_name : Bytes) → Option Bytes
  validate_name method params header_name =
      if equal header_name []
      then some (codes "missing required Mcp-Name header for method " ++ quoted method)
      else elim (decode_header_value header_name) [
        | none ↦ some (codes "header mismatch: Mcp-Name header contains invalid Base64 encoding")
        | some decoded ↦ elim (name_param params) [
          | none ↦
              some (codes "failed to extract name from parameters for method " ++ quoted method)
          | some name ↦
              if equal name []
              then some
                  (codes "failed to extract name from parameters for method " ++ quoted method)
              else if equal decoded name
              then none
              else some (mismatch (codes "Mcp-Name") decoded name)
        ]
      ]

  unfoldable pub validate_method : (method params : Bytes) → McpRequestHeaders → Option Bytes
  validate_method method params hdrs =
      if equal hdrs.method []
      then some (codes "missing required Mcp-Method header")
      else if not (equal hdrs.method method)
      then some (mismatch (codes "Mcp-Method") hdrs.method method)
      else if equal method method_tools_call
      then validate_name method params hdrs.name
      else none

  unfoldable pub validate_modern_headers :
      (method params meta_version : Bytes) → McpRequestHeaders → Option Bytes
  validate_modern_headers method params meta_version hdrs =
      if equal hdrs.protocol_version []
      then some (codes "missing required MCP-Protocol-Version header")
      else if equal meta_version []
      then some (
          codes "header mismatch: MCP-Protocol-Version header value '"
          ++ (hdrs.protocol_version ++ codes "' has no matching protocolVersion in the body _meta"))
      else if not (equal hdrs.protocol_version meta_version)
      then some (mismatch (codes "MCP-Protocol-Version") hdrs.protocol_version meta_version)
      else validate_method method params hdrs
