-- ===== src/Protocol.antt =====
-- The JSON-RPC messages, the MCP results (result.go) and the libraries that read and write them.
use envoy_mcp_openapi_proces.Common.{Bool, Bytes, List, Option, Result, [], false, true, ℕ, ◌∷◌}
use envoy_mcp_openapi_proces.Common.Text.{codes}
use envoy_mcp_openapi_proces.Json.{Json}
use envoy_mcp_openapi_proces.Registry.{Tool}
use envoy_mcp_openapi_proces.Std.Decimal.{ℤ}

-- `jsonrpc.ID`; a message without one has the invalid ID.
pub data RequestId : Type 0 where
  absent : RequestId
  numeric : ℤ → RequestId
  text : Bytes → RequestId

abbrev pub is_valid : RequestId → Bool
is_valid absent = false
is_valid _ = true

-- `jsonrpc.Request`; the parameters are raw JSON.
pub record Request : Type 0 where
  pub id : RequestId
  pub method : Bytes
  pub params : Bytes

pub data Message : Type 0 where
  request : Request → Message
  response : Message

-- The constants of the packages `jsonrpc` and `mcp`, by their names.
pub data ErrorCode : Type 0 where
  code_parse_error code_invalid_request code_method_not_found code_invalid_params : ErrorCode
  code_internal_error code_unsupported_protocol_version code_header_mismatch : ErrorCode

pub record RpcError : Type 0 where
  pub code : ErrorCode
  pub message : Bytes
  pub error_data : Option Bytes

-- `jsonrpc.Response`: a result, or an error.
pub data Outcome : Type 0 where
  result : Bytes → Outcome
  failure : RpcError → Outcome

pub record Implementation : Type 0 where
  pub name : Bytes
  pub version : Bytes

-- The envelope fields; an absent `_meta` is the empty list and an absent result type empty.
pub record ResultMeta : Type 0 where
  pub meta : List (Bytes × Implementation)
  pub result_type : Bytes

pub record TextContent : Type 0 where
  pub content_type : Bytes
  pub content : Bytes

-- `structured_content` is raw JSON, absent where it is nil.
pub record CallToolResult : Type 0 where
  pub result_meta : ResultMeta
  pub contents : List TextContent
  pub structured_content : Option Bytes
  pub is_error : Bool

pub record Cacheable : Type 0 where
  pub ttl_ms : ℕ
  pub cache_scope : Bytes

pub record ListToolsResult : Type 0 where
  pub result_meta : ResultMeta
  pub cacheable : Option Cacheable
  pub tools : List Tool

-- `mcp.ServerCapabilities`: whether tools are advertised, the only capability that the program sets.
pub record ServerCapabilities : Type 0 where
  pub tools : Bool

pub record DiscoverResult : Type 0 where
  pub result_meta : ResultMeta
  pub supported_versions : List Bytes
  pub capabilities : ServerCapabilities
  pub instructions : Bytes
  pub cacheable : Cacheable

pub record InitializeResult : Type 0 where
  pub protocol_version : Bytes
  pub server_info : Implementation
  pub capabilities : ServerCapabilities
  pub instructions : Bytes

-- What the handlers hand to `encodeResult`.
pub data McpResult : Type 0 where
  call_tool : CallToolResult → McpResult
  list_tools : ListToolsResult → McpResult
  discover : DiscoverResult → McpResult
  initialize : InitializeResult → McpResult

abbrev pub no_meta : ResultMeta
no_meta = record { meta = []; result_type = [] }

unfoldable pub new_text_content : Bytes → List TextContent
new_text_content s = record { content_type = codes "text"; content = s } ∷ []

-- The libraries `encoding/json`, `jsonrpc` and `net/url`. `none` and `err` are their errors, with
-- the error's text where the program sends it.
pub record Codecs : Type 0 where
  pub decode_message : Bytes → Option Message
  pub encode_message : RequestId → Outcome → Option Bytes
  pub unmarshal_meta : Bytes → Option (List (Bytes × Bytes))
  pub unmarshal_text : Bytes → Option Bytes
  pub unmarshal_name : Bytes → Option Bytes
  pub unmarshal_call : Bytes → Result Bytes (Bytes × List (Bytes × Json))
  pub unmarshal_initialize : Bytes → Result Bytes Bytes
  pub marshal_result : McpResult → Option Bytes
  pub marshal_json : Json → Result Bytes Bytes
  pub marshal_versions : List Bytes → Bytes → Option Bytes
  pub json_is_valid : Bytes → Bool
  pub quote : Bytes → Bytes
  pub query_encode : List (Bytes × List Bytes) → Bytes
  pub url_hostname : Bytes → Option Bytes
  pub meta_key_protocol_version : Bytes
  pub meta_key_server_info : Bytes
