-- ===== src/Tests/Sample.antt =====
-- One server and what it is asked.
use envoy_mcp_openapi_proces.Common.{Bytes, List, [], false, none, ok, some, true, ◌∷◌}
use envoy_mcp_openapi_proces.Common.Text.{codes}
use envoy_mcp_openapi_proces.Era.{ServerInfo, legacy_era}
use envoy_mcp_openapi_proces.Handler.{ExtProcServer, RequestContext}
use envoy_mcp_openapi_proces.Headers.{McpRequestHeaders}
use envoy_mcp_openapi_proces.Hosts.{HostAllowlist}
use envoy_mcp_openapi_proces.Json.{
  Fields, Json, array, boolean, field, item, no_fields, no_items, object, string,
}
use envoy_mcp_openapi_proces.Protocol.{Codecs, numeric, request}
use envoy_mcp_openapi_proces.Registry.{Endpoint, Tool, ToolConfig, ToolRegistry}
use envoy_mcp_openapi_proces.Std.Decimal.{pos}
use envoy_mcp_openapi_proces.Wire.{HeaderValue, StreamedMutation, reroute_with_body_mutation}

-- Libraries that read every body as one and the same tool call.
abbrev pub codecs : Codecs
codecs = record {
  decode_message = λ body.
      some (request (record { id = numeric (pos 1); method = codes "tools/call"; params = body }));
  encode_message = λ id outcome. some (codes "message");
  unmarshal_meta = λ params. none;
  unmarshal_text = λ raw. some raw;
  unmarshal_name = λ params. some (codes "get_user");
  unmarshal_call = λ params. ok (codes "get_user", (codes "id", string (codes "7")) ∷ []);
  unmarshal_initialize = λ params. ok (codes "2025-06-18");
  marshal_result = λ r. some (codes "result");
  marshal_json = λ v. ok (codes "json");
  marshal_versions = λ versions requested. some (codes "versions");
  json_is_valid = λ body. true;
  quote = λ s. s;
  query_encode = λ params. codes "query";
  url_hostname = λ s. some s;
  meta_key_protocol_version = codes "protocolVersion";
  meta_key_server_info = codes "serverInfo";
}

-- GET /users/{id}, with a required path parameter.
abbrev pub get_user : Endpoint
get_user = record {
  host = codes "users";
  method = codes "get";
  path_template = codes "/users/{id}";
  parameters =
      (
        codes "id",
        object (
            field (codes "in") (string (codes "path"))
              (field (codes "required") (boolean true) no_fields)),
      )
      ∷ [];
  content_type = [];
}

abbrev pub get_user_config : ToolConfig
get_user_config = record {
  endpoint = get_user;
  response_config = record { use_structured_output = true };
}

-- A schema with a type and further fields, and the list of one text.
abbrev typed : Json → Fields → Json
typed type_of more = object (field (codes "type") type_of more)

abbrev one_of : Bytes → Json
one_of name = array (item (string name) no_items)

-- The schemas of a tool that takes an identifier and answers with a name.
abbrev id_schema : Json
id_schema = typed (string (codes "object")) (
    field (codes "properties")
      (object (
        field (codes "id")
          (typed (string (codes "string"))
            (field (codes "description") (string (codes "The user")) no_fields))
          no_fields))
      (field (codes "required") (one_of (codes "id")) no_fields))

abbrev name_schema : Json
name_schema = typed (string (codes "object")) (
    field (codes "properties")
      (object (field (codes "name") (typed (string (codes "string")) no_fields) no_fields))
      (field (codes "description") (string (codes "API response object")) no_fields))

abbrev pub tool_named : Bytes → Tool
tool_named name = record {
  name = name;
  title = codes "A user";
  description = [];
  input_schema = id_schema;
  output_schema = some name_schema;
}

abbrev pub users : ToolRegistry
users = record {
  tools = tool_named (codes "get_user") ∷ [];
  configs = (codes "get_user", get_user_config) ∷ [];
}

abbrev pub info : ServerInfo
info = record { name = codes "users"; version = codes "1"; instructions = [] }

abbrev pub local_only : HostAllowlist
local_only = record { allow_any = false; exact = codes "localhost" ∷ []; suffixes = [] }

abbrev pub server : ExtProcServer
server = record { registry = users; server_info = info; allowed_hosts = local_only }

abbrev pub header : Bytes → Bytes → HeaderValue
header key value = record { key = key; raw_value = value }

abbrev pub post_headers : List HeaderValue
post_headers =
    header (codes ":method") (codes "POST") ∷ header (codes ":authority") (codes "localhost") ∷ []

abbrev pub no_headers : McpRequestHeaders
no_headers = record { protocol_version = []; method = []; name = []; param_header_names = [] }

abbrev pub upstream_headers : List HeaderValue
upstream_headers = header (codes ":status") (codes "200") ∷ []

-- The upstream request of the call.
abbrev pub get_user_7 : StreamedMutation
get_user_7 =
    reroute_with_body_mutation (codes "users") (codes "GET") (codes "/users/7") []
      ((codes "accept", codes "*/*") ∷ []) []

abbrev pub call_context : RequestContext
call_context = record {
  jsonrpc_id = numeric (pos 1);
  tool_response_config = some (record { use_structured_output = true });
  upstream_status_code = pos 200;
  era = some legacy_era;
}
