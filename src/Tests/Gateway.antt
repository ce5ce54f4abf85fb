-- ===== src/Tests/Gateway.antt =====
-- A run of the server whose one tool comes from a document, and a call of that tool.
use envoy_mcp_openapi_proces.Common.{
  Bytes, List, Option, [], ap, equal, false, here, insert, lookup, none, ok, refl, returned, some,
  there, true, ◌∷◌, ◌≡◌,
}
use envoy_mcp_openapi_proces.Common.Text.{
  codes, contains_byte, cut_prefix, has_prefix, lower_byte, to_lower, trim_space,
}
use envoy_mcp_openapi_proces.Config.{
  Config, ToolRegistryConfig, valid_allowed_host, valid_trimmed, validate, validate_hosts,
}
use envoy_mcp_openapi_proces.Hosts.{new_host_allowlist}
use envoy_mcp_openapi_proces.Json.{to_fields}
use envoy_mcp_openapi_proces.OpenApi.{
  add_operation, add_operations, add_paths, extract_host_from_open_api_spec,
  generate_mcp_tools_from_spec, has_supported_request_body, register_loaded_tools, register_tools,
  registered_config, registered_tool, should_skip_operation, supported_content,
}
use envoy_mcp_openapi_proces.OpenApi.Document.{Operation, Spec}
use envoy_mcp_openapi_proces.OpenApi.Loading.{
  Files, load_match, load_matches, load_tools_from_open_api, loaded_or_error,
  new_tool_registry_from_config, take_up,
}
use envoy_mcp_openapi_proces.OpenApi.Responses.{
  best_schema, consider, consider_all, find_json_schema_from_responses,
  find_json_schema_in_response, schema_of_code, success_code,
}
use envoy_mcp_openapi_proces.OpenApi.Schemas.{
  open_api_schema_to_map, own_entries, property_maps, texts, types_json, values, with_description,
  with_enum, with_items, with_properties, with_required, with_types,
}
use envoy_mcp_openapi_proces.OpenApi.Tools.{
  add_body, add_input, add_inputs, body_schema, contains, describe,
  generate_mcp_tool_from_api_operation, input_schema, is_top_level_object_schema, join_blank,
  open_api_parameter_to_schema, output_schema,
}
use envoy_mcp_openapi_proces.Registry.{
  ToolConfig, binary_search, filter_by_allowlist, filter_tools, get_config, is_name_char,
  missing_names, place_tool, register, search_loop, tool_count, validate_characters,
  validate_tool_name,
}
use envoy_mcp_openapi_proces.Server.{
  SocketCall, allowed_tools, close_socket, listen_and_serve, listen_on, remove_socket, run_checked,
  run_server, serve_registry, serve_with,
}
use envoy_mcp_openapi_proces.Server.Forwarding.{IsOperationCall, run_server-IsOperationCall}
use envoy_mcp_openapi_proces.Std.Decimal.{atoi, digits_value, signed_value}
use envoy_mcp_openapi_proces.Tests.Api.{config, heap, quoted, server_config, sockets, update_user}
use envoy_mcp_openapi_proces.Tests.Calls.{forwards}
use envoy_mcp_openapi_proces.Tests.Sample.{
  codecs, get_user_7, get_user_config, info, no_headers, server, tool_named, users,
}

-- GET /users/{id}
abbrev read_user : Operation
read_user = record update_user { request_body = none }

abbrev users_api : Spec
users_api = record {
  schemas = heap;
  servers = codes "http://users" ∷ [];
  paths = (codes "/users/{id}", (codes "GET", some read_user) ∷ []) ∷ [];
}

abbrev files : Files
files = record {
  glob = λ pattern. ok (codes "/conf/users.yaml" ∷ []);
  is_dir = λ path. ok false;
  load_from_file = λ path. ok users_api;
}

abbrev host_only : Bytes → Option Bytes
host_only url = some (codes "users")

abbrev local_config : Config
local_config = record server_config { server_info = info; allowed_hosts = codes "localhost" ∷ [] }

-- The configuration before structured output is decided.
abbrev plain_config : ToolConfig
plain_config = record get_user_config { response_config = record { use_structured_output = false } }

reads_user :
    generate_mcp_tool_from_api_operation heap 2 read_user
      (codes "GET")
      (codes "/users/{id}")
      (codes "users")
      (codes "get_user")
    ≡ returned (tool_named (codes "get_user"), plain_config)
unfolding generate_mcp_tool_from_api_operation add_inputs open_api_parameter_to_schema
    open_api_schema_to_map with_properties with_items add_body lookup equal body_schema
    property_maps output_schema find_json_schema_from_responses best_schema consider_all
    find_json_schema_in_response has_prefix consider success_code insert lower_byte to_lower
    to_fields schema_of_code own_entries texts values with_description with_enum with_required
    types_json with_types add_input contains describe input_schema is_top_level_object_schema
    join_blank atoi digits_value signed_value
reads_user = refl

reads_users : generate_mcp_tools_from_spec host_only 2 users_api config ≡ returned users
unfolding generate_mcp_tools_from_spec add_paths add_operations add_operation should_skip_operation
    has_supported_request_body supported_content registered_tool registered_config
    extract_host_from_open_api_spec register place_tool validate_tool_name validate_characters
    is_name_char binary_search search_loop insert has_prefix
reads_users = rw reads_user refl

loads_users : new_tool_registry_from_config files host_only 2 config ≡ returned (ok users)
unfolding new_tool_registry_from_config load_matches load_match load_tools_from_open_api take_up
    loaded_or_error tool_count register_loaded_tools register_tools register place_tool
    validate_tool_name validate_characters is_name_char binary_search search_loop insert get_config
    lookup equal
loads_users = rw reads_users refl

abbrev calls_made : List SocketCall
calls_made =
    remove_socket (codes "/run/ext_proc.sock")
    ∷ listen_on (codes "/run/ext_proc.sock")
    ∷ serve_with server
    ∷ close_socket (codes "/run/ext_proc.sock")
    ∷ []

runs :
    run_server sockets quoted files host_only 2 true (some local_config)
    ≡ returned (calls_made, none)
unfolding run_server run_checked serve_registry listen_and_serve allowed_tools filter_by_allowlist
    filter_tools missing_names register place_tool validate_tool_name validate_characters
    is_name_char binary_search search_loop insert get_config lookup equal validate validate_hosts
    valid_allowed_host valid_trimmed trim_space contains_byte cut_prefix new_host_allowlist
runs = rw loads_users refl

run_server-IsOperationCall_example :
    (c : Config) × (registry : ToolRegistryConfig) × (some local_config ≡ some c)
    × (c.tool_registry_config ≡ some registry)
    × IsOperationCall files host_only codecs registry server (codes "body") no_headers get_user_7
run_server-IsOperationCall_example =
    run_server-IsOperationCall sockets quoted files host_only 2 (some local_config)
      (calls_made, none) server codecs (codes "body") no_headers get_user_7 runs
      (there (there (here refl))) (ap (λ r. r.reroute) (forwards (codes "body")))
