-- ===== src/Tests/Sources.antt =====
-- What is made of the document.
use envoy_mcp_openapi_proces.Common.{
  Bytes, Returns, [], equal, false, insert, lookup, refl, returned, some, subst, true, ◌&&◌, ◌↔◌,
  ◌∷◌, ◌≡◌,
}
use envoy_mcp_openapi_proces.Common.Text.{codes, has_prefix, lower_byte, to_lower}
use envoy_mcp_openapi_proces.Json.{Json, array, object, string, to_fields}
use envoy_mcp_openapi_proces.OpenApi.{
  add_operation, add_operations, add_paths, extract_host_from_open_api_spec,
  generate_mcp_tools_from_spec, has_supported_request_body, registered_config, registered_tool,
  should_skip_operation, supported_content,
}
use envoy_mcp_openapi_proces.OpenApi.Completing.{SafeDocument, generate_mcp_tools_from_spec-Returns}
use envoy_mcp_openapi_proces.OpenApi.Listing.{
  IsFrom, generate_mcp_tools_from_spec-IsFrom, is_offered,
}
use envoy_mcp_openapi_proces.OpenApi.Loading.{new_tool_registry_from_config}
use envoy_mcp_openapi_proces.OpenApi.Loading.Offering.{AllSafe}
use envoy_mcp_openapi_proces.OpenApi.Loading.Reading.{
  Loads, SafeFiles, new_tool_registry_from_config-Loads,
}
use envoy_mcp_openapi_proces.OpenApi.Responses.{
  best_schema, consider, consider_all, find_json_schema_from_responses,
  find_json_schema_in_response, schema_of_code, success_code,
}
use envoy_mcp_openapi_proces.OpenApi.Responses.Choosing.{
  Chooses, find_json_schema_from_responses-Chooses,
}
use envoy_mcp_openapi_proces.OpenApi.Responses.Collecting.{offers}
use envoy_mcp_openapi_proces.OpenApi.Returning.{SafeMedia}
use envoy_mcp_openapi_proces.OpenApi.Schemas.{
  open_api_schema_to_map, own_entries, property_maps, texts, types_json, values, with_description,
  with_enum, with_items, with_properties, with_required, with_types,
}
use envoy_mcp_openapi_proces.OpenApi.Schemas.Terminating.{
  IsFinite, IsFinite-of_returned, open_api_schema_to_map-Returns,
}
use envoy_mcp_openapi_proces.OpenApi.Serving.{
  Describes, generate_mcp_tool_from_api_operation-Describes,
}
use envoy_mcp_openapi_proces.OpenApi.Tools.{
  add_body, add_input, add_inputs, body_schema, contains, describe, endpoint_param,
  generate_mcp_tool_from_api_operation, input_schema, is_top_level_object_schema, join_blank,
  open_api_parameter_to_schema, output_schema,
}
use envoy_mcp_openapi_proces.Registry.{
  Tool, ToolConfig, ToolRegistry, binary_search, is_name_char, place_tool, register, search_loop,
  validate_characters, validate_tool_name,
}
use envoy_mcp_openapi_proces.Registry.Linking.{Linked, is_valid_name}
use envoy_mcp_openapi_proces.Registry.Registering.{IsWellFormed}
use envoy_mcp_openapi_proces.Registry.Sorted.{has_tool}
use envoy_mcp_openapi_proces.Server.{run_server}
use envoy_mcp_openapi_proces.Server.Running.{Ran, run_server-Ran}
use envoy_mcp_openapi_proces.Std.Decimal.{atoi, digits_value, signed_value}
use envoy_mcp_openapi_proces.Tests.Api.{
  answers, config, folder, heap, host_of, quoted, server_config, sockets, update_user, user_id,
  users_spec,
}

find_json_schema_from_responses-Chooses_example :
    Chooses (offers answers) (find_json_schema_from_responses answers)
find_json_schema_from_responses-Chooses_example = find_json_schema_from_responses-Chooses answers

plain-IsFinite : IsFinite heap 0
unfolding open_api_schema_to_map own_entries types_json with_types with_description with_enum
    with_required with_properties with_items
plain-IsFinite = IsFinite-of_returned heap 1 0 _ refl

object-IsFinite : IsFinite heap 1
unfolding open_api_schema_to_map own_entries types_json with_types with_description with_enum
    with_required with_properties property_maps with_items
object-IsFinite = IsFinite-of_returned heap 2 1 _ refl

open_api_schema_to_map-Returns_example :
    Returns (λ fuel. open_api_schema_to_map heap fuel 1) ↔ IsFinite heap 1
open_api_schema_to_map-Returns_example = open_api_schema_to_map-Returns heap 1

generate_mcp_tools_from_spec-Returns_example :
    Returns (λ fuel. generate_mcp_tools_from_spec host_of fuel users_spec config)
    ↔ SafeDocument users_spec
generate_mcp_tools_from_spec-Returns_example =
    generate_mcp_tools_from_spec-Returns host_of users_spec config

answer_schema : find_json_schema_from_responses answers ≡ some 1
unfolding find_json_schema_from_responses best_schema consider_all find_json_schema_in_response
    has_prefix consider equal success_code atoi signed_value digits_value schema_of_code
answer_schema = refl

users_spec-SafeDocument : SafeDocument users_spec
unfolding lookup equal
users_spec-SafeDocument = (
  (
    λ taken. (
      (plain-IsFinite, tt),
      λ media found.
          let same : some (some (some 1)) ≡ media = cc found in
          subst (SafeMedia heap) same object-IsFinite,
      λ a found top.
          let same : 1 ≡ a = cc (answer_schema, found) in
          subst (IsFinite heap) same object-IsFinite,
    ),
    tt,
  ),
  tt,
)

folder-SafeFiles : SafeFiles folder host_of config
unfolding equal
folder-SafeFiles matches matched =
    let same : (codes "/conf/users.yaml" ∷ codes "/conf/more" ∷ []) ≡ matches = cc matched in
    subst (AllSafe folder) same (
      (λ spec found.
          let read : users_spec ≡ spec = cc found in
          subst SafeDocument read users_spec-SafeDocument),
      ((λ spec found. absurd (cc found)), tt),
    )

-- The object schema as it is written out, with a description.
abbrev object_with : Bytes → Json
object_with phrase = object (
    to_fields (
      (codes "type", string (codes "object"))
      ∷ (
        codes "properties",
        object (
            to_fields (
              (codes "name", object (to_fields ((codes "type", string (codes "string")) ∷ [])))
              ∷ [])),
      )
      ∷ (codes "description", string phrase)
      ∷ []))

abbrev made_tool : Tool
made_tool = record {
  name = codes "get_user";
  title = codes "A user";
  description = [];
  input_schema = object (
      to_fields (
        (codes "type", string (codes "object"))
        ∷ (
          codes "properties",
          object (
              to_fields (
                (
                  codes "id",
                  object (
                      to_fields (
                        (codes "type", string (codes "string"))
                        ∷ (codes "description", string (codes "The user"))
                        ∷ [])),
                )
                ∷ (codes "body", object_with (codes "Request body"))
                ∷ [])),
        )
        ∷ (codes "required", array (texts (codes "id" ∷ codes "body" ∷ [])))
        ∷ []));
  output_schema = some (object_with (codes "API response object"));
}

abbrev made_config : ToolConfig
made_config = record {
  endpoint = record {
    host = codes "api.example.org";
    method = codes "put";
    path_template = codes "/users/{id}";
    parameters = (codes "id", endpoint_param user_id) ∷ [];
    content_type = codes "application/json";
  };
  response_config = record { use_structured_output = false };
}

is_made :
    generate_mcp_tool_from_api_operation heap 2 update_user
      (codes "PUT")
      (codes "/users/{id}")
      (codes "api.example.org")
      (codes "get_user")
    ≡ returned (made_tool, made_config)
unfolding generate_mcp_tool_from_api_operation add_inputs open_api_parameter_to_schema
    open_api_schema_to_map with_properties with_items add_body lookup equal body_schema
    property_maps output_schema find_json_schema_from_responses best_schema consider_all
    find_json_schema_in_response has_prefix consider success_code insert lower_byte to_lower
    to_fields schema_of_code own_entries texts values with_description with_enum with_required
    types_json with_types add_input contains describe input_schema is_top_level_object_schema
    join_blank atoi digits_value signed_value
is_made = refl

generate_mcp_tool_from_api_operation-Describes_example :
    Describes heap 2 update_user
      (codes "PUT")
      (codes "/users/{id}")
      (codes "api.example.org")
      (codes "get_user")
      made_tool
      made_config
generate_mcp_tool_from_api_operation-Describes_example =
    generate_mcp_tool_from_api_operation-Describes heap 2 update_user (codes "PUT")
      (codes "/users/{id}") (codes "api.example.org") (codes "get_user") made_tool made_config
      (tt, tt) is_made

new_tool_registry_from_config-Loads_example :
    (r : Returns (λ fuel. new_tool_registry_from_config folder host_of fuel config)) × Loads folder
      host_of config r.result_of
new_tool_registry_from_config-Loads_example =
    new_tool_registry_from_config-Loads folder host_of config folder-SafeFiles

run_server-Ran_example :
    (r : Returns (λ fuel. run_server sockets quoted folder host_of fuel true (some server_config)))
    × Ran quoted folder host_of sockets true (some server_config) r.result_of
run_server-Ran_example =
    run_server-Ran quoted folder host_of sockets true (some server_config) (λ c given.
      let same : config ≡ c = cc given in subst (SafeFiles folder host_of) same folder-SafeFiles)

abbrev made_registry : ToolRegistry
made_registry = record {
  tools = made_tool ∷ [];
  configs = (codes "get_user", registered_config made_tool made_config) ∷ [];
}

is_made_registry : generate_mcp_tools_from_spec host_of 2 users_spec config ≡ returned made_registry
unfolding generate_mcp_tools_from_spec add_paths add_operations add_operation should_skip_operation
    has_supported_request_body supported_content registered_tool registered_config
    extract_host_from_open_api_spec register place_tool validate_tool_name validate_characters
    is_name_char binary_search search_loop insert has_prefix
is_made_registry = rw is_made refl

generate_mcp_tools_from_spec-IsFrom_example :
    IsWellFormed made_registry
    × ((name : Bytes)
        → has_tool made_registry.tools name
          ≡ (is_offered users_spec.paths name && is_valid_name name))
    × Linked
        (IsFrom users_spec.paths (extract_host_from_open_api_spec host_of users_spec.servers) true)
        made_registry
generate_mcp_tools_from_spec-IsFrom_example =
    generate_mcp_tools_from_spec-IsFrom host_of 2 users_spec config made_registry is_made_registry
