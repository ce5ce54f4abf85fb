-- ===== src/Tests/Documents.antt =====
-- Operations and the registries made of them.
use envoy_mcp_openapi_proces.Common.{Bytes, if◌then◌else◌, is_some, ◌≡◌}
use envoy_mcp_openapi_proces.OpenApi.{register_loaded_tools}
use envoy_mcp_openapi_proces.OpenApi.Merging.{register_loaded_tools-Merges}
use envoy_mcp_openapi_proces.Registry.{get_config, new_tool_registry}
use envoy_mcp_openapi_proces.Registry.Registering.{IsWellFormed, new_tool_registry-IsWellFormed}
use envoy_mcp_openapi_proces.Tests.Registries.{users-IsWellFormed}
use envoy_mcp_openapi_proces.Tests.Sample.{users}

register_loaded_tools-Merges_example :
    IsWellFormed (register_loaded_tools new_tool_registry users)
    × ((name : Bytes)
        → get_config (register_loaded_tools new_tool_registry users) name ≡ (
            if is_some (get_config new_tool_registry name)
            then get_config new_tool_registry name
            else get_config users name))
register_loaded_tools-Merges_example =
    register_loaded_tools-Merges new_tool_registry users new_tool_registry-IsWellFormed
      users-IsWellFormed
