-- ===== src/Tests/Registries.antt =====
-- The registry of one tool.
use envoy_mcp_openapi_proces.Common.{[], insert, refl, some, subst, ◌∷◌, ◌≡◌}
use envoy_mcp_openapi_proces.Common.Text.{codes}
use envoy_mcp_openapi_proces.Registry.{
  ToolRegistry, binary_search, filter_by_allowlist, is_name_char, new_tool_registry, place_tool,
  register, search_loop, validate_characters, validate_tool_name,
}
use envoy_mcp_openapi_proces.Registry.Filtering.{Filters, filter_by_allowlist-Filters}
use envoy_mcp_openapi_proces.Registry.Registering.{
  IsWellFormed, Registers, new_tool_registry-IsWellFormed, register-IsWellFormed,
  register-Registers,
}
use envoy_mcp_openapi_proces.Tests.Sample.{get_user_config, tool_named, users}

-- A registry made by one registration.
abbrev registered : ToolRegistry
registered =
    (register new_tool_registry (some (tool_named (codes "get_user"))) (some get_user_config)).0

register-IsWellFormed_example : IsWellFormed registered
register-IsWellFormed_example =
    register-IsWellFormed new_tool_registry (some (tool_named (codes "get_user")))
      (some get_user_config) new_tool_registry-IsWellFormed

is_users : registered ≡ users
unfolding register place_tool validate_tool_name validate_characters is_name_char binary_search
    search_loop insert
is_users = refl

pub users-IsWellFormed : IsWellFormed users
users-IsWellFormed = subst IsWellFormed is_users register-IsWellFormed_example

register-Registers_example :
    Registers users
      (tool_named (codes "find"))
      get_user_config
      (register users (some (tool_named (codes "find"))) (some get_user_config))
register-Registers_example =
    register-Registers users (tool_named (codes "find")) get_user_config users-IsWellFormed

filter_by_allowlist-Filters_example :
    Filters users (codes "get_user" ∷ []) (filter_by_allowlist users (codes "get_user" ∷ []))
filter_by_allowlist-Filters_example =
    filter_by_allowlist-Filters users (codes "get_user" ∷ []) users-IsWellFormed
