-- ===== src/Config.antt =====
-- server.go: the configuration and its check.
pub mod Validating
use envoy_mcp_openapi_proces.Common.{
  Bool, Bytes, List, Option, [], equal, false, if◌then◌else◌, is_empty, none, not, some, true, ◌&&◌,
  ◌++◌, ◌||◌, ◌∷◌,
}
use envoy_mcp_openapi_proces.Common.Text.{codes, contains_byte, cut_prefix, trim_space}
use envoy_mcp_openapi_proces.Era.{ServerInfo}

pub record ToolRegistryConfig : Type 0 where
  pub open_api_spec_pattern : Bytes
  pub tool_allowlist : List Bytes
  pub structured_output : Bool

-- A nil `ToolRegistryConfig` is `none`.
pub record Config : Type 0 where
  pub socket_path : Bytes
  pub tool_registry_config : Option ToolRegistryConfig
  pub server_info : ServerInfo
  pub allowed_hosts : List Bytes

-- The tests of `validAllowedHost` on the trimmed entry.
unfoldable pub valid_trimmed : Bytes → Bool
valid_trimmed trimmed =
    if is_empty trimmed
      || (contains_byte b'/' trimmed || contains_byte b' ' trimmed || contains_byte b'\t' trimmed)
    then false
    else if equal trimmed (codes "*")
    then true
    else elim (cut_prefix trimmed (codes "*.")) [
      | some rest ↦ not (is_empty rest) && not (contains_byte b'*' rest)
      | none ↦ not (contains_byte b'*' trimmed)
    ]

unfoldable pub valid_allowed_host : Bytes → Bool
valid_allowed_host h = valid_trimmed (trim_space h)

-- `quote` is the verb `%q` of `fmt`; the answer is the error's text, `none` where there is none.
module _ (quote : Bytes → Bytes) where
  unfoldable pub validate_hosts : List Bytes → Option Bytes
  validate_hosts [] = none
  validate_hosts (h ∷ hs) =
      if not (valid_allowed_host h)
      then some (
          codes "config.AllowedHosts entry "
          ++ quote h
          ++ codes " must be a plain hostname or wildcard (\"*\", \"*.example.com\")")
      else validate_hosts hs

  unfoldable pub validate : Config → Option Bytes
  validate c = elim c.tool_registry_config [
    | none ↦ some (codes "config.ToolRegistryConfig must not be nil")
    | some registry ↦
        if is_empty c.socket_path
        then some (codes "config.SocketPath must not be empty")
        else validate_hosts c.allowed_hosts
  ]
