-- ===== src/Server.antt =====
-- `RunServer` of server.go: the checks of its arguments, the registry, the socket and the server on it.
-- The calls of the socket and of gRPC are parameters. The goroutine that stops the server when the
-- context is done is not modelled.
pub mod Starting
pub mod Running
pub mod Forwarding
use envoy_mcp_openapi_proces.Common.{
  Bool, Bytes, Call, List, Option, Result, [], err, false, if◌then◌else◌, is_empty, none, ok,
  panicked, returned, some, true, ℕ, ◌>>=◌, ◌∷◌,
}
use envoy_mcp_openapi_proces.Config.{Config, ToolRegistryConfig, validate}
use envoy_mcp_openapi_proces.Handler.{ExtProcServer}
use envoy_mcp_openapi_proces.Hosts.{default_allowed_hosts, new_host_allowlist}
use envoy_mcp_openapi_proces.OpenApi.Loading.{Files, new_tool_registry_from_config}
use envoy_mcp_openapi_proces.Registry.{FilterError, ToolRegistry, filter_by_allowlist}

-- What `os.Remove` answers: the error `fs.ErrNotExist` is told from the others.
pub data Removal : Type 0 where
  removed not_there : Removal
  kept : Bytes → Removal

-- `os.Remove`, `net.ListenUnix` and `grpcServer.Serve`; the error is given by its text.
pub record Sockets : Type 0 where
  pub remove : Bytes → Removal
  pub listen_unix : Bytes → Option Bytes
  pub serve : ExtProcServer → Option Bytes

-- The calls that are made on the socket, in order.
pub data SocketCall : Type 0 where
  remove_socket listen_on close_socket : Bytes → SocketCall
  serve_with : ExtProcServer → SocketCall

pub data RunError : Type 0 where
  nil_context nil_config : RunError
  invalid_config not_loaded not_removed not_listening not_served : Bytes → RunError
  not_filtered : FilterError → RunError

unfoldable pub allowed_tools :
    ToolRegistryConfig → Result Bytes ToolRegistry → Result RunError ToolRegistry
allowed_tools config (err e) = err (not_loaded e)
allowed_tools config (ok registry) =
    if is_empty config.tool_allowlist
    then ok registry
    else elim (filter_by_allowlist registry config.tool_allowlist) [
      | ok filtered ↦ ok filtered
      | err e ↦ err (not_filtered e)
    ]

abbrev pub new_server : Config → ToolRegistry → ExtProcServer
new_server c registry = record {
  registry = registry;
  server_info = c.server_info;
  allowed_hosts =
      new_host_allowlist
        (if is_empty c.allowed_hosts then default_allowed_hosts else c.allowed_hosts);
}

module _ (sockets : Sockets) where
  unfoldable pub listen_and_serve : Config → ToolRegistry → List SocketCall × Option RunError
  listen_and_serve c registry = elim (sockets.listen_unix c.socket_path) [
    | some e ↦ (listen_on c.socket_path ∷ [], some (not_listening e))
    | none ↦ (
      listen_on c.socket_path
          ∷ serve_with (new_server c registry)
          ∷ close_socket c.socket_path
          ∷ [],
      elim (sockets.serve (new_server c registry)) [ none ↦ none | some e ↦ some (not_served e) ],
    )
  ]

  unfoldable pub serve_registry :
      Config → Result RunError ToolRegistry → List SocketCall × Option RunError
  serve_registry c (err e) = ([], some e)
  serve_registry c (ok registry) =
      let (calls, error) = listen_and_serve c registry in
      elim (sockets.remove c.socket_path) [
        | kept e ↦ (remove_socket c.socket_path ∷ [], some (not_removed e))
        | removed ↦ (remove_socket c.socket_path ∷ calls, error)
        | not_there ↦ (remove_socket c.socket_path ∷ calls, error)
      ]

  module _ (quote : Bytes → Bytes) (files : Files) (url_host : Bytes → Option Bytes)
      (fuel : ℕ) where
    -- The configuration after its check; without a registry's configuration it would panic.
    unfoldable pub run_checked :
        Config → Option ToolRegistryConfig → Call (List SocketCall × Option RunError)
    run_checked c none = panicked
    run_checked c (some config) =
        new_tool_registry_from_config files url_host fuel config >>= λ loaded.
        returned (serve_registry c (allowed_tools config loaded))

    unfoldable pub run_server :
        (has_context : Bool) → Option Config → Call (List SocketCall × Option RunError)
    run_server false cfg = returned ([], some nil_context)
    run_server true none = returned ([], some nil_config)
    run_server true (some c) = elim (validate quote c) [
      | some e ↦ returned ([], some (invalid_config e))
      | none ↦ run_checked c c.tool_registry_config
    ]
