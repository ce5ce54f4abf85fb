-- ===== src/Server/Forwarding.antt =====
-- Where the tool calls of a running server go.
use mathlib.Core.Bool.{and-eq-true_iff}
use envoy_mcp_openapi_proces.Common.{
  All, Any, Bool, Bytes, List, Option, ap, false, here, is_empty, is_some, ok, returned, some,
  subst, sym, there, true, ℕ, ◌||◌, ◌∙◌, ◌≡◌,
}
use envoy_mcp_openapi_proces.Common.Text.{to_lower, to_upper}
use envoy_mcp_openapi_proces.Config.{Config, ToolRegistryConfig}
use envoy_mcp_openapi_proces.Endpoint.{full_path}
use envoy_mcp_openapi_proces.Endpoint.Building.{is_ok}
use envoy_mcp_openapi_proces.Handler.{ExtProcServer, mcp_request_handler}
use envoy_mcp_openapi_proces.Handler.ToolCalls.{Forwarded, mcp_request_handler-Forwarded}
use envoy_mcp_openapi_proces.Headers.{McpRequestHeaders}
use envoy_mcp_openapi_proces.OpenApi.{extract_host_from_open_api_spec, should_skip_operation}
use envoy_mcp_openapi_proces.OpenApi.Document.{Operation, Spec}
use envoy_mcp_openapi_proces.OpenApi.Generating.{DistinctNames, Serves, present}
use envoy_mcp_openapi_proces.OpenApi.Listing.{Stands}
use envoy_mcp_openapi_proces.OpenApi.Loading.{Files}
use envoy_mcp_openapi_proces.OpenApi.Loading.Offering.{document}
use envoy_mcp_openapi_proces.OpenApi.Serving.{new_endpoint_request-Serves}
use envoy_mcp_openapi_proces.Protocol.{Codecs}
use envoy_mcp_openapi_proces.Registry.Filtering.{listed}
use envoy_mcp_openapi_proces.Registry.Sorted.{has_tool}
use envoy_mcp_openapi_proces.Server.{RunError, SocketCall, Sockets, run_server, serve_with}
use envoy_mcp_openapi_proces.Server.Running.{
  IsServer, Ran, deaf, no_config, no_context, no_registry, refused, returned-Ran, served, stuck,
}
use envoy_mcp_openapi_proces.Wire.{StreamedMutation}
use envoy_mcp_openapi_proces.Wire.Routing.{IsRouted}

-- The call goes to an operation of a document of the configuration.
pub record IsOperationCall (files : Files) (url_host : Bytes → Option Bytes) (k : Codecs)
    (config : ToolRegistryConfig) (s : ExtProcServer) (body : Bytes) (hdrs : McpRequestHeaders)
    (m : StreamedMutation) : Type 0 where
  pub matches : List Bytes
  pub globbed : files.glob config.open_api_spec_pattern ≡ ok matches
  pub file : Bytes
  pub matched : Any (λ p. p ≡ file) matches
  pub spec : Spec
  pub found : document files file ≡ some spec
  pub path : Bytes
  pub method : Bytes
  pub op : Operation
  pub stands : Stands spec.paths path method op
  pub taken : should_skip_operation (some op) ≡ false
  pub admitted_name :
      (is_empty config.tool_allowlist || listed config.tool_allowlist op.operation_id) ≡ true
  pub call : Forwarded k s body hdrs m
  pub named : call.name ≡ op.operation_id
  pub same_path : call.config.endpoint.path_template ≡ path
  pub fitting :
      DistinctNames (present op.parameters) → All (Serves call.arguments) (present op.parameters)
  pub routed :
      IsRouted
        (extract_host_from_open_api_spec url_host spec.servers)
        (to_upper (to_lower method))
        (full_path k.query_encode call.endpoint_request)
        call.request_body
        call.endpoint_request.extra_headers
        hdrs.param_header_names
        m

module _ (quote : Bytes → Bytes) (files : Files) (url_host : Bytes → Option Bytes)
    (sockets : Sockets) (has_context : Bool) (cfg : Option Config) (s : ExtProcServer) where
  -- The configuration of a server.
  abbrev Configured : Type 0
  Configured =
      (c : Config) × (config : ToolRegistryConfig) × (cfg ≡ some c)
      × (c.tool_registry_config ≡ some config)
      × IsServer quote files url_host c config s

  Ran-Configured :
      (out : List SocketCall × Option RunError)
      → Ran quote files url_host sockets has_context cfg out
      → Any (λ call. call ≡ serve_with s) out.0
      → Configured
  Ran-Configured _ (no_context h) m = elim m [ ]
  Ran-Configured _ (no_config g h) m = elim m [ ]
  Ran-Configured _ (refused c e g h i) m = elim m [ ]
  Ran-Configured _ (no_registry c config e h i) m = elim m [ ]
  Ran-Configured _ (stuck c config registry e h i j) m = elim m [
    | here r ↦ absurd (cc r)
    | there m1 ↦ elim m1 [ ]
  ]
  Ran-Configured _ (deaf c config registry e h i j l) m = elim m [
    | here r ↦ absurd (cc r)
    | there m1 ↦ elim m1 [ here r ↦ absurd (cc r) | there m2 ↦ elim m2 [ ] ]
  ]
  Ran-Configured _ (served c config t e (_, given, _, named) is_server free listening ended) m =
      elim m [
        | here r ↦ absurd (cc r)
        | there m1 ↦ elim m1 [
          | here r ↦ absurd (cc r)
          | there m2 ↦ elim m2 [
            | here r ↦
                let same : t ≡ s = cc r in
                (
                  c,
                  config,
                  given,
                  named,
                  subst (IsServer quote files url_host c config) same is_server,
                )
            | there m3 ↦ elim m3 [ here r ↦ absurd (cc r) | there m4 ↦ elim m4 [ ] ]
          ]
        ]
      ]

module _ (quote : Bytes → Bytes) (files : Files) (url_host : Bytes → Option Bytes) (k : Codecs)
    (s : ExtProcServer) (c : Config) (config : ToolRegistryConfig) where
  Forwarded-IsOperationCall :
      IsServer quote files url_host c config s
      → (body : Bytes) (hdrs : McpRequestHeaders) (m : StreamedMutation) → Forwarded k s body hdrs m
      → IsOperationCall files url_host k config s body hdrs m
  Forwarded-IsOperationCall ((matches, globbed, w, names, configured), info, hosts) body hdrs m f =
      let (tool, same_tool, loaded) = configured f.name f.config f.registered in
      let from = loaded.source in
      let known : has_tool s.registry.tools f.name ≡ true =
        sym (w.same_names f.name) ∙ ap is_some f.registered in
      record {
        matches = matches;
        globbed = globbed;
        file = loaded.path;
        matched = loaded.matched;
        spec = loaded.spec;
        found = loaded.found;
        path = from.path;
        method = from.method;
        op = from.op;
        stands = from.stands;
        taken = from.taken;
        admitted_name =
            subst
              (λ name. (is_empty config.tool_allowlist || listed config.tool_allowlist name) ≡ true)
              (sym same_tool ∙ from.same_name)
              ((and-eq-true_iff _ _).0 (sym (names f.name) ∙ known)).0;
        call = f;
        named = sym same_tool ∙ from.same_name;
        same_path = from.same_path;
        fitting = λ distinct.
            (new_endpoint_request-Serves f.config.endpoint f.arguments (present from.op.parameters)
                (from.same_params distinct)).0
              (ap is_ok f.built);
        routed =
            subst
              (λ (e : Bytes × Bytes).
                IsRouted e.0 (to_upper e.1) (full_path k.query_encode f.endpoint_request)
                  f.request_body f.endpoint_request.extra_headers hdrs.param_header_names m)
              (λ i. (from.same_host i, from.same_method i)) f.routed;
      }

-- Every tool call that a running server forwards goes to an operation of an OpenAPI document of its
-- configuration: one that is not skipped, that has the called tool's name, and whose name the
-- allowlist admits. What is sent overwrites the request's `:authority` with the host of that
-- document, `:method` with the operation's method and `:path` with the request that the call's own
-- arguments make of the operation's path; where the operation's parameters have distinct names, the
-- call's arguments serve each of them.
pub run_server-IsOperationCall :
    (sockets : Sockets) (quote : Bytes → Bytes) (files : Files) (url_host : Bytes → Option Bytes)
    (fuel : ℕ) (cfg : Option Config) (out : List SocketCall × Option RunError) (s : ExtProcServer)
    (k : Codecs) (body : Bytes) (hdrs : McpRequestHeaders) (m : StreamedMutation)
    → run_server sockets quote files url_host fuel true cfg ≡ returned out
    → Any (λ call. call ≡ serve_with s) out.0
    → (mcp_request_handler k s body hdrs).reroute ≡ some m
    → (c : Config) × (config : ToolRegistryConfig) × (cfg ≡ some c)
      × (c.tool_registry_config ≡ some config)
      × IsOperationCall files url_host k config s body hdrs m
run_server-IsOperationCall sockets quote files url_host fuel cfg out s k body hdrs m ran serving
      forwards =
    let (c, config, given, given_registry, is_server) =
      Ran-Configured quote files url_host sockets true cfg s out
        (returned-Ran quote files url_host sockets true cfg fuel out ran) serving in
    (
      c,
      config,
      given,
      given_registry,
      Forwarded-IsOperationCall quote files url_host k s c config is_server body hdrs m
          (mcp_request_handler-Forwarded k s body hdrs m forwards),
    )
