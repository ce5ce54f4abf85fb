-- ===== src/Server/Running.antt =====
-- A run of the server from its arguments to its end.
use envoy_mcp_openapi_proces.Common.{
  >>=-eq-returned, Bool, Bytes, List, Option, Option-cases, Result, Returns, Returns-chain, [],
  arith, at_once, err, false, if◌then◌else◌, inl, inr, is_empty, none, ok, refl, returned,
  returned-injective, some, subst, true, ℕ, ◌∷◌, ◌≡◌, ◌≢◌, ◌⊎◌,
}
use envoy_mcp_openapi_proces.Config.{Config, ToolRegistryConfig, validate}
use envoy_mcp_openapi_proces.Config.Validating.{validate_iff}
use envoy_mcp_openapi_proces.Handler.{ExtProcServer}
use envoy_mcp_openapi_proces.Hosts.{default_allowed_hosts, new_host_allowlist}
use envoy_mcp_openapi_proces.OpenApi.Loading.{Files, new_tool_registry_from_config}
use envoy_mcp_openapi_proces.OpenApi.Loading.Reading.{SafeFiles, config-Returns, returned-Loads}
use envoy_mcp_openapi_proces.Registry.{ToolRegistry}
use envoy_mcp_openapi_proces.Server.{
  Removal, RunError, SocketCall, Sockets, allowed_tools, close_socket, invalid_config, kept,
  listen_and_serve, listen_on, new_server, nil_config, nil_context, not_listening, not_removed,
  not_served, not_there, remove_socket, removed, run_checked, run_server, serve_registry,
  serve_with,
}
use envoy_mcp_openapi_proces.Server.Starting.{
  Admission, Admits, AdmitsNone, allowed_tools-Admission,
}

hosts_of :
    (hosts : List Bytes)
    → new_host_allowlist (if is_empty hosts then default_allowed_hosts else hosts)
      ≡ new_host_allowlist hosts
unfolding new_host_allowlist
hosts_of [] = refl
hosts_of (h ∷ hs) = refl

Removal-cases : (r : Removal) → ((e : Bytes) × (r ≡ kept e)) ⊎ (r ≡ removed) ⊎ (r ≡ not_there)
Removal-cases (kept e) = inl (e, refl)
Removal-cases removed = inr (inl refl)
Removal-cases not_there = inr (inr refl)

module _ (quote : Bytes → Bytes) (files : Files) (url_host : Bytes → Option Bytes) where
  -- The server that the configuration describes.
  abbrev pub IsServer : Config → ToolRegistryConfig → ExtProcServer → Type 0
  IsServer c config s =
      Admits files url_host config s.registry
      × (s.server_info ≡ c.server_info)
      × (s.allowed_hosts ≡ new_host_allowlist c.allowed_hosts)

  -- The run has a context and a configuration that is accepted.
  abbrev Starts : Bool → Option Config → Config → ToolRegistryConfig → Type 0
  Starts has_context cfg c config =
      (has_context ≡ true)
      × (cfg ≡ some c)
      × (validate quote c ≡ none)
      × (c.tool_registry_config ≡ some config)

  -- No socket is in the way.
  abbrev IsFree : Sockets → Bytes → Type 0
  IsFree sockets path = (sockets.remove path ≡ removed) ⊎ (sockets.remove path ≡ not_there)

  -- How serving ended.
  abbrev Ended : Sockets → ExtProcServer → Option RunError → Type 0
  Ended sockets s none = sockets.serve s ≡ none
  Ended sockets s (some (not_served e)) = sockets.serve s ≡ some e
  Ended sockets s (some _) = ⊥

  -- The calls on the socket and the error of a run.
  pub data Ran (sockets : Sockets) (has_context : Bool) (cfg : Option Config)
      : List SocketCall × Option RunError → Type 0 where
    no_context : has_context ≡ false → Ran sockets has_context cfg ([], some nil_context)
    no_config : has_context ≡ true → cfg ≡ none → Ran sockets has_context cfg ([], some nil_config)
    refused :
        (c : Config) (e : Bytes)
        → has_context ≡ true
        → cfg ≡ some c
        → validate quote c ≡ some e
        → Ran sockets has_context cfg ([], some (invalid_config e))
    no_registry :
        (c : Config) (config : ToolRegistryConfig) (e : RunError)
        → Starts has_context cfg c config
        → AdmitsNone files url_host config e
        → Ran sockets has_context cfg ([], some e)
    stuck :
        (c : Config) (config : ToolRegistryConfig) (registry : ToolRegistry) (e : Bytes)
        → Starts has_context cfg c config
        → Admits files url_host config registry
        → sockets.remove c.socket_path ≡ kept e
        → Ran sockets has_context cfg (remove_socket c.socket_path ∷ [], some (not_removed e))
    deaf :
        (c : Config) (config : ToolRegistryConfig) (registry : ToolRegistry) (e : Bytes)
        → Starts has_context cfg c config
        → Admits files url_host config registry
        → IsFree sockets c.socket_path
        → sockets.listen_unix c.socket_path ≡ some e
        → Ran sockets has_context cfg
            (remove_socket c.socket_path ∷ listen_on c.socket_path ∷ [], some (not_listening e))
    served :
        (c : Config) (config : ToolRegistryConfig) (s : ExtProcServer) (e : Option RunError)
        → Starts has_context cfg c config
        → IsServer c config s
        → IsFree sockets c.socket_path
        → sockets.listen_unix c.socket_path ≡ none
        → Ended sockets s e
        → Ran sockets has_context cfg (
          remove_socket c.socket_path
              ∷ listen_on c.socket_path
              ∷ serve_with s
              ∷ close_socket c.socket_path
              ∷ [],
          e,
        )

  abbrev pub SafeConfig : Option Config → Type 0
  SafeConfig none = Unit
  SafeConfig (some c) =
      (config : ToolRegistryConfig)
      → c.tool_registry_config ≡ some config
      → SafeFiles files url_host config

  module _ (sockets : Sockets) (c : Config) (config : ToolRegistryConfig)
      (starts : Starts true (some c) c config) where
    serve-Ended :
        (s : ExtProcServer)
        → Ended sockets s (elim (sockets.serve s) [ none ↦ none | some e ↦ some (not_served e) ])
    serve-Ended s = elim (Option-cases (sockets.serve s)) [
      | inl done ↦ rw done done
      | inr (e, failed) ↦ rw failed failed
    ]

    listen_and_serve-Ran :
        (registry : ToolRegistry)
        → Admits files url_host config registry
        → IsFree sockets c.socket_path
        → Ran sockets true (some c) (
          remove_socket c.socket_path ∷ (listen_and_serve sockets c registry).0,
          (listen_and_serve sockets c registry).1,
        )
    unfolding listen_and_serve
    listen_and_serve-Ran registry admits free =
        elim (Option-cases (sockets.listen_unix c.socket_path)) [
          | inr (e, failed) ↦
              rw (failed, listen_and_serve) (deaf c config registry e starts admits free failed)
          | inl listening ↦
              rw (listening, listen_and_serve)
                (served c config (new_server c registry) _ starts
                  (admits, refl, hosts_of c.allowed_hosts) free listening
                  (serve-Ended (new_server c registry)))
        ]

    serve_registry-Ran :
        (registry : Result RunError ToolRegistry)
        → Admission files url_host config registry
        → Ran sockets true (some c) (serve_registry sockets c registry)
    unfolding serve_registry
    serve_registry-Ran (err e) nothing = no_registry c config e starts nothing
    serve_registry-Ran (ok registry) admits = elim (Removal-cases (sockets.remove c.socket_path)) [
      | inl (e, in_the_way) ↦
          rw (in_the_way, serve_registry) (stuck c config registry e starts admits in_the_way)
      | inr (inl gone) ↦ rw (gone, serve_registry) (listen_and_serve-Ran registry admits (inl gone))
      | inr (inr no_socket) ↦
          rw (no_socket, serve_registry) (listen_and_serve-Ran registry admits (inr no_socket))
    ]

  run_server-Returns :
      (sockets : Sockets) (has_context : Bool) (cfg : Option Config)
      → SafeConfig cfg
      → Returns (λ fuel. run_server sockets quote files url_host fuel has_context cfg)
  unfolding run_server run_checked
  run_server-Returns sockets false cfg safe = at_once _
  run_server-Returns sockets true none safe = at_once _
  run_server-Returns sockets true (some c) safe = elim (Option-cases (validate quote c)) [
    | inr (e, invalid) ↦ rw (invalid, run_server) (at_once _)
    | inl valid ↦
        rw (valid, run_server)
          (checked c.tool_registry_config refl ((validate_iff quote c).0 valid).0)
  ]
    where
      checked :
          (registry : Option ToolRegistryConfig)
          → c.tool_registry_config ≡ registry
          → registry ≢ none
          → Returns (λ fuel. run_checked sockets quote files url_host fuel c registry)
      checked none missing given = absurd (given refl)
      checked (some config) found given =
          Returns-chain (config-Returns files url_host config (safe config found))
            (λ loaded. at_once _)

  pub returned-Ran :
      (sockets : Sockets) (has_context : Bool) (cfg : Option Config) (fuel : ℕ)
      (made : List SocketCall × Option RunError)
      → run_server sockets quote files url_host fuel has_context cfg ≡ returned made
      → Ran sockets has_context cfg made
  unfolding run_server run_checked
  returned-Ran sockets false cfg fuel made h =
      subst (Ran sockets false cfg) (returned-injective h) (no_context refl)
  returned-Ran sockets true none fuel made h =
      subst (Ran sockets true none) (returned-injective h) (no_config refl refl)
  returned-Ran sockets true (some c) fuel made h = elim (Option-cases (validate quote c)) [
    | inr (e, invalid) ↦
        subst (Ran sockets true (some c)) (returned-injective (rw (invalid, run_server) at h))
          (refused c e refl refl invalid)
    | inl valid ↦ elim (Option-cases c.tool_registry_config) [
      | inl missing ↦ absurd (((validate_iff quote c).0 valid).0 missing)
      | inr (config, given) ↦
          let (loaded, made_of, rest) =
            >>=-eq-returned (new_tool_registry_from_config files url_host fuel config) _
              (rw (given, run_checked) at (rw (valid, run_server) at h)) in
          subst (Ran sockets true (some c)) (returned-injective rest) (
            serve_registry-Ran sockets c config (refl, refl, valid, given)
              (allowed_tools config loaded)
              (allowed_tools-Admission files url_host config loaded
                (returned-Loads files url_host config fuel loaded made_of)))
    ]
  ]

  -- For a configuration whose documents can all be followed to the end, a run ends, alike for every
  -- depth of the recursion from some depth on. It makes no call on the socket without a context or a
  -- configuration, with one that is not accepted, or where no registry can be made (no document that
  -- is matched offers a tool with a valid name, or the allowlist has a name that is not offered); its
  -- error says which. Else it removes the socket; if that fails, other than because there is none, it
  -- ends with that error, and if not it listens; if that fails, it ends with that error, and if not it
  -- serves and then closes, with the error of serving if there is one. What it serves is a well-formed
  -- registry of exactly the valid names that the documents offer and the allowlist admits, each with
  -- its configuration from an operation of a document, the server's info, and the allowed hosts of
  -- the configuration.
  pub run_server-Ran :
      (sockets : Sockets) (has_context : Bool) (cfg : Option Config)
      → SafeConfig cfg
      → (r : Returns (λ fuel. run_server sockets quote files url_host fuel has_context cfg)) × Ran
          sockets has_context cfg r.result_of
  run_server-Ran sockets has_context cfg safe =
      let r = run_server-Returns sockets has_context cfg safe in
      (
        r,
        returned-Ran sockets has_context cfg r.enough r.result_of
            (r.returns r.enough (omega arith)),
      )
