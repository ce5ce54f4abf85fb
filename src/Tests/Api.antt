-- ===== src/Tests/Api.antt =====
-- A document with one operation, the configuration of a server for it, and its surroundings.
use envoy_mcp_openapi_proces.Common.{
  Bytes, List, Option, [], equal, none, ok, some, suc, true, zero, ◌∷◌,
}
use envoy_mcp_openapi_proces.Common.Text.{codes}
use envoy_mcp_openapi_proces.Config.{Config, ToolRegistryConfig}
use envoy_mcp_openapi_proces.OpenApi.Document.{Content, Heap, Operation, Parameter, Schema, Spec}
use envoy_mcp_openapi_proces.OpenApi.Loading.{Files}
use envoy_mcp_openapi_proces.Server.{Sockets, not_there}

-- A schema that is no object, one for an object that has it as a property, and one whose items are itself.
abbrev pub plain_schema : Schema
plain_schema = record {
  types = some (codes "string" ∷ []);
  description = [];
  enum = none;
  required = [];
  properties = none;
  items = none;
}

abbrev pub heap : Heap
heap zero = plain_schema
heap (suc zero) = record plain_schema {
  types = some (codes "object" ∷ []);
  properties = some ((codes "name", some (some 0)) ∷ []);
}
heap (suc (suc n)) = record plain_schema { items = some (some 2) }

abbrev pub user_id : Parameter
user_id = record {
  name = codes "id";
  param_in = codes "path";
  required = true;
  description = codes "The user";
  schema = some (some 0);
}

abbrev pub answers : List (Bytes × Option Content)
answers =
    (codes "404", none)
    ∷ (codes "200", some ((codes "application/json", some (some (some 1))) ∷ []))
    ∷ []

abbrev pub update_user : Operation
update_user = record {
  operation_id = codes "get_user";
  summary = codes "A user";
  description = [];
  parameters = some user_id ∷ [];
  request_body = some (
      some (record {
        required = true;
        content = (codes "application/json", some (some (some 1))) ∷ [];
      }));
  responses = answers;
}

abbrev pub users_spec : Spec
users_spec = record {
  schemas = heap;
  servers = codes "https://api.example.org/v1" ∷ [];
  paths = (codes "/users/{id}", (codes "PUT", some update_user) ∷ []) ∷ [];
}

abbrev pub config : ToolRegistryConfig
config = record {
  open_api_spec_pattern = codes "/conf/*.yaml";
  tool_allowlist = codes "get_user" ∷ [];
  structured_output = true;
}

abbrev pub host_of : Bytes → Option Bytes
host_of url = some (codes "api.example.org")

-- One file and one folder are matched.
abbrev pub folder : Files
folder = record {
  glob = λ pattern. ok (codes "/conf/users.yaml" ∷ codes "/conf/more" ∷ []);
  is_dir = λ path. ok (equal path (codes "/conf/more"));
  load_from_file = λ path. ok users_spec;
}

abbrev pub quoted : Bytes → Bytes
quoted s = s

-- The socket is not there yet, and the server is stopped without an error.
abbrev pub sockets : Sockets
sockets = record { remove = λ path. not_there; listen_unix = λ path. none; serve = λ server. none }

abbrev pub server_config : Config
server_config = record {
  socket_path = codes "/run/ext_proc.sock";
  tool_registry_config = some config;
  server_info = record { name = codes "users"; version = codes "1"; instructions = [] };
  allowed_hosts = [];
}
