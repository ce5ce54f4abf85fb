-- ===== src/Lib.antt =====
-- The MCP processor for Envoy: an ext_proc server that turns MCP tool calls into HTTP requests to
-- an API, and the API's responses into MCP results.
--
-- How the parts interact. Envoy opens one gRPC stream per HTTP exchange and sends it the request's
-- headers, body and trailers, and then the response's. The loop `Process` of server.go hands each
-- message to the state of the stream and sends what the state answers. The state machine of
-- stream_state.go checks the method, the Host and the Origin, buffers the body, calls the handler of
-- mcp_handler.go, and after a tool call buffers the upstream response and calls the other handler.
-- The handlers use the eras of mcp.go, the registry, the endpoint requests and the constructors of
-- extproc_response.go. The registry is made once, before the server listens: `RunServer` checks the
-- configuration, reads the OpenAPI documents, makes a tool of each operation that is not skipped, and
-- keeps those that the allowlist names.
--
-- Which module models which file:
--   Wire      extproc_response.go, const.go: the messages to Envoy and `frame`
--   Stream    stream_state.go and `Process` of server.go: the states, the handlers, the loop
--   Handler   mcp_handler.go: `mcpRequestHandler`, `mcpResponseHandler` and what they call
--   Era       mcp.go: versions, `legacyEra`, `modernEra`, `resolveEra`
--   Protocol  result.go, and the messages of the packages jsonrpc and mcp
--   Headers   header_validation.go
--   Hosts     host_validation.go, with `findHeader` of mcp_handler.go
--   Endpoint  endpoint_request.go
--   Registry  registry.go
--   OpenApi   openapi.go: Document is the parsed document, Schemas `openApiSchemaToMap`, Responses
--             `findJSONSchemaFromResponses`, Tools `generateMCPToolFromApiOperation`, and OpenApi and
--             OpenApi/Loading the tools of a document and of the files of a configuration
--   Server    `RunServer` of server.go
--   Telemetry log.go, tracing.go and telemetry.go
--   Config    `Config`, `validate` and `validAllowedHost` of server.go
--   Json      the values of `any` that encoding/json makes
--   Std       net.SplitHostPort, Base64, strconv and the order of strings
--   Common    lists, maps, texts and tests that the others share
--   Tests     one server, the document it is made from and one exchange, to which the theorems are
--             applied
-- A function keeps its name, in this library's spelling: `captureMCPRequestHeaders` is
-- `capture_mcp_request_headers`. A pointer or an interface that may be nil is an option, a pair of
-- a result and an error a sum, and the mutated `stream` the state and the buffer that a step returns.
--
-- Conventions. A string is the list of its bytes. A map is an association list, whose order stands
-- for one order in which `range` may visit it. Letter case and white space are those of ASCII. A
-- number of a JSON text is given by its text under the verb `%v`. Traces and logs are left out where
-- nothing that is sent depends on them. A call that may panic, or that runs on a depth of recursion,
-- is a `Call` of Common. A schema of a document has an address, and a heap gives its content, as the
-- loader of openapi3 makes a circle of a schema that refers back to itself.
--
-- Fuel. `frame_chunks` takes one more than the length of the body, and every round takes a chunk of
-- at least one byte off it; `search_loop` takes one more than the number of tools, and every round
-- shrinks the range; `itoa` takes one more than the number, and every round divides it by ten.
-- `open_api_schema_to_map` takes the depth of the recursion, which the program does not bound: it is a
-- parameter of all that calls it, and the theorems say exactly for which documents some depth is
-- enough, with the same result from there on.
--
-- Parameters. The libraries encoding/json, jsonrpc, net/url and the verb `%q` are the fields of the
-- record `Codecs` of Protocol; the file system and the loader of openapi3 those of `Files` of
-- OpenApi/Loading; the calls of the socket and of gRPC those of `Sockets` of Server; zap and
-- OpenTelemetry those of `Telemetry`. Nothing is assumed of them beyond what a theorem states.
--
-- Not modelled: the logs and spans that the functions write on their way, the shutdown of the server
-- and of the tracer, and the example command, which calls `RunServer` with a fixed configuration.
pub mod Common
pub mod Std
pub mod Json
pub mod Registry
pub mod Headers
pub mod Endpoint
pub mod Protocol
pub mod Era
pub mod Handler
pub mod Stream
pub mod Hosts
pub mod OpenApi
mod Tests
pub mod Config
pub mod Wire
pub mod Server
pub mod Telemetry
