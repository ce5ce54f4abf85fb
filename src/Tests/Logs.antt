-- ===== src/Tests/Logs.antt =====
-- The outputs of log entries, and one set-up of logs and traces.
use envoy_mcp_openapi_proces.Common.{
  Bytes, [], arith, err, false, if◌then◌else◌, length, ltb, ok, true, ℕ, ◌++◌, ◌∷◌, ◌≡◌,
}
use envoy_mcp_openapi_proces.Common.Text.{codes}
use envoy_mcp_openapi_proces.Telemetry.{
  Globals, Telemetry, TelemetryConfig, create_console_core, init_logger, init_tracer, stderr,
  stdout,
}
use envoy_mcp_openapi_proces.Telemetry.Console.{create_console_core-Writes}
use envoy_mcp_openapi_proces.Telemetry.Setting.{IsLogger, IsProvider, Sets, init_logger-Sets}

create_console_core-Writes_example :
    (ltb 3 1 ≡ false
      → create_console_core ltb 3 1 2
        ≡ (if ltb 2 1 then [] else if ltb 2 3 then stdout ∷ [] else stderr ∷ []))
    × (ltb 2 3 ≡ false → ltb 2 1 ≡ true → create_console_core ltb 3 1 2 ≡ stderr ∷ [])
create_console_core-Writes_example = create_console_core-Writes ltb 3 (λ a b c. ground arith) 1 2

-- Every value is a text or a list of texts, and no call fails.
abbrev packages : Telemetry
packages = record {
  Level = ℕ;
  Exporter = Bytes;
  Resource = Bytes;
  Core = Bytes;
  Logger = Bytes × Bytes;
  Client = Bytes;
  Provider = Bytes × Bytes;
  Propagator = Bytes;
  parse_level = λ text. ok (length text);
  new_log_exporter = λ address. ok address;
  merge_log_resource = λ service. ok service;
  new_core = λ name exporter resource. exporter ++ resource;
  new_increase_level_core =
      λ core level. if ltb level 4 then err (codes "invalid increase level") else ok core;
  tee_with_console = λ level core. core;
  new_logger = λ core name. (core, name);
  new_client = λ address. ok address;
  new_trace_exporter = λ client. ok client;
  merge_trace_resource = λ service version. ok (service ++ version);
  new_tracer_provider = λ exporter resource. (exporter, resource);
  trace_context_and_baggage = codes "traceparent";
}

abbrev logs : TelemetryConfig
logs = record {
  otel_endpoint = codes "localhost:4317";
  service_name = codes "users";
  service_version = codes "1";
  log_level = codes "info";
}

abbrev untouched : Globals packages
untouched = record { logger = ([], []); tracer_provider = ([], []); text_map_propagator = [] }

init_logger-Sets_example :
    Sets packages
      (λ s. s)
      logs
      (IsLogger packages (λ s. s) logs)
      (λ made. record untouched { logger = made })
      untouched
      (init_logger packages (λ s. s) logs untouched)
    × Sets packages
        (λ s. s)
        logs
        (IsProvider packages (λ s. s) logs)
        (λ made. record untouched {
          tracer_provider = made;
          text_map_propagator = codes "traceparent";
        })
        untouched
        (init_tracer packages logs untouched)
init_logger-Sets_example = init_logger-Sets packages (λ s. s) logs untouched
