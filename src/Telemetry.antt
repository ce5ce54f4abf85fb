-- ===== src/Telemetry.antt =====
-- log.go, tracing.go and telemetry.go: which output a log entry goes to, and the set-up of the global
-- logger and tracer. The packages zap and go.opentelemetry.io/otel are parameters.
pub mod Console
pub mod Setting
use envoy_mcp_openapi_proces.Common.{
  Bool, Bytes, List, Option, Result, [], err, if◌then◌else◌, none, not, ok, some, ◌&&◌, ◌++◌, ◌∷◌,
}
use envoy_mcp_openapi_proces.Common.Text.{codes}

abbrev pub component_name : Bytes
component_name = codes "envoy-mcp-openapi-processor"

pub record TelemetryConfig : Type 0 where
  pub otel_endpoint : Bytes
  pub service_name : Bytes
  pub service_version : Bytes
  pub log_level : Bytes

-- The standard output and the standard error.
pub data Output : Type 0 where
  stdout stderr : Output

-- `less` is the order of `zapcore.Level`, and `error_level` is `zapcore.ErrorLevel`.
module _ {Level : Type 0} (less : Level → Level → Bool) (error_level : Level) where
  -- The outputs of the console core, a tee, that an entry of a level goes to.
  unfoldable pub create_console_core : (level entry : Level) → List Output
  create_console_core level entry =
      (if not (less entry level) && less entry error_level then stdout ∷ [] else [])
      ++ (if less entry error_level then [] else stderr ∷ [])

-- The values of the packages: levels, what the calls on them answer, and what is made of these. An
-- error is given by its text.
pub record Telemetry : Type 1 where
  pub Level : Type 0
  pub Exporter : Type 0
  pub Resource : Type 0
  pub Core : Type 0
  pub Logger : Type 0
  pub Client : Type 0
  pub Provider : Type 0
  pub Propagator : Type 0
  pub parse_level : Bytes → Result Bytes Level
  pub new_log_exporter : Bytes → Result Bytes Exporter
  pub merge_log_resource : Bytes → Result Bytes Resource
  pub new_core : Bytes → Exporter → Resource → Core
  pub new_increase_level_core : Core → Level → Result Bytes Core
  pub tee_with_console : Level → Core → Core
  pub new_logger : Core → Bytes → Logger
  pub new_client : Bytes → Result Bytes Client
  pub new_trace_exporter : Client → Result Bytes Exporter
  pub merge_trace_resource : (service_name service_version : Bytes) → Result Bytes Resource
  pub new_tracer_provider : Exporter → Resource → Provider
  pub trace_context_and_baggage : Propagator

-- The global variables of the packages that are set.
pub record Globals (t : Telemetry) : Type 0 where
  pub logger : t.Logger
  pub tracer_provider : t.Provider
  pub text_map_propagator : t.Propagator

-- An error with a text before it.
abbrev pub wrap : {A : Type 0} → Bytes → Result Bytes A → Result Bytes A
wrap phrase (ok a) = ok a
wrap phrase (err e) = err (phrase ++ e)

-- The value of one call goes to the next; the first error is the answer.
infixl 5 ◌>>?◌
abbrev pub ◌>>?◌ : {A B : Type 0} → Result Bytes A → (A → Result Bytes B) → Result Bytes B
ok a >>? f = f a
err e >>? f = err e

module _ (t : Telemetry) where
  unfoldable pub create_otel_core : TelemetryConfig → Result Bytes t.Core
  create_otel_core config =
      wrap (codes "failed to create OTLP log exporter: ") (t.new_log_exporter config.otel_endpoint)
      >>? λ exporter.
          wrap (codes "cannot create OTel resource: ") (t.merge_log_resource config.service_name)
          >>? λ resource. ok (t.new_core component_name exporter resource)

  unfoldable pub create_logger_core : TelemetryConfig → t.Level → Result Bytes t.Core
  create_logger_core config level = create_otel_core config >>? λ otel_core.
      wrap (codes "cannot apply log level to OTel core: ")
        (t.new_increase_level_core otel_core level)
      >>? λ gated. ok (t.tee_with_console level gated)

  unfoldable pub create_otel_logger : TelemetryConfig → t.Level → Result Bytes t.Logger
  create_otel_logger config level =
      create_logger_core config level >>? λ core. ok (t.new_logger core component_name)

  -- The provider that is to be set, or the error.
  unfoldable pub provider_of : TelemetryConfig → Result Bytes t.Provider
  provider_of config =
      wrap (codes "failed to create gRPC connection to collector: ")
        (t.new_client config.otel_endpoint)
      >>? λ client.
          wrap (codes "failed to create trace exporter: ") (t.new_trace_exporter client)
          >>? λ exporter.
              wrap (codes "failed to create resource: ")
                (t.merge_trace_resource config.service_name config.service_version)
              >>? λ resource. ok (t.new_tracer_provider exporter resource)

  -- The globals after the call, and its error; the shutdown function it returns is left out.
  unfoldable pub init_tracer : TelemetryConfig → Globals t → Globals t × Option Bytes
  init_tracer config globals = elim (provider_of config) [
    | err e ↦ (globals, some e)
    | ok made ↦ (
      record globals { tracer_provider = made; text_map_propagator = t.trace_context_and_baggage },
      none,
    )
  ]

  module _ (quote : Bytes → Bytes) where
    -- The logger that is to be set, or the error.
    unfoldable pub logger_of : TelemetryConfig → Result Bytes t.Logger
    logger_of config =
        wrap (codes "invalid config.LogLevel " ++ (quote config.log_level ++ codes ": "))
          (t.parse_level config.log_level)
        >>? λ level. wrap (codes "failed to initialize logger: ") (create_otel_logger config level)

    -- The globals after the call, and its error.
    unfoldable pub init_logger : TelemetryConfig → Globals t → Globals t × Option Bytes
    init_logger config globals = elim (logger_of config) [
      | err e ↦ (globals, some e)
      | ok made ↦ (record globals { logger = made }, none)
    ]
