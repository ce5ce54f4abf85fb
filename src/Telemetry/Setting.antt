-- ===== src/Telemetry/Setting.antt =====
-- What the set-up of logs and traces leaves in the global variables.
use envoy_mcp_openapi_proces.Common.{
  Bytes, Option, Result, Result-cases, ap, err, inl, inr, none, ok, refl, some, subst, sym, ◌++◌,
  ◌∙◌, ◌≡◌,
}
use envoy_mcp_openapi_proces.Common.Text.{codes}
use envoy_mcp_openapi_proces.Telemetry.{
  Globals, Telemetry, TelemetryConfig, component_name, create_logger_core, create_otel_core,
  create_otel_logger, init_logger, init_tracer, logger_of, provider_of, wrap, ◌>>?◌,
}

wrap-eq-ok :
    {A : Type 0} (phrase : Bytes) (m : Result Bytes A) {a : A} → wrap phrase m ≡ ok a → m ≡ ok a
wrap-eq-ok phrase (ok a) h = h
wrap-eq-ok phrase (err e) h = absurd (cc h)

>>?-eq-ok :
    {A B : Type 0} (m : Result Bytes A) (f : A → Result Bytes B) {b : B}
    → (m >>? f) ≡ ok b
    → (a : A) × (m ≡ ok a) × (f a ≡ ok b)
>>?-eq-ok (ok a) f h = (a, refl, h)
>>?-eq-ok (err e) f h = absurd (cc h)

wrapped-eq-ok :
    {A B : Type 0} (phrase : Bytes) (m : Result Bytes A) (f : A → Result Bytes B) {b : B}
    → (wrap phrase m >>? f) ≡ ok b
    → (a : A) × (m ≡ ok a) × (f a ≡ ok b)
wrapped-eq-ok phrase (ok a) f h = (a, refl, h)
wrapped-eq-ok phrase (err e) f h = absurd (cc h)

ok-injective : {A : Type 0} {a b : A} → ◌≡◌ {A = Result Bytes A} (ok a) (ok b) → a ≡ b
ok-injective h = cc

module _ (t : Telemetry) (quote : Bytes → Bytes) (config : TelemetryConfig) where
  -- Every call for the logger succeeds, and the logger is made of what they give.
  pub record IsLogger (logger : t.Logger) : Type 0 where
    pub level : t.Level
    pub parsed : t.parse_level config.log_level ≡ ok level
    pub exporter : t.Exporter
    pub exports : t.new_log_exporter config.otel_endpoint ≡ ok exporter
    pub resource : t.Resource
    pub merged : t.merge_log_resource config.service_name ≡ ok resource
    pub gated : t.Core
    pub gates :
        t.new_increase_level_core (t.new_core component_name exporter resource) level ≡ ok gated
    pub made : logger ≡ t.new_logger (t.tee_with_console level gated) component_name

  -- Every call for the tracer provider succeeds, and the provider is made of what they give.
  pub record IsProvider (provider : t.Provider) : Type 0 where
    pub client : t.Client
    pub connected : t.new_client config.otel_endpoint ≡ ok client
    pub exporter : t.Exporter
    pub exports : t.new_trace_exporter client ≡ ok exporter
    pub resource : t.Resource
    pub merged : t.merge_trace_resource config.service_name config.service_version ≡ ok resource
    pub made : provider ≡ t.new_tracer_provider exporter resource

  logger_of_complete : (logger : t.Logger) → IsLogger logger → logger_of t quote config ≡ ok logger
  unfolding logger_of create_otel_logger create_logger_core create_otel_core
  logger_of_complete logger is_logger =
      rw (is_logger.parsed, is_logger.exports, is_logger.merged)
        (rw (is_logger.gates) (ap ok (sym is_logger.made)))

  logger_of_sound : (logger : t.Logger) → logger_of t quote config ≡ ok logger → IsLogger logger
  unfolding logger_of create_otel_logger create_logger_core create_otel_core
  logger_of_sound logger h =
      let (level, parsed, h1) =
        wrapped-eq-ok (codes "invalid config.LogLevel " ++ (quote config.log_level ++ codes ": "))
          (t.parse_level config.log_level) _ h in
      let (core, cored, h2) = >>?-eq-ok (create_logger_core t config level) _ (
        wrap-eq-ok (codes "failed to initialize logger: ") (create_otel_logger t config level)
          h1) in
      let (otel_core, oteled, h3) = >>?-eq-ok (create_otel_core t config) _ cored in
      let (gated, gates, h4) =
        wrapped-eq-ok (codes "cannot apply log level to OTel core: ")
          (t.new_increase_level_core otel_core level) _ h3 in
      let (exporter, exports, h5) =
        wrapped-eq-ok (codes "failed to create OTLP log exporter: ")
          (t.new_log_exporter config.otel_endpoint) _ oteled in
      let (resource, merged, h6) =
        wrapped-eq-ok (codes "cannot create OTel resource: ")
          (t.merge_log_resource config.service_name) _ h5 in
      record {
        level = level;
        parsed = parsed;
        exporter = exporter;
        exports = exports;
        resource = resource;
        merged = merged;
        gated = gated;
        gates =
            subst (λ c. t.new_increase_level_core c level ≡ ok gated) (sym (ok-injective h6)) gates;
        made =
            sym (ok-injective h2) ∙ ap (λ c. t.new_logger c component_name) (sym (ok-injective h4));
      }

  provider_of_complete :
      (provider : t.Provider) → IsProvider provider → provider_of t config ≡ ok provider
  unfolding provider_of
  provider_of_complete provider is_provider =
      rw (is_provider.connected)
        (rw (is_provider.exports) (rw (is_provider.merged) (ap ok (sym is_provider.made))))

  provider_of_sound :
      (provider : t.Provider) → provider_of t config ≡ ok provider → IsProvider provider
  unfolding provider_of
  provider_of_sound provider h =
      let (client, connected, h1) =
        wrapped-eq-ok (codes "failed to create gRPC connection to collector: ")
          (t.new_client config.otel_endpoint) _ h in
      let (exporter, exports, h2) =
        wrapped-eq-ok (codes "failed to create trace exporter: ") (t.new_trace_exporter client) _
          h1 in
      let (resource, merged, h3) =
        wrapped-eq-ok (codes "failed to create resource: ")
          (t.merge_trace_resource config.service_name config.service_version) _ h2 in
      record {
        client = client;
        connected = connected;
        exporter = exporter;
        exports = exports;
        resource = resource;
        merged = merged;
        made = sym (ok-injective h3);
      }

  -- What a set-up does to the globals: `update` with what is made, if something can be made.
  abbrev pub Sets :
      {A : Type 0} → (A → Type 0) → (A → Globals t) → Globals t → Globals t × Option Bytes → Type 0
  Sets {A} IsMade update globals out =
      ((a : A) → IsMade a → out ≡ (update a, none))
      × (((a : A) → ¬ IsMade a) → (e : Bytes) × (out ≡ (globals, some e)))

  -- The set-up of logs replaces the global logger by the one that is made of what the calls give, if
  -- every call for it succeeds; and that of traces replaces the global tracer provider and the
  -- propagator likewise. If one of the calls fails, the set-up returns an error and leaves every
  -- global as it was; so a failed set-up never leaves half of a tracer.
  pub init_logger-Sets :
      (globals : Globals t)
      → Sets IsLogger
          (λ logger. record globals { logger = logger })
          globals
          (init_logger t quote config globals)
        × Sets IsProvider
            (λ provider. record globals {
              tracer_provider = provider;
              text_map_propagator = t.trace_context_and_baggage;
            })
            globals
            (init_tracer t config globals)
  unfolding init_logger init_tracer
  init_logger-Sets globals = (
    (
      λ logger is_logger. rw (logger_of_complete logger is_logger, init_logger) refl,
      λ never. elim (Result-cases (logger_of t quote config)) [
        | inl (e, failed) ↦ (e, rw (failed, init_logger) refl)
        | inr (logger, made) ↦ absurd (never logger (logger_of_sound logger made))
      ],
    ),
    (
      λ provider is_provider. rw (provider_of_complete provider is_provider, init_tracer) refl,
      λ never. elim (Result-cases (provider_of t config)) [
        | inl (e, failed) ↦ (e, rw (failed, init_tracer) refl)
        | inr (provider, made) ↦ absurd (never provider (provider_of_sound provider made))
      ],
    ),
  )
