-- ===== src/Telemetry.antt =====
-- src/telemetry.rs: the exporters, the builder, and the calls of the process-wide telemetry of the
-- core, which is a record of functions.
use glide_rust.Base.{ℕ, Bytes, ascii, Bool, Option, ◌++◌}
use glide_rust.Base.Io.{Io, map_io_err}
use glide_rust.Error.{GlideError, configuration}
use glide_rust.Config.Types.{Duration}

pub data TelemetryExporter : Type 0 where
  grpc http file : Bytes → TelemetryExporter

-- `GlideOpenTelemetrySignalsExporter`
pub data SignalsExporter : Type 0 where
  core_grpc core_http core_file : Bytes → SignalsExporter

unfoldable pub exporter_to_core : TelemetryExporter → SignalsExporter
exporter_to_core (grpc s) = core_grpc s
exporter_to_core (http s) = core_http s
exporter_to_core (file p) = core_file p

-- `GlideOpenTelemetryConfigBuilder`, `B`, its configuration, `C`, and `GlideOpenTelemetry`, whose
-- errors are `E`.
pub record CoreTelemetry (B C E W : Type 0) : Type 0 where
  pub default_builder : B
  pub flush_interval : Duration → B → B
  pub trace_exporter : SignalsExporter → Option ℕ → B → B
  pub metrics_exporter : SignalsExporter → B → B
  pub build_config : B → C
  pub initialise : C → Io W E (Unit {0})
  pub initialized : W → Bool
  pub stop : W → W
  pub show_error : E → Bytes
  pub default_trace_sample_percentage : ℕ

pub record OpenTelemetryConfig (B : Type 0) : Type 0 where
  pub inner : B

pub record OpenTelemetryConfigBuilder (B : Type 0) : Type 0 where
  pub builder_inner : B

module _ {B C E W : Type 0} (telemetry : CoreTelemetry B C E W) where
  unfoldable pub default_trace_sample_percent : ℕ
  default_trace_sample_percent = telemetry.default_trace_sample_percentage

  unfoldable pub builder : OpenTelemetryConfigBuilder B
  builder = record { builder_inner = telemetry.default_builder }

  unfoldable pub with_flush_interval :
      Duration → OpenTelemetryConfigBuilder B → OpenTelemetryConfigBuilder B
  with_flush_interval interval b = record b {
    builder_inner = telemetry.flush_interval interval b.builder_inner;
  }

  unfoldable pub with_trace_exporter :
      TelemetryExporter → Option ℕ → OpenTelemetryConfigBuilder B → OpenTelemetryConfigBuilder B
  unfolding exporter_to_core
  with_trace_exporter exporter sample_percentage b = record b {
    builder_inner =
        telemetry.trace_exporter (exporter_to_core exporter) sample_percentage b.builder_inner;
  }

  unfoldable pub with_metrics_exporter :
      TelemetryExporter → OpenTelemetryConfigBuilder B → OpenTelemetryConfigBuilder B
  unfolding exporter_to_core
  with_metrics_exporter exporter b = record b {
    builder_inner = telemetry.metrics_exporter (exporter_to_core exporter) b.builder_inner;
  }

  unfoldable pub build : OpenTelemetryConfigBuilder B → OpenTelemetryConfig B
  build b = record { inner = b.builder_inner }

  unfoldable pub init : OpenTelemetryConfig B → Io W GlideError (Unit {0})
  init config =
      map_io_err
        (λ e. configuration (ascii "OpenTelemetry init failed: " ++ telemetry.show_error e))
        (telemetry.initialise (telemetry.build_config config.inner))

  unfoldable pub is_initialized : W → Bool
  is_initialized w = telemetry.initialized w

  unfoldable pub shutdown : W → W
  shutdown w = telemetry.stop w
