-- ===== src/Telemetry.antt =====
-- Package telemetry (internal/telemetry): http.go and metrics.go, with identifiers and labels, the
-- response recorder, the metrics, and the handler that wraps another; server.go, with the listeners,
-- the shutdown and the metrics server; and tracing.go.
pub mod Labels
pub mod Recorder
pub mod Metrics
pub mod Handler
pub mod Listeners
pub mod Shutdown
pub mod MetricsServer
pub mod Tracing
