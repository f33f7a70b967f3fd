-- ===== src/ControlPlaneApi.antt =====
-- The control-plane API (internal/controlplaneapi): bearer-authenticated HTTP over the store of
-- ManagedServices in one namespace.
pub mod Http
pub mod Mux
pub mod Auth
pub mod Store
pub mod Requests
pub mod Config
pub mod Handler
