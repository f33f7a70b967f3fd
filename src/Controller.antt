-- ===== src/Controller.antt =====
-- The operator (internal/controller): a controller that reconciles ManagedService resources.
pub mod Image
pub mod Labels
pub mod Workload
pub mod Resources
pub mod Conditions
pub mod Metrics
pub mod Status
pub mod Reconcile
