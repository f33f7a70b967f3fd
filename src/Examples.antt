-- ===== src/Examples.antt =====
-- Concrete libraries and inputs, and the theorems applied to them.
pub mod SampleConditions
pub mod SampleCluster
pub mod SampleClient
pub mod OfController
pub mod OfSettling
pub mod OfApi
pub mod OfTelemetry
pub mod OfPorts
pub mod OfEndToEnd
pub mod OfRegistry
pub mod OfShutdown
pub mod OfCommands
pub mod OfDemo
pub mod OfPublic
