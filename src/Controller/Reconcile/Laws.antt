-- ===== src/Controller/Reconcile/Laws.antt =====
-- What a reconciliation guarantees.
pub mod Guard
pub mod Scope
pub mod Persist
pub mod Degrade
pub mod Succeed
pub mod Settle
pub mod Observe
