-- ===== src/Controller.antt =====
-- internal/controller: the reconciler of a ClusterSwitchPolicy.
pub mod Attempt
pub mod Client
pub mod Components
pub mod Cycle
pub mod Decision
pub mod Finalizer
pub mod HealthStatus
pub mod Progress
pub mod Reconcile
pub mod Recovery
mod Samples
pub mod LeaseTtl
pub mod ReplicationErrors
