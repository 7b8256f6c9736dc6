-- ===== src/Controller/ReplicationErrors.antt =====
-- internal/controller/replication_errors.go and replication_skip.go: the errors of the local
-- replica, the skips of failing transactions, and the quarantine.
--
-- Events, metrics and logs are left out, and with them the labels that only say which metric is set.
pub mod LabelKey
pub mod Gauges
pub mod History
pub mod Skip
pub mod Quarantine
pub mod Cycle
pub mod Status
mod Tests
