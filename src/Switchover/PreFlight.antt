-- ===== src/Switchover/PreFlight.antt =====
-- internal/switchover/preflight.go: the checks before a switchover. A nil interface is a flag that
-- is false; the time that a check takes (`Elapsed`) is not modelled.
pub mod Result
pub mod Gtid
pub mod Checks
pub mod Run
pub mod Verdict
pub mod Quiet
mod Tests
