-- ===== src/Switchover.antt =====
-- internal/switchover: the switchover itself. `Effects` is what the engine asks of its environment,
-- `PreFlight` the checks (preflight.go), `Engine` the phases (engine.go).
pub mod Effects
pub mod Writers
pub mod PreFlight
pub mod Engine
pub mod Samples
pub mod Servers
