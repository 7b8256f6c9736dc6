-- ===== src/Go.antt =====
-- What the Go code takes from its standard library, as values: instants and durations (time),
-- formatted text (fmt) and errors (errors, fmt.Errorf).
pub mod Time
pub mod Error
