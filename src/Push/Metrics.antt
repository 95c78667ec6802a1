-- ===== src/Push/Metrics.antt =====
-- push/metrics/metrics.go: metrics by name in a `sync.Map`, each under its own lock. A method is
-- one step; a loop over the map is one step too, so nothing else runs between two metrics of a
-- flush.
pub mod Methods
pub mod Bounds
pub mod Effects
mod Tests
pub use Methods.{Metrics}
