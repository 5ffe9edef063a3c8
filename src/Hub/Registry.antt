-- ===== src/Hub/Registry.antt =====
-- internal/hub/registry.go: the machines that the hub knows, their reports and their current
-- sessions. `mu` makes each method one step. A `*stream.Session` is the number of its session, and
-- `done` says which sessions have ended. A `time.Time` counts nanoseconds, 0 being the zero time.
mod Agents
mod Methods
pub mod History
pub mod Bounds
unfoldable pub use Agents.*
unfoldable pub use Methods.*
