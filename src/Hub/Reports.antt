-- ===== src/Hub/Reports.antt =====
-- internal/hub/host.go and internal/hub/tools.go: what the hub keeps of a machine's reports.
mod Values
mod Kept
pub mod Bounds
unfoldable pub use Values.*
unfoldable pub use Kept.*
