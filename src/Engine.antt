-- ===== src/Engine.antt =====
-- internal/engine: the three-way decisions on files and on JSON values.
pub mod Snapshot
pub mod Mirror
pub mod Merge
pub mod Diff
pub mod Drift
