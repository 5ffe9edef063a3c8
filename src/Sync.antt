-- ===== src/Sync.antt =====
-- internal/sync: what a push or a pull does with the files of the adapters.
pub mod Exclusion
pub mod Scope
