-- ===== src/Hub.antt =====
-- The hub, which keeps the central store and talks to the agents.
pub mod Enrollment
pub mod Reports
pub mod Registry
