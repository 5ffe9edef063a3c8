-- ===== src/Agent.antt =====
-- The agent daemon on a machine.
pub mod TaskGate
