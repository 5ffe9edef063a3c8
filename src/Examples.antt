-- ===== src/Examples.antt =====
-- Runs of the model on small inputs, and the theorems at inputs that meet their hypotheses.
mod JsonText
mod Documents
mod Drift
mod Enrollment
mod Gens
mod Json
mod Merge
mod Mirror
mod Stream
mod TaskGate
mod Registry
mod Exclusion
mod Resolutions
mod Scope
mod Throttle
