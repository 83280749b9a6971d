-- ===== src/Examples.antt =====
-- Runs of the model on concrete inputs, and the theorems at them.
mod Reports
mod Decisions
mod Streams
mod Runs
mod Deliveries
mod Releases
mod Builds
mod Texts
mod Documents
mod Guards
mod Arguments
