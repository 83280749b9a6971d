-- ===== src/Pipeline.antt =====
-- pipeline.go, validator.go, validator_panic.go, phase.go and observer.go: the pipeline of rules.
pub mod Rules
pub mod Run
pub mod Build
pub mod Built
pub mod Parallel
pub mod Schedules
pub mod Shown
pub mod FailClosed
pub mod UserChannel
