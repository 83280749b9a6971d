-- ===== src/Fault.antt =====
-- errors.go, completed_observations.go, configuration.go, validator_panic.go and the failure part of
-- decision.go: the errors of the library, in three children, with what is proved of them beside.
pub mod Tree
pub mod Walk
pub mod Outcome
pub mod Cancellation
unfoldable pub use Tree.*
unfoldable pub use Walk.*
unfoldable pub use Outcome.*
