-- ===== src/Store.antt =====
-- model.go and open.go: the in-memory certificate store, its operations and its invariants.
-- `Types` has the data, `Library` what the code calls outside the repository, `Operations` and
-- `Chain` the code; the other modules are proofs.
pub mod Library
pub mod Types
pub mod Chain
pub mod Keyed
pub mod Operations
pub mod Reconcile
pub mod Walk
pub mod Linked
pub mod Valid
pub mod Additions
pub mod Removals
pub mod Owners
pub mod Merge
pub mod Pairs
pub mod Given
pub mod Sessions
pub mod Tests
mod MergeTests
