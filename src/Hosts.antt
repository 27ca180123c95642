-- ===== src/Hosts.antt =====
-- The Runtime Host repository: hosts, slot reservations, dispatches and their recovery, as in the
-- in-memory branches of runtime_host_repository.go and runtime_host_concurrency.go.
pub mod Types
pub mod Slots
pub mod Store
pub mod Reserve
pub mod Lease
pub mod Dispatches
pub mod Accept
pub mod Recovery
pub mod Registry
pub mod Accounting
pub mod Cases
pub mod System
pub mod Lifecycle
pub mod Admission
pub mod Fencing
