-- ===== src/Hosts/Lifecycle.antt =====
-- The life of a dispatch in runtime_host_concurrency.go: recovery claims, finished dispatches, and
-- repeated calls.
pub mod Claims
pub mod Closed
pub mod Repeats
pub mod Versions
