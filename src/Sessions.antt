-- ===== src/Sessions.antt =====
-- RuntimeSessionAdmissionService: one admission at a time for each product session, as in the
-- in-memory branches of runtime_session_admission.go.
pub mod Keys
pub mod Types
pub mod Admit
pub mod Bind
pub mod Release
pub mod Cleanup
pub mod Drain
pub mod System
pub mod History
pub mod Bounds
pub mod Sweep
