-- ===== src/Prelude/Results.antt =====
-- The error codes that the control plane returns (the texts of `fmt.Errorf`), and results.
use mathlib.Core.Path.{◌≡◌, refl}
use mathlib.Core.Logic.{◌⊎◌, inl, inr}

pub data ErrorCode : Type 0 where
  invalid_argument not_found stale_fencing_token runtime_capacity_unavailable : ErrorCode
  runtime_tool_unavailable runtime_tool_budget_unsupported runtime_host_unauthorized : ErrorCode
  runtime_heartbeat_stale runtime_host_capability_mismatch runtime_event_gap : ErrorCode
  agent_plan_invalid runtime_session_busy service_busy distributed_lock_unavailable : ErrorCode
  runtime_host_counter_drift runtime_recovery_unavailable : ErrorCode
  runtime_session_admission_unavailable runtime_session_cleanup_conflict : ErrorCode
  runtime_session_cleanup_failed runtime_session_cleanup_unavailable : ErrorCode
  runtime_session_cleanup_invalid_proof runtime_run_record_unavailable : ErrorCode

pub data Result {ℓ} (A : Type ℓ) : Type ℓ where
  ok : A → Result A
  err : ErrorCode → Result A

pub Result-cases {ℓ} :
    {A : Type ℓ} (r : Result A) → ((a : A) × (r ≡ ok a)) ⊎ ((e : ErrorCode) × (r ≡ err e))
Result-cases (ok a) = inl (a, refl)
Result-cases (err e) = inr (e, refl)

pub ErrorCode-discrete : Discrete ErrorCode
ErrorCode-discrete = hlevel

-- The result of a call that returns only an error.
abbrev pub Done : Type 0
Done = Result (Unit {0})
