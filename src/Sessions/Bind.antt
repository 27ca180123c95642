-- ===== src/Sessions/Bind.antt =====
-- BindReservation, BindDispatch, ActiveHandleByRunID, ReleasedOrExpiredByRunID and
-- ReleaseTerminalLease of runtime_session_admission.go.
use yuex.Prelude.{
  ℕ, ◌+◌, Bool, not, ◌&&◌, ◌||◌, Option, none, some, List, [], ◌∷◌, lookup, delete, values, ◌==◌,
  is_zero, if◌then◌else◌, ErrorCode, Result, Done, ok, err, invalid_argument, not_found,
  stale_fencing_token, runtime_session_admission_unavailable,
}
use yuex.Sessions.Types.{
  Admission, AdmissionState, AdmissionLease, Sessions, admission_ended, admission_matches,
  lease_is_complete,
}
use yuex.Sessions.Admit.{assert_active, with_admission}

-- The names that an admission is bound to, and the new state.
pub data Binding : Type 0 where
  to_reservation to_dispatch : ℕ → Binding

abbrev pub bound_name : Binding → ℕ
bound_name (Binding.to_reservation id) = id
bound_name (Binding.to_dispatch id) = id

-- The bound name is free, or the same one; a dispatch comes after a reservation.
unfoldable pub may_bind : Binding → Admission → Bool
may_bind (Binding.to_reservation id) a = is_zero a.reservation_id || a.reservation_id == id
may_bind (Binding.to_dispatch id) a =
    not (is_zero a.reservation_id) && (is_zero a.dispatch_id || a.dispatch_id == id)

unfoldable pub bound : Binding → ℕ → Admission → Admission
bound (Binding.to_reservation id) now a = record a {
  reservation_id = id;
  state = AdmissionState.reservation_bound;
  updated_at = now;
  version = a.version + 1;
}
bound (Binding.to_dispatch id) now a = record a {
  dispatch_id = id;
  state = AdmissionState.dispatch_bound;
  updated_at = now;
  version = a.version + 1;
}

-- The part of bind under the mutex, after AssertActive.
unfoldable pub bind_stored : AdmissionLease → Binding → ℕ → Sessions → Sessions × Done
unfolding may_bind bound
bind_stored h b now s = elim (lookup h.admission.admission_id s.items) [
  | none ↦ (s, err stale_fencing_token)
  | some current ↦
      if admission_matches current h.admission && may_bind b current
      then (with_admission current.admission_id (bound b now current) s, ok tt)
      else (s, err stale_fencing_token)
]

-- bind. The mutex is free between the assertion and the write, each with its own time: `between` is
-- what other calls do there.
unfoldable pub bind :
    AdmissionLease → Binding → Done → (Sessions → Sessions) → ℕ → ℕ → Sessions → Sessions × Done
unfolding bind_stored
bind h b lock between now later s =
    if is_zero (bound_name b)
    then (s, err invalid_argument)
    else elim (assert_active h lock now s) [
      | err e ↦ (s, err e)
      | ok done ↦ bind_stored h b later (between s)
    ]

-- BindReservation
abbrev pub bind_reservation :
    AdmissionLease → ℕ → Done → (Sessions → Sessions) → ℕ → ℕ → Sessions → Sessions × Done
bind_reservation h id = bind h (Binding.to_reservation id)

-- BindDispatch
abbrev pub bind_dispatch :
    AdmissionLease → ℕ → Done → (Sessions → Sessions) → ℕ → ℕ → Sessions → Sessions × Done
bind_dispatch h id = bind h (Binding.to_dispatch id)

-- The first handle of a run.
unfoldable pub handle_of_run : ℕ → List AdmissionLease → Option AdmissionLease
handle_of_run run [] = none
handle_of_run run (h ∷ more) =
    let rest = handle_of_run run more in if h.admission.run_id == run then some h else rest

-- ActiveHandleByRunID
unfoldable pub active_handle_by_run :
    ℕ → (AdmissionLease → Done) → ℕ → Sessions → Result AdmissionLease
unfolding handle_of_run
active_handle_by_run run lock now s =
    if is_zero run then err invalid_argument else elim (handle_of_run run (values s.handles)) [
      | none ↦ err runtime_session_admission_unavailable
      | some h ↦
          if is_zero h.admission.admission_id
          then err runtime_session_admission_unavailable
          else elim (assert_active h (lock h) now s) [ err e ↦ err e | ok done ↦ ok h ]
    ]

-- The first admission of a run.
unfoldable pub admission_of_run : ℕ → List Admission → Option Admission
admission_of_run run [] = none
admission_of_run run (a ∷ more) =
    let rest = admission_of_run run more in if a.run_id == run then some a else rest

-- ReleasedOrExpiredByRunID
unfoldable pub released_or_expired_by_run : ℕ → Sessions → Result Bool
unfolding admission_of_run
released_or_expired_by_run run s =
    if is_zero run then err invalid_argument else elim (admission_of_run run (values s.items)) [
      | none ↦ err not_found
      | some a ↦ ok (admission_ended a.state)
    ]

-- What ReleaseTerminalLease makes of the lock manager's answer.
abbrev pub release_failure : Done → Option ErrorCode
release_failure (ok done) = none
release_failure (err ErrorCode.stale_fencing_token) = none
release_failure (err e) = some e

-- ReleaseTerminalLease
unfoldable pub release_terminal_lease : AdmissionLease → Done → Sessions → Sessions × Done
release_terminal_lease h lock s =
    if not (lease_is_complete h) then (s, err invalid_argument) else elim (release_failure lock) [
      | some e ↦ (s, err e)
      | none ↦ (record s { handles = delete h.admission.admission_id s.handles }, ok tt)
    ]
