-- ===== src/Scheduler/Handles/Gates.antt =====
-- What a handle of runtime_scheduler.go that has lost one of its parts can still do.
use yuex.Prelude.{ℕ, ◌≡◌, ◌≢◌, refl, ok, err, Result, Done, ErrorCode, arith}
use yuex.Capacity
use yuex.Sessions.Types.{DistributedLease, Sessions}
use yuex.Scheduler.{map_schedule_code}
use yuex.Scheduler.Handles.{Plane, ReservationLease, assert_handle, bind_dispatch, accept, renew}

-- The assertion of a handle without its capacity.
assert_handle-fails :
    (h : ReservationLease) (run_lock session_lock : Done) (now : ℕ) (p : Plane) (e : ErrorCode)
    → Capacity.assert_active h.capacity now p.capacity ≡ err e
    → (x : ErrorCode) × (assert_handle h run_lock session_lock now p ≡ err x)
unfolding assert_handle
assert_handle-fails h (err x) session_lock now p e lost = (map_schedule_code x, refl)
assert_handle-fails h (ok u) session_lock now p e lost = (e, ground (arith, lost))

-- A handle whose capacity reservation is no longer active can do nothing more: BindDispatch, Accept and
-- Renew fail, whatever the lock manager answers for its run and its session, and change none of the
-- three services.
pub lost-capacity_blocks :
    (h : ReservationLease) (dispatch request ttl now later : ℕ) (run_lock session_lock again : Done)
    (between : Sessions → Sessions) (run_renewal session_renewal : Result DistributedLease)
    (p : Plane) (e : ErrorCode)
    → Capacity.assert_active h.capacity now p.capacity ≡ err e
    → (((bind_dispatch h dispatch run_lock session_lock again between now later p).1 ≢ ok tt)
        × ((bind_dispatch h dispatch run_lock session_lock again between now later p).0 ≡ p))
      × (((accept h dispatch request run_lock session_lock now p).1 ≢ ok tt)
          × ((accept h dispatch request run_lock session_lock now p).0 ≡ p))
      × (((renewed : ReservationLease)
            → (renew h ttl run_renewal session_renewal now p).1 ≢ ok renewed)
          × ((renew h ttl run_renewal session_renewal now p).0 ≡ p))
unfolding bind_dispatch accept renew
lost-capacity_blocks h dispatch request ttl now later run_lock session_lock again between
      run_renewal session_renewal p e lost =
    let (x, fails) = assert_handle-fails h run_lock session_lock now p e lost in
    (
      (λ k. ground (arith, fails, k), ground (arith, fails)),
      (λ k. ground (arith, fails, k), ground (arith, fails)),
      (λ renewed k. ground (arith, lost, k), ground (arith, lost)),
    )
