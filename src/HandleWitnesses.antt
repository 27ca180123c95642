-- ===== src/HandleWitnesses.antt =====
-- The properties of Scheduler/Handles at a handle of the run that SessionExamples admits.
use yuex.Prelude.{◌≡◌, ◌≢◌, refl, some, [], ok, ErrorCode, arith, lookup}
use yuex.Hosts.Types.{new_repository}
use yuex.Examples.{slot, host}
use yuex.CapacityExamples.{share}
use yuex.Capacity
use yuex.Sessions.Types.{ReleaseReason, admission_matches, lease_is_complete}
use yuex.Sessions.Admit
use yuex.SessionExamples.{
  name, admitted_one, handle_of, admission_of, lease_of, quiet, reaches_admitted_one,
}
use yuex.Scheduler.Handles.{
  Plane, ReservationLease, accept, bind_dispatch, renew, release_before_accept,
  release_after_terminal,
}
use yuex.Scheduler.Handles.Gates.{lost-capacity_blocks}
use yuex.Scheduler.Handles.Releases.{release-ends_session}

abbrev plane : Plane
plane = record { hosts = new_repository; capacity = []; sessions = admitted_one }

abbrev handle : ReservationLease
handle = record {
  reservation = slot;
  host = host;
  lease = lease_of 1;
  session_admission = some (handle_of 98 7);
  capacity = share;
}

lost-capacity_blocks_example :
    (((bind_dispatch handle 51 (ok tt) (ok tt) (ok tt) (λ s. s) 20 21 plane).1 ≢ ok tt)
      × ((bind_dispatch handle 51 (ok tt) (ok tt) (ok tt) (λ s. s) 20 21 plane).0 ≡ plane))
    × (((accept handle 51 61 (ok tt) (ok tt) 20 plane).1 ≢ ok tt)
        × ((accept handle 51 61 (ok tt) (ok tt) 20 plane).0 ≡ plane))
    × (((renewed : ReservationLease)
          → (renew handle 30 (ok (lease_of 1)) (ok (lease_of 1)) 20 plane).1 ≢ ok renewed)
        × ((renew handle 30 (ok (lease_of 1)) (ok (lease_of 1)) 20 plane).0 ≡ plane))
unfolding Capacity.assert_active lookup
lost-capacity_blocks_example =
    lost-capacity_blocks handle 51 61 30 20 21 (ok tt) (ok tt) (ok tt) (λ s. s) (ok (lease_of 1))
      (ok (lease_of 1)) plane ErrorCode.runtime_capacity_unavailable refl

release-ends_session_example :
    (Admit.assert_active
        (handle_of 98 7)
        (ok tt)
        60
        (release_before_accept handle ReleaseReason.failed 5
          (ok tt)
          (λ run. run)
          quiet
          20
          plane).0.sessions
      ≢ ok tt)
    × (Admit.assert_active
          (handle_of 98 7)
          (ok tt)
          60
          (release_after_terminal handle (ok tt) (λ run. run) quiet 20 plane).0.sessions
        ≢ ok tt)
unfolding lookup lease_is_complete admission_matches
release-ends_session_example =
    release-ends_session name handle (handle_of 98 7) ReleaseReason.failed 5 20 60 (ok tt) (ok tt)
      (λ run. run) quiet plane (admission_of 98 7) reaches_admitted_one (λ k. ground (arith, k))
      refl refl refl refl
