-- ===== src/Scheduler/Handles.antt =====
-- Renew, BindDispatch, Accept, ReleaseBeforeAccept and ReleaseAfterTerminal of runtime_scheduler.go:
-- one handle over the host repository, the capacity admission and the session admission. The answers of
-- the distributed lock manager are arguments.
pub mod Gates
pub mod Releases
use yuex.Prelude.{
  ℕ, Bool, true, false, not, ◌&&◌, ◌||◌, Option, none, some, List, [], ◌∷◌, Map, is_zero,
  if◌then◌else◌, ErrorCode, Result, Done, ok, err, invalid_argument,
}
use yuex.Hosts.Types.{Reservation, Repository, RuntimeHost, Fence, AcceptedCommand, HostStatus}
use yuex.Hosts.Lease.{renew_reservation, release_reservation}
use yuex.Hosts.Registry.{set_host_status}
use yuex.Capacity.{CapacityReservation}
use yuex.Capacity
use yuex.Sessions.Types.{
  AdmissionLease, DistributedLease, ReleaseReason, Sessions, valid_release_reason,
}
use yuex.Sessions.Admit
use yuex.Sessions.Bind
use yuex.Sessions.Drain.{Round, release_and_drain}
use yuex.Scheduler.{Books, accept_memory, map_schedule_code, map_schedule_error}

-- The state of the three services.
pub record Plane : Type 0 where
  pub hosts : Repository
  pub capacity : Map CapacityReservation
  pub sessions : Sessions

-- RuntimeReservationLease
pub record ReservationLease : Type 0 where
  pub reservation : Reservation
  pub host : RuntimeHost
  pub lease : DistributedLease
  pub session_admission : Option AdmissionLease
  pub capacity : CapacityReservation

-- RuntimeReservationLease.Fence
abbrev pub fence_of_handle : ReservationLease → Fence
fence_of_handle h = record {
  reservation_id = h.reservation.reservation_id;
  runtime_host_id = h.reservation.runtime_host_id;
  owner_instance_id = h.reservation.owner_instance_id;
  lease_token_hash = h.reservation.lease_token_hash;
  fencing_token = h.reservation.fencing_token;
}

-- Go's early return: the second result counts where the first call succeeded.
abbrev pub and_done : Done → Done → Done
and_done (err e) next = err e
and_done (ok done) next = next

-- The session's part of a check, for a handle that has a session.
abbrev pub for_session : Option AdmissionLease → (AdmissionLease → Done) → Done
for_session none check = ok tt
for_session (some session) check = check session

-- assertActive: the answers are the lock manager's for the run and for the session.
unfoldable pub assert_handle : ReservationLease → Done → Done → ℕ → Plane → Done
assert_handle h run_lock session_lock now p = and_done (map_schedule_error run_lock) (
    and_done (Capacity.assert_active h.capacity now p.capacity) (
      for_session h.session_admission
        (λ session. map_schedule_error (Admit.assert_active session session_lock now p.sessions))))

unfoldable pub bind_session :
    Option AdmissionLease → ℕ → Done → (Sessions → Sessions) → ℕ → ℕ → Plane → Plane × Done
bind_session none dispatch lock between now later p = (p, ok tt)
bind_session (some session) dispatch lock between now later p =
    let (sessions, done) = Bind.bind_dispatch session dispatch lock between now later p.sessions in
    (record p { sessions = sessions }, done)

-- BindDispatch. The session's lock is asked twice, and other calls may come between the session's
-- assertion and its write.
unfoldable pub bind_dispatch :
    ReservationLease → ℕ → Done → Done → Done → (Sessions → Sessions) → ℕ → ℕ → Plane → Plane × Done
unfolding assert_handle bind_session
bind_dispatch h dispatch run_lock session_lock again between now later p =
    elim (assert_handle h run_lock session_lock now p) [
      | err e ↦ (p, err e)
      | ok done ↦ bind_session h.session_admission dispatch again between now later p
    ]

unfoldable pub accept_asserted : ReservationLease → ℕ → ℕ → ℕ → Plane → Plane × Done
accept_asserted h dispatch request now p =
    let command : AcceptedCommand = record {
      fence = fence_of_handle h;
      dispatch_id = dispatch;
      runtime_request_id = request;
    } in
    let (books, done) =
      accept_memory h.capacity command now (record { capacity = p.capacity; hosts = p.hosts }) in
    (record p { capacity = books.capacity; hosts = books.hosts }, done)

-- Accept
unfoldable pub accept : ReservationLease → ℕ → ℕ → Done → Done → ℕ → Plane → Plane × Done
unfolding assert_handle accept_asserted
accept h dispatch request run_lock session_lock now p =
    elim (assert_handle h run_lock session_lock now p) [
      | err e ↦ (p, err e)
      | ok done ↦ accept_asserted h dispatch request now p
    ]

-- The session's part of Renew.
unfoldable pub renew_session :
    ReservationLease → ℕ → Result DistributedLease → ℕ → Plane → Plane × Result ReservationLease
renew_session h ttl lock now p = elim h.session_admission [
  | none ↦ (p, ok h)
  | some session ↦
      let (sessions, renewed) = Admit.renew session ttl lock now p.sessions in
      let p' : Plane = record p { sessions = sessions } in
      elim renewed [
        | err e ↦ (p', err (map_schedule_code e))
        | ok session' ↦ (p', ok (record h { session_admission = some session' }))
      ]
]

-- The hosts' part of Renew, once the run's lock is renewed.
unfoldable pub renew_slot :
    ReservationLease
    → ℕ
    → DistributedLease
    → Result DistributedLease
    → ℕ
    → Plane
    → Plane × Result ReservationLease
unfolding renew_session
renew_slot h ttl lease session_lock now p =
    let (hosts, done) = renew_reservation (fence_of_handle h) lease.expires_at now p.hosts in
    let item : Reservation = record (h.reservation) { expires_at = lease.expires_at } in
    let p' : Plane = record p { hosts = hosts } in
    elim done [
      | err e ↦ (p', err (map_schedule_code e))
      | ok u ↦
          renew_session (record h { lease = lease; reservation = item }) ttl session_lock now p'
    ]

-- Renew
unfoldable pub renew :
    ReservationLease
    → ℕ
    → Result DistributedLease
    → Result DistributedLease
    → ℕ
    → Plane
    → Plane × Result ReservationLease
unfolding renew_slot
renew h ttl run_lock session_lock now p =
    if is_zero ttl || is_zero h.reservation.reservation_id
    then (p, err invalid_argument)
    else elim (Capacity.assert_active h.capacity now p.capacity) [
      | err e ↦ (p, err e)
      | ok done ↦ elim run_lock [
        | err e ↦ (p, err (map_schedule_code e))
        | ok lease ↦ renew_slot h ttl lease session_lock now p
      ]
    ]

-- The first error of a sequence of releases, where a lost fence is none.
abbrev pub fence_lost_is_fine : Done → Done
fence_lost_is_fine (ok done) = ok tt
fence_lost_is_fine (err ErrorCode.stale_fencing_token) = ok tt
fence_lost_is_fine (err e) = err e

abbrev pub as_done : Result Bool → Done
as_done (ok changed) = ok tt
as_done (err e) = err e

-- normalizeAdmissionReleaseReason, on the words that are reasons
abbrev pub normal_reason : ReleaseReason → ReleaseReason
normal_reason reason = if valid_release_reason reason then reason else ReleaseReason.dispatch_failed

-- Sessions.Release with its drain, where the handle has a session.
unfoldable pub release_session :
    Option AdmissionLease → ReleaseReason → ℕ → (ℕ → ℕ) → (ℕ → Round) → Sessions → Sessions × Done
release_session none reason now worker rounds s = (s, ok tt)
release_session (some session) reason now worker rounds s =
    let (s', changed, done) = release_and_drain session reason now worker rounds s in (s', done)

-- ReleaseBeforeAccept, behind the stop of the lease supervisor. Every part is released, whatever the
-- others answer; the hosts log the reason under a number.
unfoldable pub release_before_accept :
    ReservationLease → ReleaseReason → ℕ → Done → (ℕ → ℕ) → (ℕ → Round) → ℕ → Plane → Plane × Done
unfolding release_session
release_before_accept h reason text run_lock worker rounds now p =
    let (hosts, freed) = release_reservation (fence_of_handle h) text now p.hosts in
    let (sessions, left) =
      release_session h.session_admission (normal_reason reason) now worker rounds p.sessions in
    let (capacity, given) = Capacity.release h.capacity now p.capacity in
    if is_zero h.reservation.reservation_id then (p, err invalid_argument) else (
      record { hosts = hosts; capacity = capacity; sessions = sessions },
      and_done (fence_lost_is_fine (as_done freed)) (
          and_done (fence_lost_is_fine left)
            (and_done (as_done given) (fence_lost_is_fine run_lock))),
    )

-- ReleaseAfterTerminal
unfoldable pub release_after_terminal :
    ReservationLease → Done → (ℕ → ℕ) → (ℕ → Round) → ℕ → Plane → Plane × Done
unfolding release_session
release_after_terminal h run_lock worker rounds now p =
    let (sessions, left) =
      release_session h.session_admission ReleaseReason.recovered now worker rounds p.sessions in
    if is_zero h.reservation.reservation_id then (p, err invalid_argument) else (
      record p { sessions = sessions },
      and_done (fence_lost_is_fine left) (fence_lost_is_fine run_lock),
    )

-- DrainHost
abbrev pub drain_host : ℕ → ℕ → ℕ → Plane → Plane × Done
drain_host id deadline now p =
    let (hosts, done) = set_host_status id HostStatus.draining deadline now p.hosts in
    (record p { hosts = hosts }, done)
