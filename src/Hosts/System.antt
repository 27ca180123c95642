-- ===== src/Hosts/System.antt =====
-- The repository as a system: one step for each operation of runtime_host_repository.go,
-- runtime_host_concurrency.go and runtime_host_reconcile.go that writes, under the repository's
-- mutex, and what holds in every repository that steps reach.
pub mod Keeps
pub mod Invariants
use yuex.Prelude.{ℕ, ◌≡◌, none, Bool, lookup}
use yuex.Hosts.Types.{
  Reservation, Dispatch, Repository, Fence, ReserveCommand, AcceptedCommand, RecoveryClaim,
  TerminalCommand, RecoveryAcceptedCommand, ReservationState, DispatchState, AbortStatus,
  HostStatus, new_repository,
}
use yuex.Hosts.Reserve.{try_reserve_slot}
use yuex.Hosts.Lease.{
  renew_reservation, mark_dispatch_lease_lost, release_reservation_fenced, expire_reservations,
}
use yuex.Hosts.Dispatches.{
  create_dispatch, mark_dispatch_sent, mark_dispatch_submit_unknown, mark_dispatch_abort_status,
  mark_dispatch_terminal,
}
use yuex.Hosts.Accept.{confirm_dispatch_accepted}
use yuex.Hosts.Recovery.{
  claim_dispatch_recovery, advance_dispatch_recovery, recover_dispatch_accepted,
  finalize_dispatch_and_release_slot,
}
use yuex.Hosts.Registry.{
  HostIdentity, Registration, Heartbeat, register_host, heartbeat_host, set_host_status,
  recalculate_host_counters, reconcile_host_health,
}

-- Every call but one holds the mutex from its first read to its last write, so calls do not overlap.
-- ReconcileHostHealth takes it three times, for the hosts, the expiry and the recount, and is one step
-- here; the expiry and the recount are steps of their own too. The
-- times are whatever the clock says. Reservations and dispatches are made under
-- new identifiers (UUIDs).
pub data Step (hash : Reservation → Dispatch → ℕ) : Repository → Repository → Type 0 where
  register :
      {r : Repository} (i : HostIdentity) (c : Registration) (now : ℕ)
      → Step hash r (register_host i c now r).0
  heartbeat :
      {r : Repository} (i : HostIdentity) (b : Heartbeat) (now : ℕ)
      → Step hash r (heartbeat_host i b now r).0
  set_status :
      {r : Repository} (id : ℕ) (status : HostStatus) (deadline now : ℕ)
      → Step hash r (set_host_status id status deadline now r).0
  recalculate : {r : Repository} → Step hash r (recalculate_host_counters r)
  reconcile :
      {r : Repository} (now unhealthy_after offline_after : ℕ)
      → Step hash r (reconcile_host_health now unhealthy_after offline_after r)
  reserve :
      {r : Repository} (c : ReserveCommand) (now : ℕ)
      → lookup c.reservation_id r.reservations ≡ none
      → Step hash r (try_reserve_slot c now r).0
  renew :
      {r : Repository} (f : Fence) (expires_at now : ℕ)
      → Step hash r (renew_reservation f expires_at now r).0
  release :
      {r : Repository} (f : Fence) (reason : ℕ) (final : ReservationState) (now : ℕ)
      → Step hash r (release_reservation_fenced f reason final now r).0
  expire : {r : Repository} (now : ℕ) → Step hash r (expire_reservations now r).0
  create :
      {r : Repository} (d : Dispatch) (now : ℕ)
      → lookup d.dispatch_id r.dispatches ≡ none
      → Step hash r (create_dispatch hash d now r).0
  send :
      {r : Repository} (id : ℕ) (f : Fence) (now : ℕ)
      → Step hash r (mark_dispatch_sent id f now r).0
  doubt :
      {r : Repository} (id : ℕ) (f : Fence) (next_check now : ℕ)
      → Step hash r (mark_dispatch_submit_unknown id f next_check now r).0
  confirm :
      {r : Repository} (c : AcceptedCommand) (now : ℕ)
      → Step hash r (confirm_dispatch_accepted c now r).0
  lose :
      {r : Repository} (id : ℕ) (f : Fence) (next_check now : ℕ)
      → Step hash r (mark_dispatch_lease_lost id f next_check now r).0
  abort :
      {r : Repository} (id host fencing : ℕ) (status : AbortStatus) (now : ℕ)
      → Step hash r (mark_dispatch_abort_status id host fencing status now r).0
  terminate :
      {r : Repository} (id host fencing : ℕ) (status : DispatchState) (now : ℕ)
      → Step hash r (mark_dispatch_terminal id host fencing status now r).0
  claim :
      {r : Repository} (c : RecoveryClaim) (now : ℕ)
      → Step hash r (claim_dispatch_recovery c now r).0
  advance :
      {r : Repository} (c : RecoveryClaim) (to : DispatchState) (next_check now : ℕ)
      → Step hash r (advance_dispatch_recovery c to next_check now r).0
  recover :
      {r : Repository} (c : RecoveryAcceptedCommand) (now : ℕ)
      → Step hash r (recover_dispatch_accepted c now r).0
  finalize :
      {r : Repository} (c : TerminalCommand) (now : ℕ)
      → Step hash r (finalize_dispatch_and_release_slot c now r).0

-- The repositories that the calls of a process reach from its start.
pub data Reach (hash : Reservation → Dispatch → ℕ) : Repository → Type 0 where
  start : Reach hash new_repository
  step : {r s : Repository} → Reach hash r → Step hash r s → Reach hash s

-- Any number of steps.
pub data Steps (hash : Reservation → Dispatch → ℕ) : Repository → Repository → Type 0 where
  none_yet : {r : Repository} → Steps hash r r
  and_then : {r s t : Repository} → Steps hash r s → Step hash s t → Steps hash r t
