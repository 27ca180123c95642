-- ===== src/Hosts/Cases.antt =====
-- How each operation may change the repository: a rule for every operation, for any property of
-- repositories. What every write of the operation keeps holds after it, whether it succeeds or
-- fails.
use yuex.Prelude.{
  ℕ, ◌≡◌, Bool, true, false, none, some, inl, inr, arith, List, ◌∷◌, lookup, insert, Option-cases,
  List-cases, lookup-insert, ◌||◌, if◌then◌else◌, is_zero,
}
use yuex.Hosts.Types.{
  RuntimeHost, Reservation, Dispatch, Repository, Fence, ReserveCommand, AcceptedCommand,
  RecoveryClaim, TerminalCommand, RecoveryAcceptedCommand, ReservationState, DispatchState,
  AbortStatus, HostStatus, active_reservation_state, is_reserved, active_dispatch_state,
  terminal_dispatch_state,
}
use yuex.Hosts.Reserve.{
  with_slot, try_reserve_slot, try_reserve_slot_memory, reserve_first, candidates, run_has_slot,
  validate_reserve_command,
}
use yuex.Hosts.Lease.{
  renew_reservation, mark_dispatch_lease_lost, release_reservation_fenced, expire_one, expire_slot,
  lease_lost, extend_lease, extend_dispatch, end_slot, ended_state,
}
use yuex.Hosts.Dispatches.{
  crossed, identified, started, abort_noted, finished, normal_terminal, state_eq, run_is_dispatched,
  create_dispatch, mark_dispatch_boundary, mark_dispatch_abort_status, mark_dispatch_terminal,
  before_accept,
}
use yuex.Hosts.Accept.{
  probe_scheduled, accepted_dispatch, confirm_dispatch_accepted, validate_confirm, apply_confirm,
  schedule_probe, accept_slot,
}
use yuex.Hosts.Recovery.{
  resumed, closed, accept_if_reserved, end_if_active, claimed, advanced, holds_claim,
  claim_dispatch_recovery, advance_dispatch_recovery, recover_dispatch_accepted,
  finalize_dispatch_and_release_slot, close_dispatch,
}
use yuex.Hosts.Registry.{
  HostIdentity, Registration, Heartbeat, register_host, heartbeat_host, set_host_status, fresh_host,
  rejoin_host, beat, status_set,
}

-- The repository with one dispatch written.
abbrev pub with_dispatch : ℕ → Dispatch → Repository → Repository
with_dispatch k d r = record r { dispatches = insert k d r.dispatches }

-- The repository with one host written.
abbrev pub with_host : ℕ → RuntimeHost → Repository → Repository
with_host k host r = record r { hosts = insert k host r.hosts }

-- The repository with one reservation written.
abbrev pub with_item : ℕ → Reservation → Repository → Repository
with_item k item r = record r { reservations = insert k item r.reservations }

module _ {ℓ} (P : Repository → Type ℓ) (r : Repository) (same : P r) where
  pub mark_dispatch_boundary_cases :
      (from : DispatchState → Bool) (to : DispatchState) (id : ℕ) (f : Fence) (next_check now : ℕ)
      → ((d : Dispatch)
          → lookup id r.dispatches ≡ some d
          → from d.state ≡ true
          → P (with_dispatch id (crossed to next_check now d) r))
      → P (mark_dispatch_boundary from to id f next_check now r).0
  unfolding mark_dispatch_boundary
  mark_dispatch_boundary_cases from to id f next_check now writes =
      elim (Option-cases (lookup id r.dispatches)) [
        | inl e ↦ ground arith
        | inr (d, e) ↦ ground (arith, writes d e)
      ]

  pub mark_dispatch_lease_lost_cases :
      (id : ℕ) (f : Fence) (next_check now : ℕ)
      → ((d : Dispatch) (check : ℕ)
          → lookup id r.dispatches ≡ some d
          → active_dispatch_state d.state ≡ true
          → P (with_dispatch id (lease_lost check now d) r))
      → P (mark_dispatch_lease_lost id f next_check now r).0
  unfolding mark_dispatch_lease_lost
  mark_dispatch_lease_lost_cases id f next_check now writes =
      elim (Option-cases (lookup id r.dispatches)) [
        | inl e ↦ ground arith
        | inr (d, e) ↦ ground (arith, writes d (if is_zero next_check then now else next_check) e)
      ]

  pub mark_dispatch_abort_status_cases :
      (id host fencing : ℕ) (status : AbortStatus) (now : ℕ)
      → ((d : Dispatch)
          → lookup id r.dispatches ≡ some d
          → active_dispatch_state d.state ≡ true
          → P (with_dispatch id (abort_noted status now d) r))
      → P (mark_dispatch_abort_status id host fencing status now r).0
  unfolding mark_dispatch_abort_status
  mark_dispatch_abort_status_cases id host fencing status now writes =
      elim (Option-cases (lookup id r.dispatches)) [
        | inl e ↦ ground arith
        | inr (d, e) ↦ ground (arith, writes d e)
      ]

  pub mark_dispatch_terminal_cases :
      (id host fencing : ℕ) (status : DispatchState) (now : ℕ)
      → ((d : Dispatch)
          → lookup id r.dispatches ≡ some d
          → terminal_dispatch_state (normal_terminal status) ≡ true
          → (active_dispatch_state d.state || state_eq d.state (normal_terminal status)) ≡ true
          → P (with_dispatch id (finished (normal_terminal status) now d) r))
      → P (mark_dispatch_terminal id host fencing status now r).0
  unfolding mark_dispatch_terminal
  mark_dispatch_terminal_cases id host fencing status now writes =
      elim (Option-cases (lookup id r.dispatches)) [
        | inl e ↦ ground arith
        | inr (d, e) ↦ ground (arith, writes d e)
      ]

  pub create_dispatch_cases :
      (hash : Reservation → Dispatch → ℕ) (d : Dispatch) (now : ℕ)
      → ((item : Reservation)
          → lookup d.reservation_id r.reservations ≡ some item
          → run_is_dispatched d.run_id r ≡ false
          → P (with_dispatch d.dispatch_id (identified hash item (started now d)) r))
      → P (create_dispatch hash d now r).0
  unfolding create_dispatch identified started
  create_dispatch_cases hash d now writes =
      elim (Option-cases (lookup d.reservation_id r.reservations)) [
        | inl e ↦ ground arith
        | inr (item, e) ↦ ground (arith, writes item e)
      ]

  pub claim_dispatch_recovery_cases :
      (c : RecoveryClaim) (now : ℕ)
      → ((d : Dispatch)
          → lookup c.dispatch_id r.dispatches ≡ some d
          → active_dispatch_state d.state ≡ true
          → P (with_dispatch d.dispatch_id (claimed c now d) r))
      → P (claim_dispatch_recovery c now r).0
  unfolding claim_dispatch_recovery
  claim_dispatch_recovery_cases c now writes =
      elim (Option-cases (lookup c.dispatch_id r.dispatches)) [
        | inl e ↦ ground arith
        | inr (d, e) ↦ ground (arith, writes d e)
      ]

  pub advance_dispatch_recovery_cases :
      (c : RecoveryClaim) (to : DispatchState) (next_check now : ℕ)
      → ((d : Dispatch)
          → lookup c.dispatch_id r.dispatches ≡ some d
          → holds_claim d c now ≡ true
          → P (with_dispatch d.dispatch_id (advanced to next_check now d) r))
      → P (advance_dispatch_recovery c to next_check now r).0
  unfolding advance_dispatch_recovery
  advance_dispatch_recovery_cases c to next_check now writes =
      elim (Option-cases (lookup c.dispatch_id r.dispatches)) [
        | inl e ↦ ground arith
        | inr (d, e) ↦ ground (arith, writes d e)
      ]

  pub renew_reservation_cases :
      (f : Fence) (expires_at now : ℕ)
      → ((item : Reservation)
          → lookup f.reservation_id r.reservations ≡ some item
          → P (with_item item.reservation_id (extend_lease expires_at now item) r))
      → ((item : Reservation) (d : Dispatch)
          → lookup f.reservation_id r.reservations ≡ some item
          → lookup item.dispatch_id r.dispatches ≡ some d
          → P (
              with_dispatch d.dispatch_id
                (extend_dispatch expires_at now d)
                (with_item item.reservation_id (extend_lease expires_at now item) r)))
      → P (renew_reservation f expires_at now r).0
  unfolding renew_reservation
  renew_reservation_cases f expires_at now unbound bound =
      elim (Option-cases (lookup f.reservation_id r.reservations)) [
        | inl e ↦ ground arith
        | inr (item, e) ↦ elim (Option-cases (lookup item.dispatch_id r.dispatches)) [
          | inl n ↦ ground (arith, unbound item e)
          | inr (d, s) ↦ ground (arith, unbound item e, bound item d e s)
        ]
      ]

  pub release_reservation_fenced_cases :
      (f : Fence) (reason : ℕ) (final : ReservationState) (now : ℕ)
      → ((item : Reservation)
          → lookup f.reservation_id r.reservations ≡ some item
          → active_reservation_state item.state ≡ true
          → ended_state final ≡ true
          → P (end_slot final now item r))
      → P (release_reservation_fenced f reason final now r).0
  unfolding release_reservation_fenced
  release_reservation_fenced_cases f reason final now ends =
      elim (Option-cases (lookup f.reservation_id r.reservations)) [
        | inl e ↦ ground arith
        | inr (item, e) ↦ ground (arith, ends item e)
      ]

  pub expire_one_cases :
      (now id : ℕ)
      → ((item : Reservation)
          → lookup id r.reservations ≡ some item
          → is_reserved item.state ≡ true
          → P (expire_slot now id item r))
      → P (expire_one now id r).0
  unfolding expire_one
  expire_one_cases now id ends = elim (Option-cases (lookup id r.reservations)) [
    | inl e ↦ ground arith
    | inr (item, e) ↦ ground (arith, ends item e)
  ]

  pub confirm_dispatch_accepted_cases :
      (c : AcceptedCommand) (now : ℕ)
      → ((d : Dispatch)
          → lookup c.dispatch_id r.dispatches ≡ some d
          → d.dispatch_id ≡ c.dispatch_id)
      → ((d : Dispatch)
          → lookup c.dispatch_id r.dispatches ≡ some d
          → d.state ≡ DispatchState.accepted
          → P (with_dispatch d.dispatch_id (probe_scheduled now d) r))
      → ((item : Reservation) (d : Dispatch)
          → lookup c.fence.reservation_id r.reservations ≡ some item
          → lookup c.dispatch_id r.dispatches ≡ some d
          → is_reserved item.state ≡ true
          → before_accept d.state ≡ true
          → P (
              with_dispatch d.dispatch_id
                (accepted_dispatch c.runtime_request_id now d)
                (accept_slot c.dispatch_id now item r)))
      → P (confirm_dispatch_accepted c now r).0
  unfolding confirm_dispatch_accepted validate_confirm apply_confirm schedule_probe probe_scheduled
      accept_slot
  confirm_dispatch_accepted_cases c now key probes accepts =
      elim (Option-cases (lookup c.fence.reservation_id r.reservations)) [
        | inl n ↦ ground arith
        | inr (item, e) ↦ elim (Option-cases (lookup c.dispatch_id r.dispatches)) [
          | inl n ↦ ground arith
          | inr (d, s) ↦ ground (
            arith,
            key d s,
            probes d s,
            accepts item d e s,
            lookup-insert d.dispatch_id c.dispatch_id (probe_scheduled now d) r.dispatches,
          )
        ]
      ]

  pub recover_dispatch_accepted_cases :
      (c : RecoveryAcceptedCommand) (now : ℕ)
      → ((item : Reservation) (d : Dispatch)
          → lookup c.fence.reservation_id r.reservations ≡ some item
          → lookup c.claim.dispatch_id r.dispatches ≡ some d
          → d.state ≡ DispatchState.recovering
          → P (with_dispatch d.dispatch_id (resumed c now d) r))
      → ((item : Reservation) (d : Dispatch)
          → lookup c.fence.reservation_id r.reservations ≡ some item
          → lookup c.claim.dispatch_id r.dispatches ≡ some d
          → d.state ≡ DispatchState.recovering
          → is_reserved item.state ≡ true
          → P (
              with_dispatch d.dispatch_id (resumed c now d) (accept_slot d.dispatch_id now item r)))
      → P (recover_dispatch_accepted c now r).0
  unfolding recover_dispatch_accepted accept_if_reserved accept_slot
  recover_dispatch_accepted_cases c now resumes accepts =
      elim (Option-cases (lookup c.fence.reservation_id r.reservations)) [
        | inl n ↦ elim (Option-cases (lookup c.claim.dispatch_id r.dispatches)) [
          | inl m ↦ ground arith
          | inr (d, s) ↦ ground arith
        ]
        | inr (item, e) ↦ elim (Option-cases (lookup c.claim.dispatch_id r.dispatches)) [
          | inl n ↦ ground arith
          | inr (d, s) ↦ ground (arith, resumes item d e s, accepts item d e s)
        ]
      ]

  pub finalize_dispatch_and_release_slot_cases :
      (c : TerminalCommand) (now : ℕ)
      → ((d : Dispatch)
          → lookup c.dispatch_id r.dispatches ≡ some d
          → terminal_dispatch_state d.state ≡ false
          → P (with_dispatch d.dispatch_id (closed c.terminal_status now d) r))
      → ((item : Reservation)
          → lookup c.fence.reservation_id r.reservations ≡ some item
          → active_reservation_state item.state ≡ true
          → P (end_slot ReservationState.released now item r))
      → ((item : Reservation) (d : Dispatch)
          → lookup c.fence.reservation_id r.reservations ≡ some item
          → lookup c.dispatch_id r.dispatches ≡ some d
          → terminal_dispatch_state d.state ≡ false
          → active_reservation_state item.state ≡ true
          → P (
              with_dispatch d.dispatch_id
                (closed c.terminal_status now d)
                (end_slot ReservationState.released now item r)))
      → P (finalize_dispatch_and_release_slot c now r).0
  unfolding finalize_dispatch_and_release_slot close_dispatch end_if_active end_slot
  finalize_dispatch_and_release_slot_cases c now closes ends both =
      elim (Option-cases (lookup c.fence.reservation_id r.reservations)) [
        | inl n ↦ elim (Option-cases (lookup c.dispatch_id r.dispatches)) [
          | inl m ↦ ground arith
          | inr (d, s) ↦ ground arith
        ]
        | inr (item, e) ↦ elim (Option-cases (lookup c.dispatch_id r.dispatches)) [
          | inl n ↦ ground arith
          | inr (d, s) ↦ ground (arith, closes d s, ends item e, both item d e s)
        ]
      ]

  pub try_reserve_slot_cases :
      (c : ReserveCommand) (now : ℕ)
      → ((host : RuntimeHost) (rest : List RuntimeHost)
          → candidates c r.hosts ≡ host ∷ rest
          → validate_reserve_command c ≡ none
          → run_has_slot c.run_id r.active_reservation_by_run ≡ false
          → P (with_slot c now host r))
      → P (try_reserve_slot c now r).0
  unfolding try_reserve_slot try_reserve_slot_memory reserve_first
  try_reserve_slot_cases c now takes = elim (List-cases (candidates c r.hosts)) [
    | inl e ↦ elim (Option-cases (validate_reserve_command c)) [
      | inl v ↦ ground arith
      | inr (x, v) ↦ ground arith
    ]
    | inr (host, rest, e) ↦ elim (Option-cases (validate_reserve_command c)) [
      | inl v ↦ ground (arith, takes host rest e v)
      | inr (x, v) ↦ ground arith
    ]
  ]

  pub register_host_cases :
      (i : HostIdentity) (c : Registration) (now : ℕ)
      → (lookup i.runtime_host_id r.hosts ≡ none
          → P (with_host i.runtime_host_id (fresh_host i c now) r))
      → ((host : RuntimeHost)
          → lookup i.runtime_host_id r.hosts ≡ some host
          → P (with_host i.runtime_host_id (rejoin_host i host (fresh_host i c now)) r))
      → P (register_host i c now r).0
  unfolding register_host fresh_host
  register_host_cases i c now joins rejoins =
      elim (Option-cases (lookup i.runtime_host_id r.hosts)) [
        | inl e ↦ ground (arith, joins e)
        | inr (host, e) ↦ ground (arith, rejoins host e)
      ]

  pub heartbeat_host_cases :
      (i : HostIdentity) (b : Heartbeat) (now : ℕ)
      → ((host : RuntimeHost)
          → lookup i.runtime_host_id r.hosts ≡ some host
          → P (with_host host.runtime_host_id (beat b now host) r))
      → P (heartbeat_host i b now r).0
  unfolding heartbeat_host
  heartbeat_host_cases i b now beats = elim (Option-cases (lookup i.runtime_host_id r.hosts)) [
    | inl e ↦ ground arith
    | inr (host, e) ↦ ground (arith, beats host e)
  ]

  pub set_host_status_cases :
      (id : ℕ) (status : HostStatus) (deadline now : ℕ)
      → ((host : RuntimeHost)
          → lookup id r.hosts ≡ some host
          → P (with_host id (status_set status deadline now host) r))
      → P (set_host_status id status deadline now r).0
  unfolding set_host_status
  set_host_status_cases id status deadline now sets = elim (Option-cases (lookup id r.hosts)) [
    | inl e ↦ ground arith
    | inr (host, e) ↦ ground (arith, sets host e)
  ]
