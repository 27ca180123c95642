-- ===== src/Hosts/Accept.antt =====
-- ConfirmDispatchAccepted: its validation and its application stand apart in the code, so that the
-- scheduler can put the capacity commit between them (acceptMemory).
use yuex.Prelude.{
  ℕ, ◌+◌, Bool, true, false, not, ◌&&◌, ◌||◌, Option, none, some, ltb, ◌==◌, is_zero, if◌then◌else◌,
  lookup, insert, invalid_argument, stale_fencing_token, Done, ok, err,
}
use yuex.Hosts.Types.{
  Slots, Reservation, Dispatch, Repository, AcceptedCommand, ReservationState, DispatchState,
  is_reserved, initial_dispatch_recovery_delay,
}
use yuex.Hosts.Slots.{decrement_reserved, increment_active}
use yuex.Hosts.Store.{
  fence_is_complete, reservation_fence_matches, dispatch_binding_matches, update_slots,
}
use yuex.Hosts.Dispatches.{before_accept}

abbrev pub is_accepted : ReservationState → Bool
is_accepted ReservationState.accepted = true
is_accepted _ = false

abbrev pub is_accepted_dispatch : DispatchState → Bool
is_accepted_dispatch DispatchState.accepted = true
is_accepted_dispatch _ = false

-- validateDispatchAcceptedCommand
unfoldable pub accepted_command_is_complete : AcceptedCommand → Bool
accepted_command_is_complete c =
    fence_is_complete c.fence && not (is_zero c.dispatch_id || is_zero c.runtime_request_id)

-- An accepted dispatch of an older release may have no time for its first probe: set one.
unfoldable pub probe_scheduled : ℕ → Dispatch → Dispatch
probe_scheduled now d = record d {
  next_recovery_check_at = now + initial_dispatch_recovery_delay;
  version = d.version + 1;
  updated_at = now;
}

unfoldable pub schedule_probe : ℕ → Dispatch → Repository → Repository
schedule_probe now d r =
    if is_zero d.next_recovery_check_at
    then record r { dispatches = insert d.dispatch_id (probe_scheduled now d) r.dispatches }
    else r

validate_pair :
    AcceptedCommand → ℕ → Option Reservation → Option Dispatch → Repository → Repository × Done
validate_pair c now none d r = (r, err stale_fencing_token)
validate_pair c now (some item) none r = (r, err stale_fencing_token)
validate_pair c now (some item) (some d) r =
    if not (reservation_fence_matches item c.fence && dispatch_binding_matches d c.fence)
    then (r, err stale_fencing_token)
    else if is_accepted item.state
        && item.dispatch_id == c.dispatch_id
        && is_accepted_dispatch d.state
    then (if d.runtime_request_id == c.runtime_request_id
        then (schedule_probe now d r, ok tt)
        else (r, err stale_fencing_token))
    else if is_reserved item.state && ltb now item.expires_at && before_accept d.state
    then (r, ok tt)
    else (r, err stale_fencing_token)

-- validateConfirmDispatchAcceptedMemoryLocked
unfoldable pub validate_confirm : AcceptedCommand → ℕ → Repository → Repository × Done
unfolding validate_pair
validate_confirm c now r =
    if not (accepted_command_is_complete c)
    then (r, err invalid_argument)
    else validate_pair c now (lookup c.fence.reservation_id r.reservations)
        (lookup c.dispatch_id r.dispatches) r

unfoldable pub activate : Reservation → Slots → Slots
activate item s = increment_active (decrement_reserved s item.execution_scope) item.execution_scope

unfoldable pub accepted_item : ℕ → ℕ → Reservation → Reservation
accepted_item dispatch now item = record item {
  state = ReservationState.accepted;
  dispatch_id = dispatch;
  updated_at = now;
  version = item.version + 1;
}

-- The slot of a reservation moves from the reserved to the active counters.
unfoldable pub accept_slot : ℕ → ℕ → Reservation → Repository → Repository
unfolding accepted_item
accept_slot dispatch now item r = record r {
  hosts = update_slots (activate item) item.runtime_host_id r.hosts;
  reservations = insert item.reservation_id (accepted_item dispatch now item) r.reservations;
}

unfoldable pub accepted_dispatch : ℕ → ℕ → Dispatch → Dispatch
accepted_dispatch request now d = record d {
  state = DispatchState.accepted;
  runtime_request_id = request;
  next_recovery_check_at = now + initial_dispatch_recovery_delay;
  updated_at = now;
  version = d.version + 1;
}

apply_pair : AcceptedCommand → ℕ → Option Reservation → Option Dispatch → Repository → Repository
apply_pair c now none d r = r
apply_pair c now (some item) none r = r
apply_pair c now (some item) (some d) r =
    if is_accepted item.state
    then schedule_probe now d r
    else let s = accept_slot c.dispatch_id now item r in
      record s {
        dispatches =
            insert d.dispatch_id (accepted_dispatch c.runtime_request_id now d) s.dispatches;
      }

-- applyConfirmDispatchAcceptedMemoryLocked, which runs after a validation that found both rows.
unfoldable pub apply_confirm : AcceptedCommand → ℕ → Repository → Repository
unfolding apply_pair
apply_confirm c now r =
    apply_pair c now (lookup c.fence.reservation_id r.reservations)
      (lookup c.dispatch_id r.dispatches) r

apply_if_valid : AcceptedCommand → ℕ → Repository × Done → Repository × Done
apply_if_valid c now (r, err e) = (r, err e)
apply_if_valid c now (r, ok done) = (apply_confirm c now r, ok done)

-- confirmDispatchAcceptedMemory
unfoldable pub confirm_dispatch_accepted : AcceptedCommand → ℕ → Repository → Repository × Done
unfolding apply_if_valid
confirm_dispatch_accepted c now r = apply_if_valid c now (validate_confirm c now r)
