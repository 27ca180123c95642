-- ===== src/Hosts/Dispatches.antt =====
-- The life of a dispatch before and after its acceptance: createDispatch of runtime_run_record_v1.go
-- (without a run record), bindDispatchToReservation of runtime_host_recovery.go, and
-- markDispatchBoundary, MarkDispatchAbortStatus and MarkDispatchTerminal.
use yuex.Prelude.{
  ℕ, ◌≡◌, arith, ◌+◌, Bool, true, false, not, ◌&&◌, ◌||◌, Option, none, some, ltb, ◌==◌, is_zero,
  if◌then◌else◌, lookup, insert, values, any, invalid_argument, stale_fencing_token,
  runtime_capacity_unavailable, Result, Done, ok, err,
}
use yuex.Hosts.Types.{
  Reservation, Dispatch, Repository, Fence, DispatchState, AbortStatus, active_dispatch_state,
  terminal_dispatch_state, valid_execution_scope, initial_dispatch_recovery_delay,
}
use yuex.Hosts.Store.{fence_is_complete, dispatch_owner_matches}

-- HasCapacityReservationBinding and IsLegacyCapacityUnbound
unfoldable pub has_capacity_binding : Dispatch → Bool
has_capacity_binding d =
    not (is_zero d.capacity_reservation_id) && ltb 0 d.capacity_reserved_version

unfoldable pub is_legacy_capacity_unbound : Dispatch → Bool
is_legacy_capacity_unbound d =
    is_zero d.capacity_reservation_id && is_zero d.capacity_reserved_version

unfoldable pub dispatch_is_complete : Dispatch → Bool
unfolding has_capacity_binding is_legacy_capacity_unbound
dispatch_is_complete d = not (
    is_zero d.dispatch_id
    || is_zero d.run_id
    || is_zero d.reservation_id
    || is_zero d.runtime_host_id
    || not (has_capacity_binding d) && not (is_legacy_capacity_unbound d)
    || ltb d.dispatch_attempt 1
    || ltb d.plan_version 1
    || ltb d.fencing_token 1
    || is_zero d.run_ticket_jti_hash)

-- The guard of bindDispatchToReservation.
binds_to : Dispatch → Reservation → Bool
binds_to d item =
    not (is_zero item.reservation_id)
    && d.reservation_id == item.reservation_id
    && d.run_id == item.run_id
    && d.runtime_host_id == item.runtime_host_id
    && d.fencing_token == item.fencing_token
    && d.owner_instance_id == item.owner_instance_id
    && d.lease_token_hash == item.lease_token_hash
    && not (is_zero item.assigned_instance_id)
    && ltb 0 item.assigned_instance_generation

-- The guard of canonicalRuntimeDispatchIdentity, less what `binds_to` has tested.
identity_is_complete : Dispatch → Reservation → Bool
identity_is_complete d item = not (
    is_zero item.run_id
    || is_zero item.runtime_host_id
    || ltb item.fencing_token 1
    || is_zero item.capability_hash
    || not (valid_execution_scope item.execution_scope)
    || is_zero d.dispatch_id
    || is_zero d.run_ticket_jti_hash
    || is_zero d.input_manifest_hash)

-- A run has one dispatch in flight.
unfoldable pub run_is_dispatched : ℕ → Repository → Bool
run_is_dispatched run r =
    any (λ d. d.run_id == run && active_dispatch_state d.state) (values r.dispatches)

unfoldable pub started : ℕ → Dispatch → Dispatch
started now d = record d {
  state = DispatchState.created;
  version = 1;
  created_at = now;
  updated_at = now;
}

-- `hash` is the digest of the canonical JSON text of the reservation and the dispatch.
module _ (hash : Reservation → Dispatch → ℕ) where
  unfoldable pub identified : Reservation → Dispatch → Dispatch
  identified item d =
      let bound : Dispatch = record d {
        assigned_instance_id = item.assigned_instance_id;
        assigned_instance_generation = item.assigned_instance_generation;
      } in
      record bound { dispatch_identity = hash item bound }

  bind_dispatch_to_reservation : Dispatch → Reservation → Result Dispatch
  unfolding binds_to identity_is_complete
  bind_dispatch_to_reservation d item =
      if not (binds_to d item)
      then err runtime_capacity_unavailable
      else if not (identity_is_complete d item)
      then err invalid_argument
      else ok (identified item d)

  insert_bound : Result Dispatch → Repository → Repository × Result Dispatch
  insert_bound (err e) r = (r, err e)
  insert_bound (ok d) r =
      if run_is_dispatched d.run_id r
      then (r, err runtime_capacity_unavailable)
      else (record r { dispatches = insert d.dispatch_id d r.dispatches }, ok d)

  create_for : Dispatch → Option Reservation → Repository → Repository × Result Dispatch
  unfolding bind_dispatch_to_reservation insert_bound identified
  create_for d none r = (r, err runtime_capacity_unavailable)
  create_for d (some item) r = insert_bound (bind_dispatch_to_reservation d item) r

  -- createDispatch
  unfoldable pub create_dispatch : Dispatch → ℕ → Repository → Repository × Result Dispatch
  unfolding create_for started
  create_dispatch d now r =
      if not (dispatch_is_complete d)
      then (r, err invalid_argument)
      else create_for (started now d) (lookup d.reservation_id r.reservations) r

-- The states from which markDispatchBoundary goes on.
abbrev pub before_sent : DispatchState → Bool
before_sent DispatchState.created = true
before_sent DispatchState.sent = true
before_sent _ = false

abbrev pub before_accept : DispatchState → Bool
before_accept DispatchState.submit_unknown = true
before_accept state = before_sent state

unfoldable pub crossed : DispatchState → ℕ → ℕ → Dispatch → Dispatch
crossed to next_check now d = record d {
  state = to;
  next_recovery_check_at = next_check;
  updated_at = now;
  version = d.version + 1;
}

cross_boundary :
    (DispatchState → Bool)
    → DispatchState
    → Fence
    → ℕ
    → ℕ
    → ℕ
    → Option Dispatch
    → Repository
    → Repository × Done
cross_boundary from to f next_check now id none r = (r, err stale_fencing_token)
cross_boundary from to f next_check now id (some d) r =
    if dispatch_owner_matches d f && from d.state
    then (record r { dispatches = insert id (crossed to next_check now d) r.dispatches }, ok tt)
    else (r, err stale_fencing_token)

-- markDispatchBoundary
unfoldable pub mark_dispatch_boundary :
    (DispatchState → Bool) → DispatchState → ℕ → Fence → ℕ → ℕ → Repository → Repository × Done
unfolding cross_boundary
mark_dispatch_boundary from to id f next_check now r =
    if is_zero id || not (fence_is_complete f)
    then (r, err invalid_argument)
    else cross_boundary from to f next_check now id (lookup id r.dispatches) r

-- MarkDispatchSent
unfoldable pub mark_dispatch_sent : ℕ → Fence → ℕ → Repository → Repository × Done
unfolding mark_dispatch_boundary
mark_dispatch_sent id f now r =
    mark_dispatch_boundary before_sent DispatchState.sent id f
      (now + initial_dispatch_recovery_delay) now r

-- MarkDispatchSubmitUnknown
unfoldable pub mark_dispatch_submit_unknown : ℕ → Fence → ℕ → ℕ → Repository → Repository × Done
unfolding mark_dispatch_boundary
mark_dispatch_submit_unknown id f next_check now r =
    mark_dispatch_boundary before_accept DispatchState.submit_unknown id f next_check now r

-- `unrequested` is the empty status, which is no argument of the call.
abbrev requestable : AbortStatus → Bool
requestable AbortStatus.unrequested = false
requestable _ = true

unfoldable pub abort_noted : AbortStatus → ℕ → Dispatch → Dispatch
abort_noted status now d = record d {
  abort_requested_at = if is_zero d.abort_requested_at then now else d.abort_requested_at;
  abort_status = status;
  updated_at = now;
}

note_abort : ℕ → ℕ → AbortStatus → ℕ → ℕ → Option Dispatch → Repository → Repository × Done
note_abort host fencing status now id none r = (r, err stale_fencing_token)
note_abort host fencing status now id (some d) r =
    if d.runtime_host_id == host && d.fencing_token == fencing && active_dispatch_state d.state
    then (record r { dispatches = insert id (abort_noted status now d) r.dispatches }, ok tt)
    else (r, err stale_fencing_token)

-- MarkDispatchAbortStatus
unfoldable pub mark_dispatch_abort_status :
    ℕ → ℕ → ℕ → AbortStatus → ℕ → Repository → Repository × Done
unfolding note_abort
mark_dispatch_abort_status id host fencing status now r =
    if not (requestable status)
    then (r, err invalid_argument)
    else note_abort host fencing status now id (lookup id r.dispatches) r

unfoldable pub DispatchState-discrete : Discrete DispatchState
DispatchState-discrete = hlevel

-- a == b on dispatch states
unfoldable pub state_eq : DispatchState → DispatchState → Bool
unfolding DispatchState-discrete
state_eq a b = elim (DispatchState-discrete a b) [ yes e ↦ true | no e ↦ false ]

pub state_eq→eq : (a b : DispatchState) → state_eq a b ≡ true → a ≡ b
unfolding state_eq
state_eq→eq a b h = go (DispatchState-discrete a b) h
  where
    go : (x : Dec (a ≡ b)) → elim x [ yes e ↦ true | no e ↦ false ] ≡ true → a ≡ b
    go (yes e) k = e
    go (no e) k = ground arith

abbrev pub aborted_status : DispatchState → AbortStatus → AbortStatus
aborted_status DispatchState.aborted old = AbortStatus.terminal
aborted_status _ old = old

abbrev pub normal_terminal : DispatchState → DispatchState
normal_terminal DispatchState.cancelled = DispatchState.aborted
normal_terminal state = state

unfoldable pub finished : DispatchState → ℕ → Dispatch → Dispatch
finished final now d = record d {
  state = final;
  abort_status = aborted_status final d.abort_status;
  updated_at = now;
}

finish_dispatch : ℕ → ℕ → DispatchState → ℕ → ℕ → Option Dispatch → Repository → Repository × Done
finish_dispatch host fencing final now id none r = (r, err stale_fencing_token)
finish_dispatch host fencing final now id (some d) r =
    if d.runtime_host_id == host
      && d.fencing_token == fencing
      && (active_dispatch_state d.state || state_eq d.state final)
    then (record r { dispatches = insert id (finished final now d) r.dispatches }, ok tt)
    else (r, err stale_fencing_token)

-- MarkDispatchTerminal
unfoldable pub mark_dispatch_terminal :
    ℕ → ℕ → ℕ → DispatchState → ℕ → Repository → Repository × Done
unfolding finish_dispatch
mark_dispatch_terminal id host fencing status now r =
    let final = normal_terminal status in
    if terminal_dispatch_state final
    then finish_dispatch host fencing final now id (lookup id r.dispatches) r
    else (r, err invalid_argument)
