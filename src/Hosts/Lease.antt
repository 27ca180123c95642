-- ===== src/Hosts/Lease.antt =====
-- RenewReservation, MarkDispatchLeaseLost, ReleaseReservation and ExpireReservations: what happens
-- to a slot between its reservation and its end.
use yuex.Prelude.{
  ℕ, ◌+◌, Bool, true, false, not, ◌&&◌, ◌||◌, Option, none, some, List, [], ◌∷◌, leb, ltb, ◌==◌,
  is_zero, if◌then◌else◌, lookup, insert, delete, values, any, Map, invalid_argument,
  stale_fencing_token, Result, Done, ok, err,
}
use yuex.Hosts.Types.{
  Slots, Reservation, Dispatch, Repository, Fence, ReservationState, DispatchState,
  active_dispatch_state, active_reservation_state, is_reserved,
}
use yuex.Hosts.Slots.{decrement_reserved, decrement_active}
use yuex.Hosts.Store.{
  fence_is_complete, reservation_fence_matches, dispatch_fence_matches, update_slots,
}

-- The fence of a reservation, which its dispatch has to carry.
abbrev pub fence_of : Reservation → Fence
fence_of item = record {
  reservation_id = item.reservation_id;
  runtime_host_id = item.runtime_host_id;
  owner_instance_id = item.owner_instance_id;
  lease_token_hash = item.lease_token_hash;
  fencing_token = item.fencing_token;
}

unfoldable pub extend_lease : ℕ → ℕ → Reservation → Reservation
extend_lease expires_at now item = record item {
  expires_at = expires_at;
  last_renewed_at = now;
  updated_at = now;
  version = item.version + 1;
}

unfoldable pub extend_dispatch : ℕ → ℕ → Dispatch → Dispatch
extend_dispatch expires_at now d = record d {
  lease_expires_at = expires_at;
  version = d.version + 1;
  updated_at = now;
}

-- A renewal of a slot with a dispatch renews the dispatch's lease too, or fails.
renew_bound : ℕ → ℕ → Reservation → Option Dispatch → Repository → Repository × Done
renew_bound expires_at now item none r = (r, err stale_fencing_token)
renew_bound expires_at now item (some d) r =
    if dispatch_fence_matches d (fence_of item) && active_dispatch_state d.state
    then (
      record r {
        reservations = insert item.reservation_id (extend_lease expires_at now item) r.reservations;
        dispatches = insert d.dispatch_id (extend_dispatch expires_at now d) r.dispatches;
      },
      ok tt,
    )
    else (r, err stale_fencing_token)

renew_item : Fence → ℕ → ℕ → Option Reservation → Repository → Repository × Done
unfolding renew_bound
renew_item f expires_at now none r = (r, err stale_fencing_token)
renew_item f expires_at now (some item) r =
    if reservation_fence_matches item f
      && active_reservation_state item.state
      && ltb now item.expires_at
    then if is_zero item.dispatch_id
      then (
        record r {
          reservations =
              insert item.reservation_id (extend_lease expires_at now item) r.reservations;
        },
        ok tt,
      )
      else renew_bound expires_at now item (lookup item.dispatch_id r.dispatches) r
    else (r, err stale_fencing_token)

-- RenewReservation
unfoldable pub renew_reservation : Fence → ℕ → ℕ → Repository → Repository × Done
unfolding renew_item
renew_reservation f expires_at now r =
    if not (fence_is_complete f) || is_zero expires_at
    then (r, err invalid_argument)
    else renew_item f expires_at now (lookup f.reservation_id r.reservations) r

unfoldable pub lease_lost : ℕ → ℕ → Dispatch → Dispatch
lease_lost next_check now d = record d {
  state = DispatchState.recovering;
  lease_expires_at = now;
  next_recovery_check_at = next_check;
  version = d.version + 1;
  updated_at = now;
}

lose_lease : Fence → ℕ → ℕ → Option Dispatch → ℕ → Repository → Repository × Done
lose_lease f next_check now none id r = (r, err stale_fencing_token)
lose_lease f next_check now (some d) id r =
    if dispatch_fence_matches d f && active_dispatch_state d.state
    then (record r { dispatches = insert id (lease_lost next_check now d) r.dispatches }, ok tt)
    else (r, err stale_fencing_token)

-- MarkDispatchLeaseLost
unfoldable pub mark_dispatch_lease_lost : ℕ → Fence → ℕ → ℕ → Repository → Repository × Done
unfolding lose_lease
mark_dispatch_lease_lost id f next_check now r =
    if is_zero id || not (fence_is_complete f)
    then (r, err invalid_argument)
    else lose_lease f (if is_zero next_check then now else next_check) now (lookup id r.dispatches)
        id r

-- The counter that a slot in this state gives back.
unfoldable pub give_back : Reservation → Slots → Slots
give_back item s =
    if is_reserved item.state
    then decrement_reserved s item.execution_scope
    else decrement_active s item.execution_scope

unfoldable pub ended_item : ReservationState → ℕ → Reservation → Reservation
ended_item final now item = record item {
  state = final;
  updated_at = now;
  version = item.version + 1;
}

-- The writes with which a slot ends.
unfoldable pub end_slot : ReservationState → ℕ → Reservation → Repository → Repository
unfolding ended_item
end_slot final now item r = record r {
  hosts = update_slots (give_back item) item.runtime_host_id r.hosts;
  active_reservation_by_run = delete item.run_id r.active_reservation_by_run;
  reservations = insert item.reservation_id (ended_item final now item) r.reservations;
}

release_item :
    Fence → ReservationState → ℕ → Option Reservation → Repository → Repository × Result Bool
release_item f final now none r = (r, err stale_fencing_token)
release_item f final now (some item) r =
    if not (reservation_fence_matches item f)
    then (r, err stale_fencing_token)
    else if active_reservation_state item.state
    then (end_slot final now item r, ok true)
    else (r, ok false)

-- The two final states that releaseReservationFenced takes.
unfoldable pub ended_state : ReservationState → Bool
ended_state ReservationState.released = true
ended_state ReservationState.expired = true
ended_state _ = false

-- releaseReservationFenced; `reason` is 0 for the empty text.
unfoldable pub release_reservation_fenced :
    Fence → ℕ → ReservationState → ℕ → Repository → Repository × Result Bool
unfolding release_item
release_reservation_fenced f reason final now r =
    if not (fence_is_complete f) || is_zero reason || not (ended_state final)
    then (r, err invalid_argument)
    else release_item f final now (lookup f.reservation_id r.reservations) r

-- ReleaseReservation
unfoldable pub release_reservation : Fence → ℕ → ℕ → Repository → Repository × Result Bool
unfolding release_reservation_fenced
release_reservation f reason now r =
    release_reservation_fenced f reason ReservationState.released now r

-- The dispatch states that keep an expired reservation.
abbrev pub protects : DispatchState → Bool
protects DispatchState.created = false
protects state = active_dispatch_state state

unfoldable pub is_protected : ℕ → Map Dispatch → Bool
is_protected id dispatches =
    any (λ d. d.reservation_id == id && protects d.state) (values dispatches)

-- Unlike a release, an expiry leaves the version.
unfoldable pub expired_item : ℕ → Reservation → Reservation
expired_item now item = record item { state = ReservationState.expired; updated_at = now }

-- The writes with which a reservation expires.
unfoldable pub expire_slot : ℕ → ℕ → Reservation → Repository → Repository
unfolding expired_item
expire_slot now id item r = record r {
  reservations = insert id (expired_item now item) r.reservations;
  active_reservation_by_run = delete item.run_id r.active_reservation_by_run;
  hosts =
      update_slots (λ s. decrement_reserved s item.execution_scope) item.runtime_host_id r.hosts;
}

expire_item : ℕ → ℕ → Option Reservation → Repository → Repository × Bool
expire_item id now none r = (r, false)
expire_item id now (some item) r =
    if is_reserved item.state
      && leb item.expires_at now
      && not (is_protected item.reservation_id r.dispatches)
    then (expire_slot now id item r, true)
    else (r, false)

-- One round of the loop of ExpireReservations.
unfoldable pub expire_one : ℕ → ℕ → Repository → Repository × Bool
unfolding expire_item
expire_one now id r = expire_item id now (lookup id r.reservations) r

-- The loop over the keys of the map, with the count of the reservations that expired.
unfoldable pub expire_loop : ℕ → List (ℕ × Reservation) → ℕ → Repository → Repository × ℕ
expire_loop now [] count r = (r, count)
expire_loop now ((id, item) ∷ rest) count r =
    let (r', changed) = expire_one now id r in
    expire_loop now rest (if changed then count + 1 else count) r'

-- ExpireReservations
unfoldable pub expire_reservations : ℕ → Repository → Repository × ℕ
expire_reservations now r = expire_loop now r.reservations 0 r
