-- ===== src/Hosts/Lifecycle/Repeats.antt =====
-- Calls that a client repeats after a lost answer: ConfirmDispatchAccepted,
-- FinalizeDispatchAndReleaseSlot and ReleaseReservation of runtime_host_concurrency.go.
use yuex.Prelude.{
  ℕ, ◌≡◌, ◌≢◌, refl, true, false, none, some, inl, inr, arith, lookup, Option-cases,
  lookup-insert_self, is_zero, if◌then◌else◌, Bool-cases, ok,
}
use yuex.Hosts.Types.{
  Reservation, Dispatch, Repository, Fence, AcceptedCommand, TerminalCommand, ReservationState,
  DispatchState, active_reservation_state, terminal_dispatch_state,
}
use yuex.Hosts.Store.{fence_is_complete, reservation_fence_matches, dispatch_binding_matches}
use yuex.Hosts.Lease.{release_reservation_fenced, end_slot, ended_item, ended_state}
use yuex.Hosts.Accept.{
  confirm_dispatch_accepted, validate_confirm, apply_confirm, schedule_probe, probe_scheduled,
  is_accepted, accept_slot, accepted_item, accepted_dispatch, accepted_command_is_complete,
}
use yuex.Hosts.Recovery.{
  finalize_dispatch_and_release_slot, claim_holds, close_dispatch, closed, end_if_active,
}
use yuex.Hosts.System.Keeps.{Sound}

-- The release of an active slot under its own fence frees it once: with a complete fence, and each time
-- a reason and one of the two final states, the first release says true, and a second one in the state
-- that it leaves says false and changes nothing, whatever its reason, final state and time.
pub release-once :
    (f : Fence) (reason reason' : ℕ) (final final' : ReservationState) (now later : ℕ)
    (r : Repository) (item : Reservation)
    → Sound r
    → lookup f.reservation_id r.reservations ≡ some item
    → active_reservation_state item.state ≡ true
    → reservation_fence_matches item f ≡ true
    → fence_is_complete f ≡ true
    → reason ≢ 0
    → reason' ≢ 0
    → ended_state final ≡ true
    → ended_state final' ≡ true
    → (s : Repository) × (release_reservation_fenced f reason final now r ≡ (s, ok true))
      × (release_reservation_fenced f reason' final' later s ≡ (s, ok false))
unfolding release_reservation_fenced end_slot ended_item ended_state reservation_fence_matches
release-once f reason reason' final final' now later r item h e live own whole given given' ends
      ends' =
    let s = end_slot final now item r in
    let first : release_reservation_fenced f reason final now r ≡ (s, ok true) =
      ground (arith, e) in
    let after : lookup f.reservation_id s.reservations ≡ some (ended_item final now item) = ground (
      arith,
      h.balanced.item_keys f.reservation_id item e,
      lookup-insert_self f.reservation_id (ended_item final now item) r.reservations,
    ) in
    (s, first, ground (arith, after))

-- An accepted pair: the reservation and the dispatch of a command that has been confirmed.
record Confirmed (c : AcceptedCommand) (r : Repository) : Type 0 where
  pub item : Reservation
  pub dispatch : Dispatch
  pub found : lookup c.fence.reservation_id r.reservations ≡ some item
  pub sent_as : lookup c.dispatch_id r.dispatches ≡ some dispatch
  pub held : item.state ≡ ReservationState.accepted
  pub named : item.dispatch_id ≡ c.dispatch_id
  pub fenced : reservation_fence_matches item c.fence ≡ true
  pub bound : dispatch_binding_matches dispatch c.fence ≡ true
  pub taken : dispatch.state ≡ DispatchState.accepted
  pub asked : dispatch.runtime_request_id ≡ c.runtime_request_id
  pub probed : dispatch.next_recovery_check_at ≢ 0

confirm-again :
    (c : AcceptedCommand) (later : ℕ) (r : Repository)
    → accepted_command_is_complete c ≡ true
    → Confirmed c r
    → confirm_dispatch_accepted c later r ≡ (r, ok tt)
unfolding confirm_dispatch_accepted validate_confirm apply_confirm schedule_probe
confirm-again c later r complete k = ground (arith, k.found, k.sent_as, k.probed)

module _ (c : AcceptedCommand) (now : ℕ) (r s : Repository) (h : Sound r)
    (done : confirm_dispatch_accepted c now r ≡ (s, ok tt)) (item : Reservation) (d : Dispatch)
    (found : lookup c.fence.reservation_id r.reservations ≡ some item)
    (sent_as : lookup c.dispatch_id r.dispatches ≡ some d) where
  -- A first confirmation moves both rows.
  first-Confirmed : is_accepted item.state ≡ false → Confirmed c s
  unfolding confirm_dispatch_accepted validate_confirm apply_confirm schedule_probe accept_slot
      accepted_item accepted_dispatch reservation_fence_matches dispatch_binding_matches
  first-Confirmed new = record {
    item = accepted_item c.dispatch_id now item;
    dispatch = accepted_dispatch c.runtime_request_id now d;
    found = ground (
      arith,
      done,
      h.balanced.item_keys c.fence.reservation_id item found,
      lookup-insert_self c.fence.reservation_id (accepted_item c.dispatch_id now item)
          r.reservations,
    );
    sent_as = ground (
      arith,
      done,
      h.dispatch_keys c.dispatch_id d sent_as,
      lookup-insert_self c.dispatch_id (accepted_dispatch c.runtime_request_id now d) r.dispatches,
    );
    held = refl;
    named = refl;
    fenced = ground (arith, done);
    bound = ground (arith, done);
    taken = refl;
    asked = refl;
    probed = omega arith;
  }

  -- A repeated one leaves the rows, or schedules the probe that an older release left out.
  repeated-Confirmed : is_accepted item.state ≡ true → Confirmed c s
  unfolding confirm_dispatch_accepted validate_confirm apply_confirm schedule_probe probe_scheduled
      reservation_fence_matches dispatch_binding_matches
  repeated-Confirmed old = record {
    item = item;
    dispatch = if is_zero d.next_recovery_check_at then probe_scheduled now d else d;
    found = ground (arith, done);
    sent_as = ground (
      arith,
      done,
      h.dispatch_keys c.dispatch_id d sent_as,
      lookup-insert_self c.dispatch_id (probe_scheduled now d) r.dispatches,
    );
    held = ground (arith, old);
    named = ground (arith, done);
    fenced = ground (arith, done);
    bound = ground (arith, done);
    taken = ground (arith, done);
    asked = ground (arith, done);
    probed = ground (arith, done);
  }

-- ConfirmDispatchAccepted can be repeated: once it has succeeded, the same command succeeds at any
-- later time and changes nothing, so a slot is moved to the active counters once.
pub confirm-repeats :
    (c : AcceptedCommand) (now later : ℕ) (r s : Repository)
    → Sound r
    → confirm_dispatch_accepted c now r ≡ (s, ok tt)
    → confirm_dispatch_accepted c later s ≡ (s, ok tt)
unfolding confirm_dispatch_accepted validate_confirm
confirm-repeats c now later r s h done =
    elim (Option-cases (lookup c.fence.reservation_id r.reservations)) [
      | inl e ↦ absurd (ground (arith, done))
      | inr (item, e) ↦ elim (Option-cases (lookup c.dispatch_id r.dispatches)) [
        | inl n ↦ absurd (ground (arith, done))
        | inr (d, f) ↦
            confirm-again c later s (ground (arith, done))
              (elim (Bool-cases (is_accepted item.state)) [
                | inl old ↦ repeated-Confirmed c now r s h done item d e f old
                | inr new ↦ first-Confirmed c now r s h done item d e f new
              ])
      ]
    ]

-- A finished pair: the dispatch is terminal and the reservation has ended.
finalize-again :
    (c : TerminalCommand) (later : ℕ) (r : Repository) (item : Reservation) (d : Dispatch)
    → lookup c.fence.reservation_id r.reservations ≡ some item
    → lookup c.dispatch_id r.dispatches ≡ some d
    → c.dispatch_id ≢ 0
    → terminal_dispatch_state c.terminal_status ≡ true
    → c.recovery_claim ≡ none
    → dispatch_binding_matches d c.fence ≡ true
    → reservation_fence_matches item c.fence ≡ true
    → terminal_dispatch_state d.state ≡ true
    → active_reservation_state item.state ≡ false
    → finalize_dispatch_and_release_slot c later r ≡ (r, ok tt)
unfolding finalize_dispatch_and_release_slot close_dispatch end_if_active claim_holds
finalize-again c later r item d e f named final unclaimed bound fenced over ended =
    ground (arith, e, f)

-- The rows after a successful finalization.
record Finished (c : TerminalCommand) (r : Repository) : Type 0 where
  pub item : Reservation
  pub dispatch : Dispatch
  pub found : lookup c.fence.reservation_id r.reservations ≡ some item
  pub sent_as : lookup c.dispatch_id r.dispatches ≡ some dispatch
  pub fenced : reservation_fence_matches item c.fence ≡ true
  pub bound : dispatch_binding_matches dispatch c.fence ≡ true
  pub over : terminal_dispatch_state dispatch.state ≡ true
  pub ended : active_reservation_state item.state ≡ false

finalize-writes :
    (c : TerminalCommand) (now : ℕ) (r s : Repository) (item : Reservation) (d : Dispatch)
    → lookup c.fence.reservation_id r.reservations ≡ some item
    → lookup c.dispatch_id r.dispatches ≡ some d
    → finalize_dispatch_and_release_slot c now r ≡ (s, ok tt)
    → (s ≡ close_dispatch c.terminal_status now d (end_if_active now item r))
      × (terminal_dispatch_state c.terminal_status ≡ true)
      × (reservation_fence_matches item c.fence ≡ true)
      × (dispatch_binding_matches d c.fence ≡ true)
unfolding finalize_dispatch_and_release_slot
finalize-writes c now r s item d e f done =
    (ground (arith, e, f, done), ground (arith, done), ground (arith, done), ground (arith, done))

module _ (now : ℕ) (final : DispatchState) (item : Reservation) (d : Dispatch) (r : Repository)
    (h : Sound r) where
  closed_item : Reservation
  unfolding ended_item
  closed_item =
      if active_reservation_state item.state
      then ended_item ReservationState.released now item
      else item

  closed_found :
      (id : ℕ)
      → lookup id r.reservations ≡ some item
      → lookup id (close_dispatch final now d (end_if_active now item r)).reservations
        ≡ some closed_item
  unfolding close_dispatch end_if_active end_slot closed_item
  closed_found id e = ground (
    arith,
    h.balanced.item_keys id item e,
    lookup-insert_self id (ended_item ReservationState.released now item) r.reservations,
  )

  closed_dispatch : Dispatch
  closed_dispatch = if terminal_dispatch_state d.state then d else closed final now d

  closed_sent :
      (id : ℕ)
      → lookup id r.dispatches ≡ some d
      → lookup id (close_dispatch final now d (end_if_active now item r)).dispatches
        ≡ some closed_dispatch
  unfolding close_dispatch end_if_active end_slot closed_dispatch
  closed_sent id e =
      ground
        (arith, h.dispatch_keys id d e, lookup-insert_self id (closed final now d) r.dispatches)

finalize-pair :
    (c : TerminalCommand) (now : ℕ) (r s : Repository)
    → Sound r
    → finalize_dispatch_and_release_slot c now r ≡ (s, ok tt)
    → (item : Reservation) (d : Dispatch) → lookup c.fence.reservation_id r.reservations ≡ some item
    → lookup c.dispatch_id r.dispatches ≡ some d
    → Finished c s
unfolding closed_item closed_dispatch ended_item closed reservation_fence_matches
    dispatch_binding_matches
finalize-pair c now r s h done item d e f =
    let (after, final, fenced, bound) = finalize-writes c now r s item d e f done in
    record {
      item = closed_item now c.terminal_status item d r h;
      dispatch = closed_dispatch now c.terminal_status item d r h;
      found = rw after (closed_found now c.terminal_status item d r h c.fence.reservation_id e);
      sent_as = rw after (closed_sent now c.terminal_status item d r h c.dispatch_id f);
      fenced = ground (arith, fenced);
      bound = ground (arith, bound);
      over = ground (arith, final);
      ended = ground arith;
    }

finalize-Finished :
    (c : TerminalCommand) (now : ℕ) (r s : Repository)
    → Sound r
    → finalize_dispatch_and_release_slot c now r ≡ (s, ok tt)
    → Finished c s
unfolding finalize_dispatch_and_release_slot
finalize-Finished c now r s h done =
    elim (Option-cases (lookup c.fence.reservation_id r.reservations)) [
      | inl e ↦ elim (Option-cases (lookup c.dispatch_id r.dispatches)) [
        | inl n ↦ absurd (ground (arith, done))
        | inr (d, f) ↦ absurd (ground (arith, done))
      ]
      | inr (item, e) ↦ elim (Option-cases (lookup c.dispatch_id r.dispatches)) [
        | inl n ↦ absurd (ground (arith, done))
        | inr (d, f) ↦ finalize-pair c now r s h done item d e f
      ]
    ]

-- After a successful FinalizeDispatchAndReleaseSlot the dispatch is in a terminal state and the
-- reservation holds no slot.
pub finalize-ends :
    (c : TerminalCommand) (now : ℕ) (r s : Repository)
    → Sound r
    → finalize_dispatch_and_release_slot c now r ≡ (s, ok tt)
    → (item : Reservation) × (d : Dispatch) × (lookup c.fence.reservation_id s.reservations
        ≡ some item)
      × (lookup c.dispatch_id s.dispatches ≡ some d)
      × (active_reservation_state item.state ≡ false)
      × (terminal_dispatch_state d.state ≡ true)
finalize-ends c now r s h done =
    let k = finalize-Finished c now r s h done in
    (k.item, k.dispatch, k.found, k.sent_as, k.ended, k.over)

-- FinalizeDispatchAndReleaseSlot without a recovery claim can be repeated: once it has succeeded,
-- the same command succeeds at any later time and changes nothing.
pub finalize-repeats :
    (c : TerminalCommand) (now later : ℕ) (r s : Repository)
    → Sound r
    → c.recovery_claim ≡ none
    → finalize_dispatch_and_release_slot c now r ≡ (s, ok tt)
    → finalize_dispatch_and_release_slot c later s ≡ (s, ok tt)
unfolding finalize_dispatch_and_release_slot
finalize-repeats c now later r s h unclaimed done =
    let k = finalize-Finished c now r s h done in
    finalize-again c later s k.item k.dispatch k.found k.sent_as (ground (arith, done))
      (ground (arith, done)) unclaimed k.bound k.fenced k.over k.ended
