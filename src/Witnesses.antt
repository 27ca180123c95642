-- ===== src/Witnesses.antt =====
-- The properties at the states of Examples and CapacityExamples.
use yuex.Prelude.{
  ◌+◌, ◌≤◌, ◌≡◌, ◌≢◌, refl, Bool, true, false, some, ◌↔◌, runtime_capacity_unavailable, arith,
  lookup, total, ok, err, ◌⊎◌, invalid_argument,
}
use yuex.Capacity.{CapacityReservation, commit_accepted_memory, of_model}
use yuex.Capacity
use yuex.Capacity.Bounds.{units, reserve-within_limits}
use yuex.Capacity.Generations.{release-frees_once}
use yuex.CapacityExamples.{
  numbered, order, share, empty_book, shares, shares_ok, no_share, shares-Named, committed_shares,
  freed_shares, freed_shares_ok, other_share, demand_small,
}
use yuex.Scheduler.{
  accept_memory, classify_dispatch_recovery, post_accept, refused, release_before_accept,
  retry_same_host,
}
use yuex.Hosts.Types.{
  Repository, RuntimeHost, Reservation, Dispatch, ReservationState, DispatchState, admission_target,
  active_reservation_state, terminal_dispatch_state,
}
use yuex.Hosts.Store.{fence_is_complete, reservation_fence_matches}
use yuex.Hosts.Reserve.{try_reserve_slot, with_slot, new_reservation, claim_slot}
use yuex.Hosts.Lease.{
  mark_dispatch_lease_lost, renew_reservation, release_reservation_fenced, expire_reservations,
  expired_item,
}
use yuex.Hosts.Accept.{confirm_dispatch_accepted}
use yuex.Hosts.Recovery.{
  claim_dispatch_recovery, assert_dispatch_recovery_claim, advance_dispatch_recovery,
  finalize_dispatch_and_release_slot, recover_dispatch_accepted, is_created,
}
use yuex.Hosts.Accounting.{active, reserved, reserved_product, active_product, counter, weight_on}
use yuex.Examples.{
  digest, wish, draft, fence, acceptance, finish, takeover, rival, beating, held, sent_off, running,
  done, taken_over, new_reservation_id, Reach-held, Reach-running, Reach-done, slot, host, held_ok,
  done_ok, taken_over_ok, held_host, held_slot, Sound-beating, Sound-held, Sound-running,
  Sound-sent, old_fence, old_fence_fails, freed_slot, released_is_final, ended_slot, freed_found,
  handed_back, handed_back_ok, Sound-taken_over, done-Settled, slot_spared, slot_due, wish_valid,
  run_is_idle, idle_host, idle_host_found, idle_host_fits, running_slot, sent_draft, old_acceptance,
  old_finish, old_recovery, books, accepted_books, accepted_ok, refused_ok, drifted,
  drifted-Distinct, drifted_keys, drifted_nowhere,
}
use yuex.Hosts.Accounting.Operations.{Balanced}
use yuex.Hosts.Accounting.Hosts.{recalculate_host_counters-Balanced}
use yuex.Hosts.Registry.{recalculate_host_counters, fresh_host}
use yuex.Hosts.System.{none_yet, and_then, lose, advance}
use yuex.Hosts.System.Invariants.{Reach-counted, Reach-one_slot}
use yuex.Hosts.Admission.{reserve-within_target, reserve-available, occupancy}
use yuex.Hosts.Fencing.{stale-fence_refused, ended-stays}
use yuex.Hosts.Fencing.Expiry.{expire-spares, expire-ends}
use yuex.Hosts.Lifecycle.Claims.{advance-ends_claim}
use yuex.Hosts.Lifecycle.Versions.{claim-excludes, claim-consumes_version}
use yuex.Hosts.Lifecycle.Closed.{Settled, finished-forever}
use yuex.Hosts.Lifecycle.Repeats.{finalize-ends, release-once}
use yuex.Scheduler.Atomic.{Probed, accept-both, accept-fails_whole, accept-repeats}
use yuex.Scheduler.Decisions.{Unknown, classify-after_accept, classify-retry}

Reach-counted_example :
    counter reserved_product host.slots ≡ total (weight_on 7 reserved_product) held.reservations
Reach-counted_example = Reach-counted digest Reach-held 7 host reserved_product held_host

Reach-one_slot_example : slot.reservation_id ≡ 11
Reach-one_slot_example =
    Reach-one_slot digest Reach-held 11 11 slot slot held_slot held_slot refl refl refl

reserve-within_target_example :
    (occupancy active reserved 7 held.reservations ≤ admission_target 4)
    × (admission_target 4 ≤ 4)
    × (occupancy active_product reserved_product 7 held.reservations ≤ admission_target 4)
unfolding fresh_host
reserve-within_target_example =
    reserve-within_target wish 110 beating held slot host Sound-beating new_reservation_id held_ok

finished-forever_example :
    Settled 51 DispatchState.succeeded (mark_dispatch_lease_lost 51 fence 600 300 done).0
finished-forever_example =
    finished-forever 51 DispatchState.succeeded refl digest Reach-done done-Settled
      (and_then none_yet (lose 51 fence 600 300))

claim-excludes_example :
    ((claim_dispatch_recovery rival 180 handed_back).1 ≢ ok tt)
    × ((claim_dispatch_recovery rival 180 handed_back).0 ≡ handed_back)
claim-excludes_example =
    claim-excludes digest takeover rival 150 180 running taken_over handed_back Reach-running
      taken_over_ok (and_then none_yet (advance takeover DispatchState.accepted 600 170)) refl
      (λ k. omega (arith, k)) (omega arith) (omega arith)

claim-consumes_version_example :
    ((claim_dispatch_recovery rival 900 handed_back).1 ≢ ok tt)
    × ((claim_dispatch_recovery rival 900 handed_back).0 ≡ handed_back)
claim-consumes_version_example =
    claim-consumes_version digest takeover rival 150 900 running taken_over handed_back
      Reach-running taken_over_ok
      (and_then none_yet (advance takeover DispatchState.accepted 600 170)) refl refl

advance-ends_claim_example :
    (assert_dispatch_recovery_claim takeover 180 handed_back ≢ ok tt)
    × ((advance_dispatch_recovery takeover DispatchState.running 700 180 handed_back).1 ≢ ok tt)
    × ((advance_dispatch_recovery takeover DispatchState.running 700 180 handed_back).0
        ≡ handed_back)
advance-ends_claim_example =
    advance-ends_claim takeover DispatchState.accepted DispatchState.running 600 700 170 180
      taken_over handed_back Sound-taken_over handed_back_ok

finalize-ends_example :
    (item : Reservation) × (d : Dispatch) × (lookup 11 done.reservations ≡ some item)
    × (lookup 51 done.dispatches ≡ some d)
    × (active_reservation_state item.state ≡ false)
    × (terminal_dispatch_state d.state ≡ true)
finalize-ends_example = finalize-ends finish 200 running done Sound-running done_ok

release-once_example :
    (s : Repository) × (release_reservation_fenced fence 1 ReservationState.released 120 held
      ≡ (s, ok true))
    × (release_reservation_fenced fence 2 ReservationState.released 130 s ≡ (s, ok false))
unfolding fence_is_complete reservation_fence_matches
release-once_example =
    release-once fence 1 2 ReservationState.released ReservationState.released 120 130 held slot
      Sound-held held_slot refl refl refl (λ k. omega (arith, k)) (λ k. omega (arith, k))
      released_is_final released_is_final

ended-stays_example :
    (((renew_reservation fence 3000 130 freed_slot).0 ≡ freed_slot)
      × ((renew_reservation fence 3000 130 freed_slot).1 ≢ ok tt))
    × ((release_reservation_fenced fence 2 ReservationState.released 130 freed_slot
          ≡ (freed_slot, ok false))
        ⊎ (release_reservation_fenced fence 2 ReservationState.released 130 freed_slot
            ≡ (freed_slot, err invalid_argument)))
unfolding reservation_fence_matches
ended-stays_example =
    ended-stays fence ended_slot freed_slot freed_found refl refl 3000 130 2
      ReservationState.released

expire-spares_example : lookup 11 (expire_reservations 500 held).0.reservations ≡ some slot
expire-spares_example = expire-spares 500 11 held slot held_slot slot_spared

expire-ends_example :
    lookup 11 (expire_reservations 1000 held).0.reservations ≡ some (expired_item 1000 slot)
expire-ends_example = expire-ends 1000 11 held slot held_slot slot_due

reserve-available_example :
    (chosen : RuntimeHost) × (try_reserve_slot wish 110 beating ≡ (
      with_slot wish 110 chosen beating,
      ok (new_reservation wish 110 chosen, claim_slot wish chosen),
    ))
reserve-available_example =
    reserve-available wish 110 beating 7 idle_host wish_valid run_is_idle idle_host_found
      idle_host_fits

recalculate_host_counters-Balanced_example : Balanced (recalculate_host_counters drifted)
unfolding lookup
recalculate_host_counters-Balanced_example =
    recalculate_host_counters-Balanced drifted drifted-Distinct drifted_keys
      Sound-held.balanced.item_keys drifted_nowhere

accept-both_example : (accept_memory share acceptance 140 books ≡ (accepted_books, ok tt)) ↔ (
    (commit_accepted_memory share 140 shares ≡ (committed_shares, ok tt))
    × (confirm_dispatch_accepted acceptance 140 sent_off ≡ (running, ok tt)))
accept-both_example = accept-both share acceptance 140 books accepted_books

accept-repeats_example : accept_memory share acceptance 155 accepted_books ≡ (accepted_books, ok tt)
accept-repeats_example =
    accept-repeats share acceptance 140 155 books accepted_books Sound-sent shares-Named accepted_ok

accept-fails_whole_example :
    (shares ≡ shares)
    × (sent_off.hosts ≡ sent_off.hosts)
    × (sent_off.reservations ≡ sent_off.reservations)
    × (sent_off.active_reservation_by_run ≡ sent_off.active_reservation_by_run)
    × Probed acceptance 140 sent_off.dispatches sent_off.dispatches
accept-fails_whole_example =
    accept-fails_whole other_share acceptance 140 books books runtime_capacity_unavailable
      refused_ok

reserve-within_limits_example : 3 + total (units 100 of_model 5) shares ≤ 10
reserve-within_limits_example =
    reserve-within_limits numbered order 100 empty_book shares share of_model shares_ok no_share
      (omega arith) demand_small

release-frees_once_example : Capacity.release share 160 freed_shares ≡ (freed_shares, ok false)
release-frees_once_example =
    release-frees_once share 150 160 shares freed_shares shares-Named freed_shares_ok

classify-after_accept_example :
    ((classify_dispatch_recovery draft running_slot (refused 1 true)).action
      ≢ release_before_accept)
    × ((classify_dispatch_recovery draft running_slot (refused 1 true)).action ≢ retry_same_host)
classify-after_accept_example = classify-after_accept draft running_slot (refused 1 true) refl

classify-retry_example :
    (post_accept sent_draft slot ≡ false)
    × (is_created sent_draft.state ≡ false)
    × Unknown sent_draft (refused 1 true)
unfolding classify_dispatch_recovery
classify-retry_example = classify-retry sent_draft slot (refused 1 true) refl

stale-fence_refused_example :
    (((renew_reservation old_fence 3000 130 held).0 ≡ held)
      × ((renew_reservation old_fence 3000 130 held).1 ≢ ok tt))
    × (((release_reservation_fenced old_fence 1 ReservationState.released 130 held).0 ≡ held)
        × ((b : Bool)
            → (release_reservation_fenced old_fence 1 ReservationState.released 130 held).1 ≢ ok b))
    × (((confirm_dispatch_accepted old_acceptance 130 held).0 ≡ held)
        × ((confirm_dispatch_accepted old_acceptance 130 held).1 ≢ ok tt))
    × (((recover_dispatch_accepted old_recovery 130 held).0 ≡ held)
        × ((recover_dispatch_accepted old_recovery 130 held).1 ≢ ok tt))
    × (((finalize_dispatch_and_release_slot old_finish 130 held).0 ≡ held)
        × ((finalize_dispatch_and_release_slot old_finish 130 held).1 ≢ ok tt))
stale-fence_refused_example =
    stale-fence_refused old_fence slot held held_slot old_fence_fails 3000 130 1
      ReservationState.released old_acceptance old_finish old_recovery refl refl refl
