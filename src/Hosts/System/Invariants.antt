-- ===== src/Hosts/System/Invariants.antt =====
-- The repositories that the calls of a process reach: their counters, and the slots of a run.
use yuex.Prelude.{ℕ, ◌≡◌, refl, true, some, arith, lookup, total}
use yuex.Hosts.Types.{
  RuntimeHost, Reservation, Dispatch, DispatchState, Repository, active_reservation_state,
  new_repository,
}
use yuex.Hosts.Lease.{extend_lease, extend_dispatch, lease_lost, end_slot, ended_state}
use yuex.Hosts.Dispatches.{
  identified, started, crossed, abort_noted, finished, mark_dispatch_sent,
  mark_dispatch_submit_unknown, before_sent, before_accept,
}
use yuex.Hosts.Accept.{probe_scheduled, accepted_dispatch, accept_slot}
use yuex.Hosts.Recovery.{claimed, advanced, resumed, closed}
use yuex.Hosts.Registry.{
  fresh_host, rejoin_host, beat, status_set, reconcile_host_health, recalculate_host_counters,
}
use yuex.Hosts.Cases
use yuex.Hosts.Cases.{with_host}
use yuex.Hosts.Accounting.{Counter, counter, weight_on, slots_at}
use yuex.Hosts.Accounting.Hosts.{
  put_host-Accounted, recalculate-Balanced_keep, check_health-Accounted,
}
use yuex.Hosts.System.{
  Step, Reach, register, heartbeat, set_status, recalculate, reconcile, reserve, renew, release,
  expire, create, send, doubt, confirm, lose, abort, terminate, claim, advance, recover, finalize,
  start, step,
}
use yuex.Hosts.System.Keeps.{
  Sound, with_dispatch-Sound, put_dispatch-Sound, extend_lease-Sound, accept_slot-Sound,
  end_slot-Sound, with_slot-Sound, expire_reservations-Sound,
}

-- An empty repository is in order.
pub new_repository-Sound : Sound new_repository
unfolding lookup total
new_repository-Sound = record {
  balanced = record {
    host_distinct = tt;
    host_keys = λ h host e. ground arith;
    item_keys = λ id item e. ground arith;
    counted = λ h c. refl;
  };
  run_index = record {
    item_names = λ id item e. ground arith;
    named = λ id item e. ground arith;
    indexed = λ id item e live. ground arith;
  };
  dispatch_keys = λ id d e. ground arith;
}

-- A write of one host that keeps its counters.
with_host-Sound :
    (r : Repository) (id : ℕ) (host : RuntimeHost)
    → Sound r
    → host.runtime_host_id ≡ id
    → ((c : Counter) → slots_at id c r.hosts ≡ counter c host.slots)
    → Sound (with_host id host r)
with_host-Sound r id host h key same = record {
  balanced = put_host-Accounted id host h.balanced key same;
  run_index = h.run_index;
  dispatch_keys = h.dispatch_keys;
}

recalculate-Sound : (r : Repository) → Sound r → Sound (recalculate_host_counters r)
unfolding recalculate_host_counters
recalculate-Sound r h = record {
  balanced = recalculate-Balanced_keep r h.balanced;
  run_index = h.run_index;
  dispatch_keys = h.dispatch_keys;
}

reconcile_host_health-Sound :
    (now unhealthy offline : ℕ) (r : Repository)
    → Sound r
    → Sound (reconcile_host_health now unhealthy offline r)
unfolding reconcile_host_health
reconcile_host_health-Sound now unhealthy offline r h = recalculate-Sound _ (
    expire_reservations-Sound now _ (record {
      balanced = check_health-Accounted now _ _ h.balanced;
      run_index = h.run_index;
      dispatch_keys = h.dispatch_keys;
    }))

module _ (hash : Reservation → Dispatch → ℕ) where
  pub step-Sound : {r s : Repository} → Sound r → Step hash r s → Sound s
  unfolding mark_dispatch_sent mark_dispatch_submit_unknown fresh_host rejoin_host beat status_set
      extend_dispatch identified started crossed probe_scheduled accepted_dispatch accept_slot
      lease_lost abort_noted finished claimed advanced ended_state resumed closed end_slot
      extend_lease
  step-Sound {r} h (register i c now) =
      Cases.register_host_cases Sound r h i c now
        (λ e.
          with_host-Sound r i.runtime_host_id (fresh_host i c now) h refl (λ k. ground (arith, e)))
        (λ host e.
          with_host-Sound r i.runtime_host_id (rejoin_host i host (fresh_host i c now)) h refl
            (λ k. ground (arith, e)))
  step-Sound {r} h (heartbeat i b now) = Cases.heartbeat_host_cases Sound r h i b now (λ host e.
      with_host-Sound r host.runtime_host_id (beat b now host) h refl
        (λ k. ground (arith, e, h.balanced.host_keys i.runtime_host_id host e)))
  step-Sound {r} h (set_status id status deadline now) =
      Cases.set_host_status_cases Sound r h id status deadline now (λ host e.
        with_host-Sound r id (status_set status deadline now host) h
          (h.balanced.host_keys id host e) (λ k. ground (arith, e)))
  step-Sound {r} h recalculate = recalculate-Sound r h
  step-Sound {r} h (reconcile now unhealthy offline) =
      reconcile_host_health-Sound now unhealthy offline r h
  step-Sound {r} h (reserve c now fresh) =
      Cases.try_reserve_slot_cases Sound r h c now
        (λ host rest e valid free. with_slot-Sound r h c now host rest e valid free fresh)
  step-Sound {r} h (renew f expires_at now) =
      Cases.renew_reservation_cases Sound r h f expires_at now
        (λ item e. extend_lease-Sound r h f.reservation_id expires_at now item e)
        (λ item d e k.
          with_dispatch-Sound _ d.dispatch_id _
            (extend_lease-Sound r h f.reservation_id expires_at now item e) refl)
  step-Sound {r} h (release f reason final now) =
      Cases.release_reservation_fenced_cases Sound r h f reason final now
        (λ item e live ended. end_slot-Sound r h f.reservation_id now final item e live ended)
  step-Sound {r} h (expire now) = expire_reservations-Sound now r h
  step-Sound {r} h (create d now new) =
      Cases.create_dispatch_cases Sound r h hash d now
        (λ item e free. with_dispatch-Sound r d.dispatch_id _ h refl)
  step-Sound {r} h (send id f now) =
      Cases.mark_dispatch_boundary_cases Sound r h before_sent DispatchState.sent id f _ now
        (λ d e live. put_dispatch-Sound r h id d _ e refl)
  step-Sound {r} h (doubt id f next_check now) =
      Cases.mark_dispatch_boundary_cases Sound r h before_accept DispatchState.submit_unknown id f
        next_check now (λ d e live. put_dispatch-Sound r h id d _ e refl)
  step-Sound {r} h (confirm c now) =
      Cases.confirm_dispatch_accepted_cases Sound r h c now (h.dispatch_keys c.dispatch_id)
        (λ d e live. with_dispatch-Sound r d.dispatch_id _ h refl)
        (λ item d e k live early.
          with_dispatch-Sound _ d.dispatch_id _
            (accept_slot-Sound r h c.fence.reservation_id c.dispatch_id now item e live) refl)
  step-Sound {r} h (lose id f next_check now) =
      Cases.mark_dispatch_lease_lost_cases Sound r h id f next_check now
        (λ d check e live. put_dispatch-Sound r h id d _ e refl)
  step-Sound {r} h (abort id host fencing status now) =
      Cases.mark_dispatch_abort_status_cases Sound r h id host fencing status now
        (λ d e live. put_dispatch-Sound r h id d _ e refl)
  step-Sound {r} h (terminate id host fencing status now) =
      Cases.mark_dispatch_terminal_cases Sound r h id host fencing status now
        (λ d e final live. put_dispatch-Sound r h id d _ e refl)
  step-Sound {r} h (claim c now) =
      Cases.claim_dispatch_recovery_cases Sound r h c now
        (λ d e live. with_dispatch-Sound r d.dispatch_id _ h refl)
  step-Sound {r} h (advance c to next_check now) =
      Cases.advance_dispatch_recovery_cases Sound r h c to next_check now
        (λ d e live. with_dispatch-Sound r d.dispatch_id _ h refl)
  step-Sound {r} h (recover c now) =
      Cases.recover_dispatch_accepted_cases Sound r h c now
        (λ item d e k live. with_dispatch-Sound r d.dispatch_id _ h refl)
        (λ item d e k live unheld.
          with_dispatch-Sound _ d.dispatch_id _
            (accept_slot-Sound r h c.fence.reservation_id d.dispatch_id now item e unheld) refl)
  step-Sound {r} h (finalize c now) =
      Cases.finalize_dispatch_and_release_slot_cases Sound r h c now
        (λ d e unfinished. with_dispatch-Sound r d.dispatch_id _ h refl)
        (λ item e live. end_slot-Sound r h c.fence.reservation_id now _ item e live refl)
        (λ item d e k unfinished live.
          with_dispatch-Sound _ d.dispatch_id _
            (end_slot-Sound r h c.fence.reservation_id now _ item e live refl) refl)

  pub Reach-Sound : {r : Repository} → Reach hash r → Sound r
  Reach-Sound start = new_repository-Sound
  Reach-Sound (step past last) = step-Sound (Reach-Sound past) last

  -- In every reachable repository each of the six counters of each host is the number of the
  -- reservations on that host that it stands for, by state and execution scope.
  pub Reach-counted :
      {r : Repository}
      → Reach hash r
      → (h : ℕ) (host : RuntimeHost) (c : Counter) → lookup h r.hosts ≡ some host
      → counter c host.slots ≡ total (weight_on h c) r.reservations
  Reach-counted {r} reached h host c e = ground (arith, (Reach-Sound reached).balanced.counted h c)

  -- In every reachable repository two active reservations of one run are the same reservation.
  pub Reach-one_slot :
      {r : Repository}
      → Reach hash r
      → (id id' : ℕ) (item item' : Reservation) → lookup id r.reservations ≡ some item
      → lookup id' r.reservations ≡ some item'
      → active_reservation_state item.state ≡ true
      → active_reservation_state item'.state ≡ true
      → item.run_id ≡ item'.run_id
      → id ≡ id'
  Reach-one_slot {r} reached id id' item item' e e' live live' same = ground (
    arith,
    (Reach-Sound reached).run_index.indexed id item e live,
    (Reach-Sound reached).run_index.indexed id' item' e' live',
  )
