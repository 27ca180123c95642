-- ===== src/Hosts/Lifecycle/Closed.antt =====
-- Finished dispatches under every operation of runtime_host_repository.go and
-- runtime_host_concurrency.go.
use yuex.Prelude.{
  ℕ, ◌≡◌, refl, true, none, some, inl, inr, List, [], ◌∷◌, arith, lookup, lookup-insert, ◌==◌,
  Bool-cases,
}
use yuex.Hosts.Types.{Reservation, Dispatch, Repository, DispatchState, terminal_dispatch_state}
use yuex.Hosts.Reserve.{with_slot}
use yuex.Hosts.Lease.{
  extend_dispatch, lease_lost, end_slot, expire_slot, expire_one, expire_loop, expire_reservations,
}
use yuex.Hosts.Dispatches.{
  state_eq→eq, crossed, abort_noted, finished, normal_terminal, before_sent, before_accept,
  mark_dispatch_sent, mark_dispatch_submit_unknown, identified, started,
}
use yuex.Hosts.Accept.{probe_scheduled, accepted_dispatch, accept_slot}
use yuex.Hosts.Recovery.{claimed, advanced, resumed, closed, holds_claim}
use yuex.Hosts.Registry.{reconcile_host_health, recalculate_host_counters}
use yuex.Hosts.Cases
use yuex.Hosts.Cases.{with_dispatch}
use yuex.Hosts.System.{
  Step, Reach, Steps, none_yet, and_then, register, heartbeat, set_status, recalculate, reconcile,
  reserve, renew, release, expire, create, send, doubt, confirm, lose, abort, terminate, claim,
  advance, recover, finalize, step,
}
use yuex.Hosts.System.Keeps.{Sound}
use yuex.Hosts.System.Invariants.{Reach-Sound}

-- A stored dispatch in the given state, without a recovery claim.
abbrev pub Settled : ℕ → DispatchState → Repository → Type 0
Settled id final r =
    (d : Dispatch) × (lookup id r.dispatches ≡ some d)
    × (d.state ≡ final)
    × (d.recovery_expires_at ≡ 0)

module _ (id : ℕ) (final : DispatchState) (over : terminal_dispatch_state final ≡ true) where
  -- A write of a dispatch that is another one or stays settled.
  put_dispatch-Settled :
      (r : Repository) (k : ℕ) (d d' : Dispatch)
      → Settled id final r
      → lookup k r.dispatches ≡ some d
      → (d.state ≡ final → d.recovery_expires_at ≡ 0 → d'.state ≡ final)
      → (d.state ≡ final → d.recovery_expires_at ≡ 0 → d'.recovery_expires_at ≡ 0)
      → Settled id final (with_dispatch k d' r)
  put_dispatch-Settled r k d d' (x, e, f, g) found stays frees = elim (Bool-cases (k == id)) [
    | inl same ↦ (
      d',
      ground (arith, lookup-insert k id d' r.dispatches),
      ground (arith, stays),
      ground (arith, frees),
    )
    | inr other ↦ (x, ground (arith, lookup-insert k id d' r.dispatches), f, g)
  ]

  -- A write under a new identifier.
  add_dispatch-Settled :
      (r : Repository) (k : ℕ) (d : Dispatch)
      → Settled id final r
      → lookup k r.dispatches ≡ none
      → Settled id final (with_dispatch k d r)
  add_dispatch-Settled r k d (x, e, f, g) new =
      (x, ground (arith, lookup-insert k id d r.dispatches), f, g)

  expire_loop-Settled :
      (now : ℕ) (entries : List (ℕ × Reservation)) (count : ℕ) (r : Repository)
      → Settled id final r
      → Settled id final (expire_loop now entries count r).0
  unfolding expire_loop expire_slot
  expire_loop-Settled now [] count r h = h
  expire_loop-Settled now ((k, item) ∷ rest) count r h =
      expire_loop-Settled now rest _ (expire_one now k r).0
        (Cases.expire_one_cases (Settled id final) r h now k (λ x e live. h))

  -- A stored dispatch stands under its name.
  own :
      (r : Repository) (s : Sound r) (k : ℕ) (d d' : Dispatch)
      → Settled id final r
      → lookup k r.dispatches ≡ some d
      → (d.state ≡ final → d.recovery_expires_at ≡ 0 → d'.state ≡ final)
      → (d.state ≡ final → d.recovery_expires_at ≡ 0 → d'.recovery_expires_at ≡ 0)
      → Settled id final (with_dispatch d.dispatch_id d' r)
  own r s k d d' h found =
      put_dispatch-Settled r d.dispatch_id d d' h (cc (s.dispatch_keys k d found))

  -- One step.
  Settled-step :
      (hash : Reservation → Dispatch → ℕ) {r s : Repository}
      → Sound r
      → Settled id final r
      → Step hash r s
      → Settled id final s
  unfolding mark_dispatch_sent mark_dispatch_submit_unknown extend_dispatch identified started
      crossed probe_scheduled accepted_dispatch accept_slot lease_lost abort_noted finished claimed
      advanced resumed closed end_slot with_slot holds_claim expire_reservations
      reconcile_host_health recalculate_host_counters
  Settled-step hash {r} t h (register i c now) =
      Cases.register_host_cases (Settled id final) r h i c now (λ e. h) (λ host e. h)
  Settled-step hash {r} t h (heartbeat i b now) =
      Cases.heartbeat_host_cases (Settled id final) r h i b now (λ host e. h)
  Settled-step hash {r} t h (set_status k status deadline now) =
      Cases.set_host_status_cases (Settled id final) r h k status deadline now (λ host e. h)
  Settled-step hash {r} t h recalculate = h
  Settled-step hash {r} t h (reconcile now unhealthy offline) =
      expire_loop-Settled now r.reservations 0 _ h
  Settled-step hash {r} t h (reserve c now fresh) =
      Cases.try_reserve_slot_cases (Settled id final) r h c now (λ host rest e valid free. h)
  Settled-step hash {r} t h (renew f expires_at now) =
      Cases.renew_reservation_cases (Settled id final) r h f expires_at now (λ item e. h)
        (λ item d e k. own r t item.dispatch_id d _ h k (λ a b. a) (λ a b. b))
  Settled-step hash {r} t h (release f reason last now) =
      Cases.release_reservation_fenced_cases (Settled id final) r h f reason last now
        (λ item e live ended. h)
  Settled-step hash {r} t h (expire now) = expire_loop-Settled now r.reservations 0 r h
  Settled-step hash {r} t h (create d now new) =
      Cases.create_dispatch_cases (Settled id final) r h hash d now
        (λ item e free. add_dispatch-Settled r d.dispatch_id _ h new)
  Settled-step hash {r} t h (send k f now) =
      Cases.mark_dispatch_boundary_cases (Settled id final) r h before_sent DispatchState.sent k f _
        now (λ d e live. put_dispatch-Settled r k d _ h e (λ a b. ground (arith, live)) (λ a b. b))
  Settled-step hash {r} t h (doubt k f next_check now) =
      Cases.mark_dispatch_boundary_cases (Settled id final) r h before_accept
        DispatchState.submit_unknown k f next_check now
        (λ d e live. put_dispatch-Settled r k d _ h e (λ a b. ground (arith, live)) (λ a b. b))
  Settled-step hash {r} t h (confirm c now) =
      Cases.confirm_dispatch_accepted_cases (Settled id final) r h c now
        (t.dispatch_keys c.dispatch_id)
        (λ d e live. own r t c.dispatch_id d _ h e (λ a b. a) (λ a b. b))
        (λ item d e k live early.
          own r t c.dispatch_id d _ h k (λ a b. ground (arith, early)) (λ a b. b))
  Settled-step hash {r} t h (lose k f next_check now) =
      Cases.mark_dispatch_lease_lost_cases (Settled id final) r h k f next_check now
        (λ d check e live.
          put_dispatch-Settled r k d _ h e (λ a b. ground (arith, live)) (λ a b. b))
  Settled-step hash {r} t h (abort k host fencing status now) =
      Cases.mark_dispatch_abort_status_cases (Settled id final) r h k host fencing status now
        (λ d e live. put_dispatch-Settled r k d _ h e (λ a b. a) (λ a b. b))
  Settled-step hash {r} t h (terminate k host fencing status now) =
      Cases.mark_dispatch_terminal_cases (Settled id final) r h k host fencing status now
        (λ d e last live.
          put_dispatch-Settled r k d _ h e
            (λ a b. ground (arith, live, state_eq→eq d.state (normal_terminal status))) (λ a b. b))
  Settled-step hash {r} t h (claim c now) =
      Cases.claim_dispatch_recovery_cases (Settled id final) r h c now (λ d e live.
        own r t c.dispatch_id d _ h e (λ a b. ground (arith, live)) (λ a b. ground (arith, live)))
  Settled-step hash {r} t h (advance c to next_check now) =
      Cases.advance_dispatch_recovery_cases (Settled id final) r h c to next_check now
        (λ d e live. own r t c.dispatch_id d _ h e (λ a b. ground (arith, live)) (λ a b. refl))
  Settled-step hash {r} t h (recover c now) =
      Cases.recover_dispatch_accepted_cases (Settled id final) r h c now
        (λ item d e k live.
          own r t c.claim.dispatch_id d _ h k (λ a b. ground (arith, live)) (λ a b. refl))
        (λ item d e k live unheld.
          own r t c.claim.dispatch_id d _ h k (λ a b. ground (arith, live)) (λ a b. refl))
  Settled-step hash {r} t h (finalize c now) =
      Cases.finalize_dispatch_and_release_slot_cases (Settled id final) r h c now
        (λ d e unfinished.
          own r t c.dispatch_id d _ h e (λ a b. ground (arith, unfinished)) (λ a b. refl))
        (λ item e live. h)
        (λ item d e k unfinished live.
          own r t c.dispatch_id d _ h k (λ a b. ground (arith, unfinished)) (λ a b. refl))

  Settled-Steps :
      (hash : Reservation → Dispatch → ℕ) {r s : Repository}
      → Reach hash r
      → Settled id final r
      → Steps hash r s
      → Reach hash s × Settled id final s
  Settled-Steps hash reached h none_yet = (reached, h)
  Settled-Steps hash reached h (and_then past last) =
      let now = Settled-Steps hash reached h past in
      (step now.0 last, Settled-step hash (Reach-Sound hash now.0) now.1 last)

  -- In a reachable repository a dispatch in a terminal state without a recovery claim keeps that
  -- state, and stays without a claim, through any further steps.
  pub finished-forever :
      (hash : Reservation → Dispatch → ℕ) {r s : Repository}
      → Reach hash r
      → Settled id final r
      → Steps hash r s
      → Settled id final s
  finished-forever hash reached h steps = (Settled-Steps hash reached h steps).1
