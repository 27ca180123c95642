-- ===== src/Hosts/Lifecycle/Versions.antt =====
-- The versions of dispatches under every operation of runtime_host_repository.go and
-- runtime_host_concurrency.go, and what they make of two recovery claims.
use yuex.Prelude.{
  ℕ, ◌+◌, ◌≤◌, ◌<◌, ◌≡◌, ◌≢◌, ◌⊎◌, refl, sym, ◌∙◌, ap, subst, ok, Done, none, some, inl, inr, List,
  [], ◌∷◌, arith, lookup, lookup-insert, ◌==◌, Bool-cases,
}
use yuex.Hosts.Types.{Reservation, Dispatch, Repository, DispatchState, RecoveryClaim}
use yuex.Hosts.Reserve.{with_slot}
use yuex.Hosts.Lease.{
  extend_dispatch, lease_lost, end_slot, expire_slot, expire_one, expire_loop, expire_reservations,
}
use yuex.Hosts.Dispatches.{
  crossed, abort_noted, finished, before_sent, before_accept, mark_dispatch_sent,
  mark_dispatch_submit_unknown, identified, started,
}
use yuex.Hosts.Accept.{probe_scheduled, accepted_dispatch, accept_slot}
use yuex.Hosts.Recovery.{claim_dispatch_recovery, claimed, advanced, resumed, closed, holds_claim}
use yuex.Hosts.Registry.{reconcile_host_health, recalculate_host_counters}
use yuex.Hosts.Cases
use yuex.Hosts.Cases.{with_dispatch}
use yuex.Hosts.System.{
  Step, Reach, Steps, none_yet, and_then, register, heartbeat, set_status, recalculate, reconcile,
  reserve, renew, release, expire, create, send, doubt, confirm, lose, abort, terminate, claim,
  advance, recover, finalize, step,
}
use yuex.Hosts.System.Keeps.{Sound}
use yuex.Hosts.System.Invariants.{Reach-Sound}
use yuex.Hosts.Lifecycle.Claims.{claim-ok, claim-held, claim-moved}

-- A stored dispatch with the version `v` and the claim of `owner` until `expiry`, or a later version.
abbrev pub Tracked : ℕ → ℕ → ℕ → ℕ → Repository → Type 0
Tracked id v owner expiry r =
    (d : Dispatch) × (lookup id r.dispatches ≡ some d)
    × ((v < d.version)
        ⊎ ((d.version ≡ v)
            × (d.recovery_owner_instance_id ≡ owner)
            × (d.recovery_expires_at ≡ expiry)))

-- A write raises the version, or leaves the version and the claim.
abbrev Later : Dispatch → Dispatch → Type 0
Later d d' =
    (d.version < d'.version)
    ⊎ ((d'.version ≡ d.version)
        × (d'.recovery_owner_instance_id ≡ d.recovery_owner_instance_id)
        × (d'.recovery_expires_at ≡ d.recovery_expires_at))

module _ (id v owner expiry : ℕ) where
  -- A later write of a dispatch.
  put_dispatch-Tracked :
      (r : Repository) (k : ℕ) (d d' : Dispatch)
      → Tracked id v owner expiry r
      → lookup k r.dispatches ≡ some d
      → Later d d'
      → Tracked id v owner expiry (with_dispatch k d' r)
  put_dispatch-Tracked r k d d' (x, e, from) found later = elim (Bool-cases (k == id)) [
    | inr other ↦ (x, ground (arith, lookup-insert k id d' r.dispatches), from)
    | inl same ↦
        let here : x ≡ d = ground (arith, e, found) in
        (
          d',
          ground (arith, lookup-insert k id d' r.dispatches),
          ground (arith, from, later, ap (λ (y : Dispatch). y.version) here, here),
        )
  ]

  -- A write under a new identifier.
  add_dispatch-Tracked :
      (r : Repository) (k : ℕ) (d : Dispatch)
      → Tracked id v owner expiry r
      → lookup k r.dispatches ≡ none
      → Tracked id v owner expiry (with_dispatch k d r)
  add_dispatch-Tracked r k d (x, e, from) new =
      (x, ground (arith, lookup-insert k id d r.dispatches), from)

  expire_loop-Tracked :
      (now : ℕ) (entries : List (ℕ × Reservation)) (count : ℕ) (r : Repository)
      → Tracked id v owner expiry r
      → Tracked id v owner expiry (expire_loop now entries count r).0
  unfolding expire_loop expire_slot
  expire_loop-Tracked now [] count r h = h
  expire_loop-Tracked now ((k, item) ∷ rest) count r h =
      expire_loop-Tracked now rest _ (expire_one now k r).0
        (Cases.expire_one_cases (Tracked id v owner expiry) r h now k (λ x e live. h))

  -- A stored dispatch stands under its name.
  own :
      (r : Repository) (s : Sound r) (k : ℕ) (d d' : Dispatch)
      → Tracked id v owner expiry r
      → lookup k r.dispatches ≡ some d
      → Later d d'
      → Tracked id v owner expiry (with_dispatch d.dispatch_id d' r)
  own r s k d d' h found =
      put_dispatch-Tracked r d.dispatch_id d d' h (cc (s.dispatch_keys k d found))

  -- One step.
  Tracked-step :
      (hash : Reservation → Dispatch → ℕ) {r s : Repository}
      → Sound r
      → Tracked id v owner expiry r
      → Step hash r s
      → Tracked id v owner expiry s
  unfolding mark_dispatch_sent mark_dispatch_submit_unknown extend_dispatch identified started
      crossed probe_scheduled accepted_dispatch accept_slot lease_lost abort_noted finished claimed
      advanced resumed closed end_slot with_slot holds_claim expire_reservations
      reconcile_host_health recalculate_host_counters
  Tracked-step hash {r} t h (register i c now) =
      Cases.register_host_cases (Tracked id v owner expiry) r h i c now (λ e. h) (λ host e. h)
  Tracked-step hash {r} t h (heartbeat i b now) =
      Cases.heartbeat_host_cases (Tracked id v owner expiry) r h i b now (λ host e. h)
  Tracked-step hash {r} t h (set_status k status deadline now) =
      Cases.set_host_status_cases (Tracked id v owner expiry) r h k status deadline now
        (λ host e. h)
  Tracked-step hash {r} t h recalculate = h
  Tracked-step hash {r} t h (reconcile now unhealthy offline) =
      expire_loop-Tracked now r.reservations 0 _ h
  Tracked-step hash {r} t h (reserve c now fresh) =
      Cases.try_reserve_slot_cases (Tracked id v owner expiry) r h c now
        (λ host rest e valid free. h)
  Tracked-step hash {r} t h (renew f expires_at now) =
      Cases.renew_reservation_cases (Tracked id v owner expiry) r h f expires_at now (λ item e. h)
        (λ item d e k. own r t item.dispatch_id d _ h k (inl (omega arith)))
  Tracked-step hash {r} t h (release f reason last now) =
      Cases.release_reservation_fenced_cases (Tracked id v owner expiry) r h f reason last now
        (λ item e live ended. h)
  Tracked-step hash {r} t h (expire now) = expire_loop-Tracked now r.reservations 0 r h
  Tracked-step hash {r} t h (create d now new) =
      Cases.create_dispatch_cases (Tracked id v owner expiry) r h hash d now
        (λ item e free. add_dispatch-Tracked r d.dispatch_id _ h new)
  Tracked-step hash {r} t h (send k f now) =
      Cases.mark_dispatch_boundary_cases (Tracked id v owner expiry) r h before_sent
        DispatchState.sent k f _ now
        (λ d e live. put_dispatch-Tracked r k d _ h e (inl (omega arith)))
  Tracked-step hash {r} t h (doubt k f next_check now) =
      Cases.mark_dispatch_boundary_cases (Tracked id v owner expiry) r h before_accept
        DispatchState.submit_unknown k f next_check now
        (λ d e live. put_dispatch-Tracked r k d _ h e (inl (omega arith)))
  Tracked-step hash {r} t h (confirm c now) =
      Cases.confirm_dispatch_accepted_cases (Tracked id v owner expiry) r h c now
        (t.dispatch_keys c.dispatch_id)
        (λ d e live. own r t c.dispatch_id d _ h e (inl (omega arith)))
        (λ item d e k live early. own r t c.dispatch_id d _ h k (inl (omega arith)))
  Tracked-step hash {r} t h (lose k f next_check now) =
      Cases.mark_dispatch_lease_lost_cases (Tracked id v owner expiry) r h k f next_check now
        (λ d check e live. put_dispatch-Tracked r k d _ h e (inl (omega arith)))
  Tracked-step hash {r} t h (abort k host fencing status now) =
      Cases.mark_dispatch_abort_status_cases (Tracked id v owner expiry) r h k host fencing status
        now (λ d e live. put_dispatch-Tracked r k d _ h e (inr (refl, refl, refl)))
  Tracked-step hash {r} t h (terminate k host fencing status now) =
      Cases.mark_dispatch_terminal_cases (Tracked id v owner expiry) r h k host fencing status now
        (λ d e last live. put_dispatch-Tracked r k d _ h e (inr (refl, refl, refl)))
  Tracked-step hash {r} t h (claim c now) =
      Cases.claim_dispatch_recovery_cases (Tracked id v owner expiry) r h c now
        (λ d e live. own r t c.dispatch_id d _ h e (inl (omega arith)))
  Tracked-step hash {r} t h (advance c to next_check now) =
      Cases.advance_dispatch_recovery_cases (Tracked id v owner expiry) r h c to next_check now
        (λ d e live. own r t c.dispatch_id d _ h e (inl (omega arith)))
  Tracked-step hash {r} t h (recover c now) =
      Cases.recover_dispatch_accepted_cases (Tracked id v owner expiry) r h c now
        (λ item d e k live. own r t c.claim.dispatch_id d _ h k (inl (omega arith)))
        (λ item d e k live unheld. own r t c.claim.dispatch_id d _ h k (inl (omega arith)))
  Tracked-step hash {r} t h (finalize c now) =
      Cases.finalize_dispatch_and_release_slot_cases (Tracked id v owner expiry) r h c now
        (λ d e unfinished. own r t c.dispatch_id d _ h e (inl (omega arith))) (λ item e live. h)
        (λ item d e k unfinished live. own r t c.dispatch_id d _ h k (inl (omega arith)))

  Tracked-Steps :
      (hash : Reservation → Dispatch → ℕ) {r s : Repository}
      → Reach hash r
      → Tracked id v owner expiry r
      → Steps hash r s
      → Reach hash s × Tracked id v owner expiry s
  Tracked-Steps hash reached h none_yet = (reached, h)
  Tracked-Steps hash reached h (and_then past last) =
      let now = Tracked-Steps hash reached h past in
      (step now.0 last, Tracked-step hash (Reach-Sound hash now.0) now.1 last)

  pub Steps-Tracked :
      (hash : Reservation → Dispatch → ℕ) {r s : Repository}
      → Reach hash r
      → Tracked id v owner expiry r
      → Steps hash r s
      → Tracked id v owner expiry s
  Steps-Tracked hash reached h steps = (Tracked-Steps hash reached h steps).1

module _ (hash : Reservation → Dispatch → ℕ) (c : RecoveryClaim) (now : ℕ) (r s u : Repository)
    (reached : Reach hash r) (granted : claim_dispatch_recovery c now r ≡ (s, ok tt))
    (steps : Steps hash s u) where
  -- The dispatch of a granted claim, after any steps.
  granted-Tracked :
      Tracked c.dispatch_id (c.expected_version + 1) c.owner_instance_id c.expires_at u
  unfolding claimed
  granted-Tracked =
      let (d, e, after, v, key, owner, fencing) =
        claim-ok c now r s (Reach-Sound hash reached) granted in
      let at_s : Reach hash s =
        subst (λ (x : Repository × Done). Reach hash x.0) granted (step reached (claim c now)) in
      Steps-Tracked c.dispatch_id (c.expected_version + 1) c.owner_instance_id c.expires_at hash
        at_s (claimed c now d, after, inr (omega (arith, v), refl, refl)) steps

-- Once ClaimDispatchRecovery has granted a claim in a repository that steps reach, then after any
-- further steps, the holder's too, it grants no other owner a claim of the same dispatch at a time before
-- that claim runs out, where the other owner expects no later version of the dispatch than the one that
-- the grant left: the call fails and changes nothing.
pub claim-excludes :
    (hash : Reservation → Dispatch → ℕ) (c c' : RecoveryClaim) (now later : ℕ) (r s u : Repository)
    → Reach hash r
    → claim_dispatch_recovery c now r ≡ (s, ok tt)
    → Steps hash s u
    → c'.dispatch_id ≡ c.dispatch_id
    → c'.owner_instance_id ≢ c.owner_instance_id
    → c'.expected_version ≤ c.expected_version + 1
    → later < c.expires_at
    → ((claim_dispatch_recovery c' later u).1 ≢ ok tt)
      × ((claim_dispatch_recovery c' later u).0 ≡ u)
claim-excludes hash c c' now later r s u reached granted steps same other version early =
    let (d, e, from) = granted-Tracked hash c now r s u reached granted steps in
    elim from [
      | inl past ↦ claim-moved c' later u d (rw same e) (λ k. omega (arith, k, version, past))
      | inr (at_v, owned, until) ↦
          claim-held c' later u d (rw same e) (omega (arith, early, until))
            (λ k. other (sym k ∙ owned))
    ]

-- Two claims that expect the same version of a dispatch are not both granted: once one has been
-- granted in a repository that steps reach, then after any further steps the other one fails and
-- changes nothing, whoever makes it and however late.
pub claim-consumes_version :
    (hash : Reservation → Dispatch → ℕ) (c c' : RecoveryClaim) (now later : ℕ) (r s u : Repository)
    → Reach hash r
    → claim_dispatch_recovery c now r ≡ (s, ok tt)
    → Steps hash s u
    → c'.dispatch_id ≡ c.dispatch_id
    → c'.expected_version ≡ c.expected_version
    → ((claim_dispatch_recovery c' later u).1 ≢ ok tt)
      × ((claim_dispatch_recovery c' later u).0 ≡ u)
claim-consumes_version hash c c' now later r s u reached granted steps same version =
    let (d, e, from) = granted-Tracked hash c now r s u reached granted steps in
    claim-moved c' later u d (rw same e) (elim from [
      | inl past ↦ λ k. omega (arith, k, version, past)
      | inr (at_v, owned, until) ↦ λ k. omega (arith, k, version, at_v)
    ])
