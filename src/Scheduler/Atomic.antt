-- ===== src/Scheduler/Atomic.antt =====
-- acceptMemory of runtime_scheduler.go: the acceptance over both repositories.
use yuex.Prelude.{
  ℕ, ◌≡◌, ◌⊎◌, ◌↔◌, refl, inl, inr, arith, Map, lookup, insert, Option-cases, Bool-cases, ErrorCode,
  ok, err, Done, true, some, subst, is_zero, ◌&&◌, ◌==◌,
}
use yuex.Hosts.Types.{Dispatch, Repository, AcceptedCommand}
use yuex.Hosts.Store.{reservation_fence_matches, dispatch_binding_matches}
use yuex.Hosts.Accept.{
  validate_confirm, confirm_dispatch_accepted, schedule_probe, probe_scheduled, is_accepted,
  is_accepted_dispatch, accepted_command_is_complete,
}
use yuex.Hosts.Lifecycle.Repeats.{confirm-repeats}
use yuex.Hosts.System.Keeps.{Sound}
use yuex.Capacity.{CapacityReservation, commit_accepted_memory}
use yuex.Capacity.Generations.{Named, commit-repeats}
use yuex.Scheduler.{Books, accept_memory}

-- A call succeeded or failed.
done-cases {ℓ} :
    {S : Type ℓ} (p : S × Done)
    → ((s : S) × (p ≡ (s, ok tt))) ⊎ ((s : S) × (e : ErrorCode) × (p ≡ (s, err e)))
done-cases (s, ok done) = inl (s, refl)
done-cases (s, err e) = inr (s, e, refl)

-- A successful acceptance is a successful commit together with a successful confirmation.
accept-parts :
    (item : CapacityReservation) (c : AcceptedCommand) (now : ℕ) (b b' : Books)
    → accept_memory item c now b ≡ (b', ok tt)
    → (commit_accepted_memory item now b.capacity ≡ (b'.capacity, ok tt))
      × (confirm_dispatch_accepted c now b.hosts ≡ (b'.hosts, ok tt))
unfolding accept_memory confirm_dispatch_accepted
accept-parts item c now b b' done = elim (done-cases (validate_confirm c now b.hosts)) [
  | inl (h, v) ↦ elim (done-cases (commit_accepted_memory item now b.capacity)) [
    | inl (m, k) ↦ (ground (arith, done, v, k), ground (arith, done, v, k))
    | inr (m, e, k) ↦ absurd (ground (arith, done, v, k))
  ]
  | inr (h, e, v) ↦ absurd (ground (arith, done, v))
]

-- The converse.
accept-join :
    (item : CapacityReservation) (c : AcceptedCommand) (now : ℕ) (b b' : Books)
    → commit_accepted_memory item now b.capacity ≡ (b'.capacity, ok tt)
    → confirm_dispatch_accepted c now b.hosts ≡ (b'.hosts, ok tt)
    → accept_memory item c now b ≡ (b', ok tt)
unfolding accept_memory confirm_dispatch_accepted
accept-join item c now b b' m h = elim (done-cases (validate_confirm c now b.hosts)) [
  | inl (x, v) ↦ ground (arith, m, h, v)
  | inr (x, e, v) ↦ absurd (ground (arith, h, v))
]

-- An acceptance succeeds exactly when the capacity commit and the confirmation of the dispatch would
-- each succeed on their own, and then it leaves what the two leave.
pub accept-both :
    (item : CapacityReservation) (c : AcceptedCommand) (now : ℕ) (b b' : Books)
    → (accept_memory item c now b ≡ (b', ok tt)) ↔ (
        (commit_accepted_memory item now b.capacity ≡ (b'.capacity, ok tt))
        × (confirm_dispatch_accepted c now b.hosts ≡ (b'.hosts, ok tt)))
accept-both item c now b b' =
    (accept-parts item c now b b', λ p. accept-join item c now b b' p.0 p.1)

-- A failed commit changes no capacity.
commit-refusal_keeps :
    (item : CapacityReservation) (now : ℕ) (items items' : Map CapacityReservation) (e : ErrorCode)
    → commit_accepted_memory item now items ≡ (items', err e)
    → items' ≡ items
unfolding commit_accepted_memory
commit-refusal_keeps item now items items' e refused =
    elim (Option-cases (lookup item.reservation_id items)) [
      | inl n ↦ ground (arith, refused)
      | inr (x, n) ↦ ground (arith, refused)
    ]

-- The dispatches are as they were, or an accepted one has got the time of its first probe.
abbrev pub Probed : AcceptedCommand → ℕ → Map Dispatch → Map Dispatch → Type 0
Probed c now before after =
    (after ≡ before)
    ⊎ ((d : Dispatch) × (lookup c.dispatch_id before ≡ some d)
        × (is_accepted_dispatch d.state ≡ true)
        × (d.next_recovery_check_at ≡ 0)
        × (after ≡ insert d.dispatch_id (probe_scheduled now d) before))

-- A validation writes no host and no reservation.
validate-keeps :
    (c : AcceptedCommand) (now : ℕ) (r : Repository)
    → ((validate_confirm c now r).0.hosts ≡ r.hosts)
      × ((validate_confirm c now r).0.reservations ≡ r.reservations)
      × ((validate_confirm c now r).0.active_reservation_by_run ≡ r.active_reservation_by_run)
unfolding validate_confirm schedule_probe
validate-keeps c now r = elim (Option-cases (lookup c.fence.reservation_id r.reservations)) [
  | inl n ↦ (ground arith, ground arith, ground arith)
  | inr (item, n) ↦ elim (Option-cases (lookup c.dispatch_id r.dispatches)) [
    | inl m ↦ (ground arith, ground arith, ground arith)
    | inr (d, m) ↦ (ground arith, ground arith, ground arith)
  ]
]

-- A validation writes no dispatch but an accepted one without a time for its first probe.
validate-probes :
    (c : AcceptedCommand) (now : ℕ) (r : Repository)
    → Probed c now r.dispatches (validate_confirm c now r).0.dispatches
unfolding validate_confirm schedule_probe
validate-probes c now r = elim (Option-cases (lookup c.fence.reservation_id r.reservations)) [
  | inl n ↦ inl (ground arith)
  | inr (item, n) ↦ elim (Option-cases (lookup c.dispatch_id r.dispatches)) [
    | inl m ↦ inl (ground arith)
    | inr (d, m) ↦ elim (Bool-cases (is_accepted_dispatch d.state)) [
      | inr f ↦ inl (ground arith)
      | inl f ↦ elim (Bool-cases (is_zero d.next_recovery_check_at)) [
        | inr g ↦ inl (ground arith)
        | inl g ↦
            elim (Bool-cases (
              accepted_command_is_complete c
              && reservation_fence_matches item c.fence
              && dispatch_binding_matches d c.fence
              && is_accepted item.state
              && item.dispatch_id == c.dispatch_id
              && d.runtime_request_id == c.runtime_request_id)) [
                | inr k ↦ inl (ground arith)
                | inl k ↦ inr (d, m, f, ground (arith, g), ground arith)
              ]
      ]
    ]
  ]
]

-- A failed acceptance changes no capacity reservation, no host and no slot. Of the dispatches it
-- changes none, or it stores anew, under its own name, the one that the command found, where that
-- had been accepted without a time for its first probe: the probe is then scheduled.
pub accept-fails_whole :
    (item : CapacityReservation) (c : AcceptedCommand) (now : ℕ) (b b' : Books) (e : ErrorCode)
    → accept_memory item c now b ≡ (b', err e)
    → (b'.capacity ≡ b.capacity)
      × (b'.hosts.hosts ≡ b.hosts.hosts)
      × (b'.hosts.reservations ≡ b.hosts.reservations)
      × (b'.hosts.active_reservation_by_run ≡ b.hosts.active_reservation_by_run)
      × Probed c now b.hosts.dispatches b'.hosts.dispatches
unfolding accept_memory
accept-fails_whole item c now b b' e failed =
    let (keeps_hosts, keeps_items, keeps_runs) = validate-keeps c now b.hosts in
    let probed = validate-probes c now b.hosts in
    elim (done-cases (validate_confirm c now b.hosts)) [
      | inl (h, v) ↦ elim (done-cases (commit_accepted_memory item now b.capacity)) [
        | inl (m, k) ↦ absurd (ground (arith, failed, v, k))
        | inr (m, x, k) ↦
            let same : h.dispatches ≡ b'.hosts.dispatches = ground (arith, failed, v, k) in
            (
              ground (arith, failed, v, k, commit-refusal_keeps item now b.capacity m x k),
              ground (arith, failed, v, k),
              ground (arith, failed, v, k),
              ground (arith, failed, v, k),
              subst (Probed c now b.hosts.dispatches) same (
                  subst (λ (y : Repository × Done). Probed c now b.hosts.dispatches y.0.dispatches)
                    v probed),
            )
      ]
      | inr (h, x, v) ↦
          let same : h.dispatches ≡ b'.hosts.dispatches = ground (arith, failed, v) in
          (
            ground (arith, failed, v),
            ground (arith, failed, v),
            ground (arith, failed, v),
            ground (arith, failed, v),
            subst (Probed c now b.hosts.dispatches) same (
                subst (λ (y : Repository × Done). Probed c now b.hosts.dispatches y.0.dispatches) v
                  probed),
          )
    ]

-- An acceptance can be repeated: in the state that a successful acceptance leaves, the same call
-- succeeds, whatever the clock says by then, and changes nothing in either repository.
pub accept-repeats :
    (item : CapacityReservation) (c : AcceptedCommand) (now later : ℕ) (b b' : Books)
    → Sound b.hosts
    → Named b.capacity
    → accept_memory item c now b ≡ (b', ok tt)
    → accept_memory item c later b' ≡ (b', ok tt)
accept-repeats item c now later b b' h named done =
    let (m, k) = accept-parts item c now b b' done in
    accept-join item c later b' b' (commit-repeats item now later b.capacity b'.capacity named m)
      (confirm-repeats c now later b.hosts b'.hosts h k)
