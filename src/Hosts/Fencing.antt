-- ===== src/Hosts/Fencing.antt =====
-- Fencing: what a stale fence and an ended slot can no longer do, and what the expiry sweep spares.
pub mod Expiry
use yuex.Prelude.{
  ℕ, ◌≤◌, ◌<◌, ◌≡◌, ◌≢◌, ◌⊎◌, not, ◌&&◌, Bool-cases, invalid_argument, refl, Bool, true, false,
  none, some, inl, inr, arith, lookup, insert, Option-cases, lookup-insert_self, ok, err, ◌||◌,
  is_zero,
}
use yuex.Hosts.Types.{
  Reservation, Dispatch, Repository, Fence, AcceptedCommand, TerminalCommand,
  RecoveryAcceptedCommand, ReservationState, active_reservation_state,
}
use yuex.Hosts.Store.{reservation_fence_matches, fence_is_complete}
use yuex.Hosts.Lease.{
  renew_reservation, release_reservation_fenced, extend_lease, extend_dispatch, ended_state,
}
use yuex.Hosts.Accept.{confirm_dispatch_accepted, validate_confirm, apply_confirm}
use yuex.Hosts.Recovery.{recover_dispatch_accepted, finalize_dispatch_and_release_slot}
use yuex.Hosts.System.Keeps.{Sound}

stale-renew :
    (f : Fence) (item : Reservation) (r : Repository)
    → lookup f.reservation_id r.reservations ≡ some item
    → reservation_fence_matches item f ≡ false
    → (expires_at now : ℕ)
    → ((renew_reservation f expires_at now r).0 ≡ r)
      × ((renew_reservation f expires_at now r).1 ≢ ok tt)
unfolding renew_reservation
stale-renew f item r e stale expires_at now = (ground (arith, e), (λ k. ground (arith, e, k)))

stale-release :
    (f : Fence) (item : Reservation) (r : Repository)
    → lookup f.reservation_id r.reservations ≡ some item
    → reservation_fence_matches item f ≡ false
    → (reason : ℕ) (final : ReservationState) (now : ℕ)
    → ((release_reservation_fenced f reason final now r).0 ≡ r)
      × ((b : Bool) → (release_reservation_fenced f reason final now r).1 ≢ ok b)
unfolding release_reservation_fenced
stale-release f item r e stale reason final now = (ground (arith, e), (λ b k. ground (arith, e, k)))

stale-confirm :
    (c : AcceptedCommand) (item : Reservation) (r : Repository)
    → lookup c.fence.reservation_id r.reservations ≡ some item
    → reservation_fence_matches item c.fence ≡ false
    → (now : ℕ)
    → ((confirm_dispatch_accepted c now r).0 ≡ r) × ((confirm_dispatch_accepted c now r).1 ≢ ok tt)
unfolding confirm_dispatch_accepted validate_confirm
stale-confirm c item r e stale now = elim (Option-cases (lookup c.dispatch_id r.dispatches)) [
  | inl n ↦ (ground (arith, e), λ k. ground (arith, e, k))
  | inr (d, n) ↦ (ground (arith, e), λ k. ground (arith, e, k))
]

stale-recover :
    (c : RecoveryAcceptedCommand) (item : Reservation) (r : Repository)
    → lookup c.fence.reservation_id r.reservations ≡ some item
    → reservation_fence_matches item c.fence ≡ false
    → (now : ℕ)
    → ((recover_dispatch_accepted c now r).0 ≡ r) × ((recover_dispatch_accepted c now r).1 ≢ ok tt)
unfolding recover_dispatch_accepted
stale-recover c item r e stale now = elim (Option-cases (lookup c.claim.dispatch_id r.dispatches)) [
  | inl n ↦ (ground (arith, e), λ k. ground (arith, e, k))
  | inr (d, n) ↦ (ground (arith, e), λ k. ground (arith, e, k))
]

stale-finalize :
    (c : TerminalCommand) (item : Reservation) (r : Repository)
    → lookup c.fence.reservation_id r.reservations ≡ some item
    → reservation_fence_matches item c.fence ≡ false
    → (now : ℕ)
    → ((finalize_dispatch_and_release_slot c now r).0 ≡ r)
      × ((finalize_dispatch_and_release_slot c now r).1 ≢ ok tt)
unfolding finalize_dispatch_and_release_slot
stale-finalize c item r e stale now = elim (Option-cases (lookup c.dispatch_id r.dispatches)) [
  | inl n ↦ (ground (arith, e), λ k. ground (arith, e, k))
  | inr (d, n) ↦ (ground (arith, e), λ k. ground (arith, e, k))
]

-- A fence that does not match the stored reservation, an old owner's for example, can do nothing
-- with it: renewing, releasing, confirming, recovering and finalizing all fail and leave the
-- repository as it was.
pub stale-fence_refused :
    (f : Fence) (item : Reservation) (r : Repository)
    → lookup f.reservation_id r.reservations ≡ some item
    → reservation_fence_matches item f ≡ false
    → (expires_at now reason : ℕ) (final : ReservationState) (c : AcceptedCommand)
      (t : TerminalCommand) (v : RecoveryAcceptedCommand)
    → c.fence ≡ f
    → t.fence ≡ f
    → v.fence ≡ f
    → (((renew_reservation f expires_at now r).0 ≡ r)
        × ((renew_reservation f expires_at now r).1 ≢ ok tt))
      × (((release_reservation_fenced f reason final now r).0 ≡ r)
          × ((b : Bool) → (release_reservation_fenced f reason final now r).1 ≢ ok b))
      × (((confirm_dispatch_accepted c now r).0 ≡ r)
          × ((confirm_dispatch_accepted c now r).1 ≢ ok tt))
      × (((recover_dispatch_accepted v now r).0 ≡ r)
          × ((recover_dispatch_accepted v now r).1 ≢ ok tt))
      × (((finalize_dispatch_and_release_slot t now r).0 ≡ r)
          × ((finalize_dispatch_and_release_slot t now r).1 ≢ ok tt))
stale-fence_refused f item r e stale expires_at now reason final c t v same same' same'' = (
  stale-renew f item r e stale expires_at now,
  stale-release f item r e stale reason final now,
  stale-confirm c item r (rw same e) (rw same stale) now,
  stale-recover v item r (rw same'' e) (rw same'' stale) now,
  stale-finalize t item r (rw same' e) (rw same' stale) now,
)

-- A reservation that has ended stays ended: under its own fence a renewal fails, a release answers that
-- there was nothing to free, or that its arguments are invalid, and neither changes anything.
pub ended-stays :
    (f : Fence) (item : Reservation) (r : Repository)
    → lookup f.reservation_id r.reservations ≡ some item
    → reservation_fence_matches item f ≡ true
    → active_reservation_state item.state ≡ false
    → (expires_at now reason : ℕ) (final : ReservationState)
    → (((renew_reservation f expires_at now r).0 ≡ r)
        × ((renew_reservation f expires_at now r).1 ≢ ok tt))
      × ((release_reservation_fenced f reason final now r ≡ (r, ok false))
          ⊎ (release_reservation_fenced f reason final now r ≡ (r, err invalid_argument)))
unfolding renew_reservation release_reservation_fenced
ended-stays f item r e own dead expires_at now reason final = (
  (ground (arith, e), λ k. ground (arith, e, k)),
  elim (Bool-cases (fence_is_complete f && not (is_zero reason) && ended_state final)) [
    | inl g ↦ inl (ground (arith, e))
    | inr g ↦ inr (ground (arith, e))
  ],
)

renewal-stored :
    (f : Fence) (expires_at now : ℕ) (r s : Repository)
    → Sound r
    → renew_reservation f expires_at now r ≡ (s, ok tt)
    → (item : Reservation) → lookup f.reservation_id r.reservations ≡ some item
    → lookup f.reservation_id s.reservations ≡ some (extend_lease expires_at now item)
unfolding renew_reservation
renewal-stored f expires_at now r s h done item e =
    elim (Option-cases (lookup item.dispatch_id r.dispatches)) [
      | inl n ↦ ground (
        arith,
        done,
        h.balanced.item_keys f.reservation_id item e,
        lookup-insert_self f.reservation_id (extend_lease expires_at now item) r.reservations,
      )
      | inr (d, n) ↦ ground (
        arith,
        done,
        h.balanced.item_keys f.reservation_id item e,
        lookup-insert_self f.reservation_id (extend_lease expires_at now item) r.reservations,
      )
    ]

-- A renewal succeeds only for an active reservation that has not run out, under its own fence, and
-- then stores the new expiry with the next version.
pub renew-extends :
    (f : Fence) (expires_at now : ℕ) (r s : Repository)
    → Sound r
    → renew_reservation f expires_at now r ≡ (s, ok tt)
    → (item : Reservation) × (lookup f.reservation_id r.reservations ≡ some item)
      × (reservation_fence_matches item f ≡ true)
      × (active_reservation_state item.state ≡ true)
      × (now < item.expires_at)
      × (lookup f.reservation_id s.reservations ≡ some (extend_lease expires_at now item))
unfolding renew_reservation
renew-extends f expires_at now r s h done =
    elim (Option-cases (lookup f.reservation_id r.reservations)) [
      | inl e ↦ absurd (ground (arith, done))
      | inr (item, e) ↦ (
        item,
        e,
        ground (arith, done),
        ground (arith, done),
        ground (arith, done),
        renewal-stored f expires_at now r s h done item e,
      )
    ]
