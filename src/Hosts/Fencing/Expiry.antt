-- ===== src/Hosts/Fencing/Expiry.antt =====
-- ExpireReservations: which reservations the sweep ends, and which it spares.
use yuex.Prelude.{
  ℕ, ◌≡◌, ◌≢◌, refl, sym, subst, ==→eq, Bool, true, false, none, some, inl, inr, List, [], ◌∷◌,
  arith, Map, lookup, Option-cases, Bool-cases, lookup-insert, ◌==◌, ◌&&◌, not, leb,
}
use yuex.Hosts.Types.{Reservation, Dispatch, Repository, is_reserved}
use yuex.Hosts.Lease.{
  is_protected, expire_slot, expired_item, expire_one, expire_loop, expire_reservations,
}

-- The test of one round.
abbrev pub expires : ℕ → Reservation → Map Dispatch → Bool
expires now item dispatches =
    is_reserved item.state
    && leb item.expires_at now
    && not (is_protected item.reservation_id dispatches)

-- The sweep does not write dispatches, so the test means the same in every round.
expire_one-dispatches :
    (now id : ℕ) (r : Repository) → (expire_one now id r).0.dispatches ≡ r.dispatches
unfolding expire_one expire_slot
expire_one-dispatches now id r = elim (Option-cases (lookup id r.reservations)) [
  | inl e ↦ ground arith
  | inr (item, e) ↦ ground (arith, e)
]

-- One round, seen from every reservation.
expire_one-spares :
    (now k id : ℕ) (r : Repository) (item : Reservation)
    → lookup id r.reservations ≡ some item
    → expires now item r.dispatches ≡ false
    → lookup id (expire_one now k r).0.reservations ≡ some item
unfolding expire_one expire_slot
expire_one-spares now k id r item e spared = elim (Option-cases (lookup k r.reservations)) [
  | inl n ↦ ground (arith, e)
  | inr (x, n) ↦ ground (arith, e, n, lookup-insert k id (expired_item now x) r.reservations)
]

expire_loop-spares :
    (now : ℕ) (entries : List (ℕ × Reservation)) (count id : ℕ) (r : Repository)
    (item : Reservation)
    → lookup id r.reservations ≡ some item
    → expires now item r.dispatches ≡ false
    → lookup id (expire_loop now entries count r).0.reservations ≡ some item
unfolding expire_loop
expire_loop-spares now [] count id r item e spared = e
expire_loop-spares now ((k, x) ∷ rest) count id r item e spared =
    expire_loop-spares now rest _ id (expire_one now k r).0 item
      (expire_one-spares now k id r item e spared) (rw (expire_one-dispatches now k r) spared)

-- The sweep leaves a reservation exactly as it was if it is not in the state reserved, has not run
-- out, or is protected: there is a dispatch of the reservation in an active state other than created.
pub expire-spares :
    (now id : ℕ) (r : Repository) (item : Reservation)
    → lookup id r.reservations ≡ some item
    → expires now item r.dispatches ≡ false
    → lookup id (expire_reservations now r).0.reservations ≡ some item
unfolding expire_reservations
expire-spares now id r item e spared = expire_loop-spares now r.reservations 0 id r item e spared

-- One round ends its reservation, and no round changes an ended one.
expire_one-ends :
    (now id : ℕ) (r : Repository) (item : Reservation)
    → lookup id r.reservations ≡ some item
    → expires now item r.dispatches ≡ true
    → lookup id (expire_one now id r).0.reservations ≡ some (expired_item now item)
unfolding expire_one expire_slot
expire_one-ends now id r item e due =
    ground (arith, e, due, lookup-insert id id (expired_item now item) r.reservations)

expire_one-other :
    (now k id : ℕ) (r : Repository)
    → (k == id) ≡ false
    → lookup id (expire_one now k r).0.reservations ≡ lookup id r.reservations
unfolding expire_one expire_slot
expire_one-other now k id r other = elim (Option-cases (lookup k r.reservations)) [
  | inl n ↦ ground (arith, n)
  | inr (x, n) ↦ ground (arith, n, other, lookup-insert k id (expired_item now x) r.reservations)
]

expire_loop-ends :
    (now : ℕ) (entries : List (ℕ × Reservation)) (count id : ℕ) (r : Repository)
    (item : Reservation)
    → lookup id entries ≢ none
    → lookup id r.reservations ≡ some item
    → expires now item r.dispatches ≡ true
    → lookup id (expire_loop now entries count r).0.reservations ≡ some (expired_item now item)
unfolding expire_loop lookup expired_item
expire_loop-ends now [] count id r item here e due = absurd (here refl)
expire_loop-ends now ((k, x) ∷ rest) count id r item here e due = elim (Bool-cases (k == id)) [
  | inl same ↦
      expire_loop-spares now rest _ id (expire_one now k r).0 (expired_item now item)
        (subst (λ j. lookup id (expire_one now j r).0.reservations ≡ some (expired_item now item))
          (sym (==→eq k id same)) (expire_one-ends now id r item e due))
        refl
  | inr other ↦
      expire_loop-ends now rest _ id (expire_one now k r).0 item
        (λ n. here (ground (arith, n, other)))
        (ground (arith, e, expire_one-other now k id r other))
        (rw (expire_one-dispatches now k r) due)
]

-- The sweep ends every reservation that is reserved, has run out and is not protected: each dispatch of
-- the reservation, if there is one, is in the state created or in a state that is not active.
pub expire-ends :
    (now id : ℕ) (r : Repository) (item : Reservation)
    → lookup id r.reservations ≡ some item
    → expires now item r.dispatches ≡ true
    → lookup id (expire_reservations now r).0.reservations ≡ some (expired_item now item)
unfolding expire_reservations
expire-ends now id r item e due =
    expire_loop-ends now r.reservations 0 id r item (λ n. ground (arith, e, n)) e due
