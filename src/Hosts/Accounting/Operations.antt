-- ===== src/Hosts/Accounting/Operations.antt =====
-- The writes of runtime_host_concurrency.go and runtime_host_repository.go on slots, one by one,
-- against the accounts.
use yuex.Prelude.{
  ℕ, ◌≡◌, refl, true, none, some, arith, Map, lookup, insert, values, lookup-insert, total-insert,
  insert-Distinct, All, All-sort, All-select, All-values,
}
use yuex.Hosts.Types.{
  RuntimeHost, Reservation, Repository, ReserveCommand, ReservationState, active_reservation_state,
  is_reserved,
}
use yuex.Hosts.Slots.{increment_reserved, decrement_reserved, increment_active, decrement_active}
use yuex.Hosts.Reserve.{eligible, less_loaded, candidates, new_reservation, claim_slot, with_slot}
use yuex.Hosts.Lease.{
  give_back, end_slot, ended_item, expired_item, expire_slot, extend_lease, ended_state,
}
use yuex.Hosts.Accept.{activate, accepted_item, accept_slot}
use yuex.Hosts.Accounting.{weight_on, Accounted}
use yuex.Hosts.Accounting.Moves.{Shifts, move-Accounted, move-Accounted_self}

-- The accounts of a repository.
abbrev pub Balanced : Repository → Type 0
Balanced r = Accounted r.hosts r.reservations

-- A candidate is a registered host under its own name that passes the test.
abbrev pub Candidate : ReserveCommand → Map RuntimeHost → RuntimeHost → Type 0
Candidate c hosts host = (lookup host.runtime_host_id hosts ≡ some host) × (eligible c host ≡ true)

pub candidates-All :
    (c : ReserveCommand) {hosts : Map RuntimeHost} {items : Map Reservation}
    → Accounted hosts items
    → All (Candidate c hosts) (candidates c hosts)
unfolding candidates
candidates-All c {hosts} a = All-sort _ less_loaded _ (
    All-select (λ host. lookup host.runtime_host_id hosts ≡ some host) (Candidate c hosts)
      (eligible c) (λ host h e. (h, e)) (values hosts)
      (All-values _ hosts a.host_distinct (λ k host h. cc (a.host_keys k host h))))

activate-Shifts :
    (item item' : Reservation)
    → is_reserved item.state ≡ true
    → item'.state ≡ ReservationState.accepted
    → item'.execution_scope ≡ item.execution_scope
    → Shifts (activate item) item item'
unfolding activate decrement_reserved increment_active
activate-Shifts item item' e f g s c h = ground arith

give_back-Shifts :
    (item item' : Reservation)
    → active_reservation_state item.state ≡ true
    → ended_state item'.state ≡ true
    → item'.execution_scope ≡ item.execution_scope
    → Shifts (give_back item) item item'
unfolding give_back decrement_reserved decrement_active ended_state
give_back-Shifts item item' e f g s c h = ground arith

expire-Shifts :
    (item item' : Reservation)
    → is_reserved item.state ≡ true
    → item'.state ≡ ReservationState.expired
    → item'.execution_scope ≡ item.execution_scope
    → Shifts (λ s. decrement_reserved s item.execution_scope) item item'
unfolding decrement_reserved
expire-Shifts item item' e f g s c h = ground arith

module _ (r : Repository) (a : Balanced r) where
  pub accept_slot-Balanced :
      (id dispatch now : ℕ) (item : Reservation)
      → lookup id r.reservations ≡ some item
      → is_reserved item.state ≡ true
      → Balanced (accept_slot dispatch now item r)
  unfolding accept_slot accepted_item
  accept_slot-Balanced id dispatch now item e live =
      move-Accounted_self a id item (accepted_item dispatch now item) (activate item) e
        (ground arith) (activate-Shifts item (accepted_item dispatch now item) live refl refl) refl
        refl

  pub end_slot-Balanced :
      (id now : ℕ) (final : ReservationState) (item : Reservation)
      → lookup id r.reservations ≡ some item
      → active_reservation_state item.state ≡ true
      → ended_state final ≡ true
      → Balanced (end_slot final now item r)
  unfolding end_slot ended_item
  end_slot-Balanced id now final item e live ended =
      move-Accounted_self a id item (ended_item final now item) (give_back item) e live
        (give_back-Shifts item (ended_item final now item) live ended refl) refl refl

  pub expire_slot-Balanced :
      (id now : ℕ) (item : Reservation)
      → lookup id r.reservations ≡ some item
      → is_reserved item.state ≡ true
      → Balanced (expire_slot now id item r)
  unfolding expire_slot expired_item
  expire_slot-Balanced id now item e live =
      move-Accounted a id item (expired_item now item)
        (λ s. decrement_reserved s item.execution_scope) e (ground arith)
        (expire-Shifts item (expired_item now item) live refl refl) refl refl

  pub extend_lease-Balanced :
      (id expires_at now : ℕ) (item : Reservation)
      → lookup id r.reservations ≡ some item
      → Accounted r.hosts
          (insert item.reservation_id (extend_lease expires_at now item) r.reservations)
  unfolding extend_lease
  extend_lease-Balanced id expires_at now item e = record {
    host_distinct = a.host_distinct;
    host_keys = a.host_keys;
    item_keys = λ j x p. ground (
      arith,
      lookup-insert item.reservation_id j (extend_lease expires_at now item) r.reservations,
      a.item_keys j x,
    );
    counted = λ h c. ground (
      arith,
      total-insert (weight_on h c) item.reservation_id (extend_lease expires_at now item)
          r.reservations,
      a.item_keys id item e,
      a.counted h c,
    );
  }

  pub with_slot-Balanced :
      (c : ReserveCommand) (now : ℕ) (host : RuntimeHost)
      → lookup host.runtime_host_id r.hosts ≡ some host
      → lookup c.reservation_id r.reservations ≡ none
      → Balanced (with_slot c now host r)
  unfolding with_slot claim_slot new_reservation increment_reserved
  with_slot-Balanced c now host e fresh = record {
    host_distinct =
        insert-Distinct host.runtime_host_id (claim_slot c host) r.hosts a.host_distinct;
    host_keys = λ j x p.
        ground (
          arith,
          lookup-insert host.runtime_host_id j (claim_slot c host) r.hosts,
          a.host_keys j x,
        );
    item_keys = λ j x p. ground (
      arith,
      lookup-insert c.reservation_id j (new_reservation c now host) r.reservations,
      a.item_keys j x,
    );
    counted = λ h k. ground (
      arith,
      total-insert (weight_on h k) c.reservation_id (new_reservation c now host) r.reservations,
      lookup-insert host.runtime_host_id h (claim_slot c host) r.hosts,
      a.counted h k,
    );
  }
