-- ===== src/Hosts/Accounting/Exclusive.antt =====
-- activeReservationByRun of runtime_host_repository.go against the reservations.
use yuex.Prelude.{
  ℕ, ◌≡◌, refl, sym, subst, ◌≢◌, true, false, none, some, arith, Map, lookup, insert, delete,
  lookup-insert, lookup-delete,
}
use yuex.Hosts.Types.{
  Reservation, Repository, ReserveCommand, ReservationState, RuntimeHost, active_reservation_state,
  is_reserved,
}
use yuex.Hosts.Reserve.{with_slot, new_reservation, run_has_slot}
use yuex.Hosts.Lease.{end_slot, ended_item, ended_state, expire_slot, expired_item, extend_lease}
use yuex.Hosts.Accept.{accept_slot, accepted_item}

-- Each active reservation is the one that its run's entry names, and no reservation is nameless.
pub record Indexed (items : Map Reservation) (by_run : Map ℕ) : Type 0 where
  pub item_names :
      (id : ℕ) (item : Reservation) → lookup id items ≡ some item → item.reservation_id ≡ id
  pub named : (id : ℕ) (item : Reservation) → lookup id items ≡ some item → id ≢ 0
  pub indexed :
      (id : ℕ) (item : Reservation)
      → lookup id items ≡ some item
      → active_reservation_state item.state ≡ true
      → lookup item.run_id by_run ≡ some id

abbrev pub RunIndex : Repository → Type 0
RunIndex r = Indexed r.reservations r.active_reservation_by_run

module _ (r : Repository) (x : RunIndex r) where
  -- A write that keeps the run and does not start a slot.
  put_item-Indexed :
      (id : ℕ) (item item' : Reservation)
      → lookup id r.reservations ≡ some item
      → item'.reservation_id ≡ item.reservation_id
      → item'.run_id ≡ item.run_id
      → (active_reservation_state item'.state ≡ true → active_reservation_state item.state ≡ true)
      → Indexed (insert item.reservation_id item' r.reservations) r.active_reservation_by_run
  put_item-Indexed id item item' e same_id same_run live = record {
    item_names = λ j y p.
        ground (arith, lookup-insert item.reservation_id j item' r.reservations, x.item_names j y);
    named = λ j y p. ground (
      arith,
      lookup-insert item.reservation_id j item' r.reservations,
      x.item_names id item e,
      x.named j y,
      x.named id item e,
    );
    indexed = λ j y p l. ground (
      arith,
      lookup-insert item.reservation_id j item' r.reservations,
      x.item_names id item e,
      x.indexed j y,
      x.indexed id item e,
      live,
    );
  }

  pub extend_lease-RunIndex :
      (id expires_at now : ℕ) (item : Reservation)
      → lookup id r.reservations ≡ some item
      → Indexed
          (insert item.reservation_id (extend_lease expires_at now item) r.reservations)
          r.active_reservation_by_run
  unfolding extend_lease
  extend_lease-RunIndex id expires_at now item e =
      put_item-Indexed id item (extend_lease expires_at now item) e refl refl (λ h. h)

  pub accept_slot-RunIndex :
      (id dispatch now : ℕ) (item : Reservation)
      → lookup id r.reservations ≡ some item
      → is_reserved item.state ≡ true
      → RunIndex (accept_slot dispatch now item r)
  unfolding accept_slot accepted_item
  accept_slot-RunIndex id dispatch now item e live =
      put_item-Indexed id item (accepted_item dispatch now item) e refl refl (λ h. ground arith)

  -- A slot that ends leaves the index.
  drop_item-Indexed :
      (id : ℕ) (item item' : Reservation)
      → lookup id r.reservations ≡ some item
      → active_reservation_state item.state ≡ true
      → item'.reservation_id ≡ item.reservation_id
      → active_reservation_state item'.state ≡ false
      → Indexed (insert id item' r.reservations) (delete item.run_id r.active_reservation_by_run)
  drop_item-Indexed id item item' e live same_id dead = record {
    item_names = λ j y p.
        ground (
          arith,
          lookup-insert id j item' r.reservations,
          x.item_names id item e,
          x.item_names j y,
        );
    named = λ j y p.
        ground (arith, lookup-insert id j item' r.reservations, x.named j y, x.named id item e);
    indexed = λ j y p l. ground (
      arith,
      lookup-insert id j item' r.reservations,
      lookup-delete item.run_id y.run_id r.active_reservation_by_run,
      x.indexed j y,
      x.indexed id item e live,
    );
  }

  pub expire_slot-RunIndex :
      (id now : ℕ) (item : Reservation)
      → lookup id r.reservations ≡ some item
      → is_reserved item.state ≡ true
      → RunIndex (expire_slot now id item r)
  unfolding expire_slot expired_item
  expire_slot-RunIndex id now item e live =
      drop_item-Indexed id item (expired_item now item) e (ground arith) refl refl

  pub end_slot-RunIndex :
      (id now : ℕ) (final : ReservationState) (item : Reservation)
      → lookup id r.reservations ≡ some item
      → active_reservation_state item.state ≡ true
      → ended_state final ≡ true
      → RunIndex (end_slot final now item r)
  unfolding end_slot ended_item ended_state
  end_slot-RunIndex id now final item e live ended =
      subst
        (λ k.
          Indexed (insert k (ended_item final now item) r.reservations)
            (delete item.run_id r.active_reservation_by_run))
        (sym (x.item_names id item e))
        (drop_item-Indexed id item (ended_item final now item) e live refl (ground arith))

  pub with_slot-RunIndex :
      (c : ReserveCommand) (now : ℕ) (host : RuntimeHost)
      → c.reservation_id ≢ 0
      → run_has_slot c.run_id r.active_reservation_by_run ≡ false
      → lookup c.reservation_id r.reservations ≡ none
      → RunIndex (with_slot c now host r)
  unfolding with_slot new_reservation run_has_slot
  with_slot-RunIndex c now host name free fresh = record {
    item_names = λ j y p. ground (
      arith,
      lookup-insert c.reservation_id j (new_reservation c now host) r.reservations,
      x.item_names j y,
    );
    named = λ j y p. ground (
      arith,
      lookup-insert c.reservation_id j (new_reservation c now host) r.reservations,
      x.named j y,
    );
    indexed = λ j y p l. ground (
      arith,
      lookup-insert c.reservation_id j (new_reservation c now host) r.reservations,
      lookup-insert c.run_id y.run_id c.reservation_id r.active_reservation_by_run,
      x.indexed j y,
      x.named j y,
    );
  }
