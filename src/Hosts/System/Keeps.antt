-- ===== src/Hosts/System/Keeps.antt =====
-- The writes of the operations against the accounts of the slots, the index of the runs, and the
-- names of the dispatches.
use yuex.Prelude.{
  ℕ, ◌≡◌, subst, true, false, none, some, List, [], ◌∷◌, arith, lookup, lookup-insert, All,
}
use yuex.Hosts.Types.{
  RuntimeHost, Reservation, Dispatch, Repository, ReserveCommand, ReservationState,
  active_reservation_state, is_reserved,
}
use yuex.Hosts.Reserve.{candidates, with_slot, run_has_slot, validate_reserve_command}
use yuex.Hosts.Lease.{
  end_slot, expire_slot, extend_lease, ended_state, expire_one, expire_loop, expire_reservations,
}
use yuex.Hosts.Accept.{accept_slot}
use yuex.Hosts.Cases
use yuex.Hosts.Cases.{with_dispatch, with_item}
use yuex.Hosts.Accounting.Operations.{
  Balanced, Candidate, candidates-All, accept_slot-Balanced, end_slot-Balanced,
  expire_slot-Balanced, extend_lease-Balanced, with_slot-Balanced,
}
use yuex.Hosts.Accounting.Exclusive.{
  RunIndex, accept_slot-RunIndex, end_slot-RunIndex, expire_slot-RunIndex, extend_lease-RunIndex,
  with_slot-RunIndex,
}

-- What holds in every repository.
pub record Sound (r : Repository) : Type 0 where
  pub balanced : Balanced r
  pub run_index : RunIndex r
  pub dispatch_keys : (id : ℕ) (d : Dispatch) → lookup id r.dispatches ≡ some d → d.dispatch_id ≡ id

pub with_dispatch-Sound :
    (r : Repository) (id : ℕ) (d : Dispatch)
    → Sound r
    → d.dispatch_id ≡ id
    → Sound (with_dispatch id d r)
with_dispatch-Sound r id d s key = record {
  balanced = s.balanced;
  run_index = s.run_index;
  dispatch_keys = λ j x p. ground (arith, lookup-insert id j d r.dispatches, s.dispatch_keys j x);
}

module _ (r : Repository) (s : Sound r) where
  -- A new version of a stored dispatch.
  pub put_dispatch-Sound :
      (id : ℕ) (d d' : Dispatch)
      → lookup id r.dispatches ≡ some d
      → d'.dispatch_id ≡ d.dispatch_id
      → Sound (with_dispatch id d' r)
  put_dispatch-Sound id d d' e same =
      with_dispatch-Sound r id d' s (ground (arith, s.dispatch_keys id d e))

  pub extend_lease-Sound :
      (id expires_at now : ℕ) (item : Reservation)
      → lookup id r.reservations ≡ some item
      → Sound (with_item item.reservation_id (extend_lease expires_at now item) r)
  extend_lease-Sound id expires_at now item e = record {
    balanced = extend_lease-Balanced r s.balanced id expires_at now item e;
    run_index = extend_lease-RunIndex r s.run_index id expires_at now item e;
    dispatch_keys = s.dispatch_keys;
  }

  pub accept_slot-Sound :
      (id dispatch now : ℕ) (item : Reservation)
      → lookup id r.reservations ≡ some item
      → is_reserved item.state ≡ true
      → Sound (accept_slot dispatch now item r)
  unfolding accept_slot
  accept_slot-Sound id dispatch now item e live = record {
    balanced = accept_slot-Balanced r s.balanced id dispatch now item e live;
    run_index = accept_slot-RunIndex r s.run_index id dispatch now item e live;
    dispatch_keys = s.dispatch_keys;
  }

  pub end_slot-Sound :
      (id now : ℕ) (final : ReservationState) (item : Reservation)
      → lookup id r.reservations ≡ some item
      → active_reservation_state item.state ≡ true
      → ended_state final ≡ true
      → Sound (end_slot final now item r)
  unfolding end_slot
  end_slot-Sound id now final item e live ended = record {
    balanced = end_slot-Balanced r s.balanced id now final item e live ended;
    run_index = end_slot-RunIndex r s.run_index id now final item e live ended;
    dispatch_keys = s.dispatch_keys;
  }

  pub expire_slot-Sound :
      (id now : ℕ) (item : Reservation)
      → lookup id r.reservations ≡ some item
      → is_reserved item.state ≡ true
      → Sound (expire_slot now id item r)
  unfolding expire_slot
  expire_slot-Sound id now item e live = record {
    balanced = expire_slot-Balanced r s.balanced id now item e live;
    run_index = expire_slot-RunIndex r s.run_index id now item e live;
    dispatch_keys = s.dispatch_keys;
  }

  pub with_slot-Sound :
      (c : ReserveCommand) (now : ℕ) (host : RuntimeHost) (rest : List RuntimeHost)
      → candidates c r.hosts ≡ host ∷ rest
      → validate_reserve_command c ≡ none
      → run_has_slot c.run_id r.active_reservation_by_run ≡ false
      → lookup c.reservation_id r.reservations ≡ none
      → Sound (with_slot c now host r)
  unfolding with_slot validate_reserve_command
  with_slot-Sound c now host rest e valid free fresh =
      let found : All (Candidate c r.hosts) (host ∷ rest) =
        subst (All (Candidate c r.hosts)) e (candidates-All c s.balanced) in
      record {
        balanced = with_slot-Balanced r s.balanced c now host found.0.0 fresh;
        run_index = with_slot-RunIndex r s.run_index c now host (ground arith) free fresh;
        dispatch_keys = s.dispatch_keys;
      }

-- The loop over the reservations keeps what each round keeps.
pub expire_loop-Sound :
    (now : ℕ) (entries : List (ℕ × Reservation)) (count : ℕ) (r : Repository)
    → Sound r
    → Sound (expire_loop now entries count r).0
unfolding expire_loop
expire_loop-Sound now [] count r s = s
expire_loop-Sound now ((id, item) ∷ rest) count r s =
    expire_loop-Sound now rest _ (expire_one now id r).0
      (Cases.expire_one_cases Sound r s now id (λ x e live. expire_slot-Sound r s id now x e live))

pub expire_reservations-Sound :
    (now : ℕ) (r : Repository) → Sound r → Sound (expire_reservations now r).0
unfolding expire_reservations
expire_reservations-Sound now r s = expire_loop-Sound now r.reservations 0 r s
