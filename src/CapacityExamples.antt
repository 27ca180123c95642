-- ===== src/CapacityExamples.antt =====
-- A capacity reservation of two units in each dimension, its acceptance beside the run of Examples,
-- and its release.
use yuex.Prelude.{
  ℕ, true, none, [], ◌∷◌, Map, refl, ok, lookup, insert, values, any, total, add_int, lt_int, ◌≡◌,
  ◌<◌, ◌^◌, arith,
}
use yuex.Capacity.{
  of_model, Dimension, Dimensions, CapacityCommand, CapacityReservation, CapacityState, reserve,
  release, commit_accepted_memory, committed, freed, same_generation, add_used, fits, all_fit,
  dimension_error, first_dimension_error, validate_capacity_command, run_is_reserved,
  latest_version, next_reservation_version, capacity_reservation_for,
}
use yuex.Capacity.Generations.{Named}
use yuex.Capacity.Bounds.{demand}

abbrev pub numbered : ℕ → ℕ → ℕ → ℕ
numbered run snapshot version = version

abbrev pub two_of_ten : Dimension
two_of_ten = record { key = 5; limit = 10; observed_used = 3; requested = 2; version = 1 }

abbrev pub demands : Dimensions
demands = record {
  model = two_of_ten;
  auth_pool = two_of_ten;
  tool = two_of_ten;
  tenant = two_of_ten;
  user = two_of_ten;
}

abbrev pub order : CapacityCommand
order = record { run_id = 21; snapshot_version = 1; dimensions = demands; ttl = 900 }

abbrev pub share : CapacityReservation
share = record {
  reservation_id = 1;
  run_id = 21;
  snapshot_version = 1;
  dimensions = demands;
  state = CapacityState.reserved;
  expires_at = 1000;
  accepted_at = 0;
  released_at = 0;
  version = 1;
  created_at = 100;
  updated_at = 100;
}

abbrev pub empty_book : Map CapacityReservation
empty_book = []

abbrev pub shares : Map CapacityReservation
shares = (1, share) ∷ []

pub shares_ok : reserve numbered order 100 empty_book ≡ (shares, ok share)
unfolding reserve validate_capacity_command first_dimension_error dimension_error run_is_reserved
    all_fit fits add_used next_reservation_version latest_version capacity_reservation_for values
    any insert add_int lt_int
shares_ok = refl

pub no_share : lookup 1 empty_book ≡ none
unfolding lookup
no_share = refl

pub shares-Named : Named shares
unfolding lookup
shares-Named id item e = ground (arith, e)

abbrev pub committed_shares : Map CapacityReservation
committed_shares = (1, committed 140 share) ∷ []

pub committed_ok : commit_accepted_memory share 140 shares ≡ (committed_shares, ok tt)
unfolding commit_accepted_memory same_generation lookup insert
committed_ok = refl

abbrev pub freed_shares : Map CapacityReservation
freed_shares = (1, freed 150 share) ∷ []

pub freed_shares_ok : release share 150 shares ≡ (freed_shares, ok true)
unfolding release same_generation lookup insert
freed_shares_ok = refl

-- A caller of another generation, which no stored item has.
abbrev pub other_share : CapacityReservation
other_share = record share { version = 7 }

-- What the order demands of an empty book.
pub demand_small : demand 100 empty_book two_of_ten of_model < 2 ^ 63
unfolding total
demand_small = omega arith
