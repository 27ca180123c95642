-- ===== src/Capacity.antt =====
-- RuntimeCapacityAdmissionService of
-- extracted/go-runtime-control-plane/internal/runtime/runtime_capacity_admission.go, in its in-memory
-- form: reservations of units in five dimensions, with generations. Unit counts are Go's `int` (see
-- Prelude/Words); identifiers, keys and times are numbers, with 0 for "" and the zero time. Each call
-- holds the service's mutex and reads one time.
pub mod Bounds
pub mod Generations
use yuex.Prelude.{
  ℕ, zero, suc, ◌+◌, ◌-◌, Bool, true, false, not, ◌&&◌, ◌||◌, Option, none, some, List, [], ◌∷◌,
  ltb, leb, ◌==◌, is_zero, if◌then◌else◌, Map, lookup, insert, values, any, add_int, lt_int,
  ErrorCode, invalid_argument, not_found, runtime_capacity_unavailable, Result, Done, ok, err,
}

-- RuntimeCapacityDimension
pub record Dimension : Type 0 where
  pub key : ℕ
  pub limit : ℕ
  pub observed_used : ℕ
  pub requested : ℕ
  pub version : ℕ

-- RuntimeCapacityDimensions
pub record Dimensions : Type 0 where
  pub model : Dimension
  pub auth_pool : Dimension
  pub tool : Dimension
  pub tenant : Dimension
  pub user : Dimension

pub record CapacityCommand : Type 0 where
  pub run_id : ℕ
  pub snapshot_version : ℕ
  pub dimensions : Dimensions
  pub ttl : ℕ

pub data CapacityState : Type 0 where
  reserved accepted recovering released expired : CapacityState

-- RuntimeCapacityReservation
pub record CapacityReservation : Type 0 where
  pub reservation_id : ℕ
  pub run_id : ℕ
  pub snapshot_version : ℕ
  pub dimensions : Dimensions
  pub state : CapacityState
  pub expires_at : ℕ
  pub accepted_at : ℕ
  pub released_at : ℕ
  pub version : ℕ
  pub created_at : ℕ
  pub updated_at : ℕ

pub data DimensionName : Type 0 where
  of_model of_auth_pool of_tool of_tenant of_user : DimensionName

-- The entry of runtimeCapacityDimensionList with a given name.
abbrev pub dimension : DimensionName → Dimensions → Dimension
dimension of_model d = d.model
dimension of_auth_pool d = d.auth_pool
dimension of_tool d = d.tool
dimension of_tenant d = d.tenant
dimension of_user d = d.user

-- The names of runtimeCapacityDimensionList, in its order.
abbrev pub dimension_names : List DimensionName
dimension_names = of_model ∷ of_auth_pool ∷ of_tool ∷ of_tenant ∷ of_user ∷ []

-- runtimeCapacityActive
abbrev pub capacity_active : CapacityState → Bool
capacity_active CapacityState.reserved = true
capacity_active CapacityState.accepted = true
capacity_active CapacityState.recovering = true
capacity_active _ = false

abbrev pub is_reserved_capacity : CapacityState → Bool
is_reserved_capacity CapacityState.reserved = true
is_reserved_capacity _ = false

abbrev pub is_accepted_capacity : CapacityState → Bool
is_accepted_capacity CapacityState.accepted = true
is_accepted_capacity _ = false

-- One round of the loop in validateRuntimeCapacityCommand.
unfoldable pub dimension_error : ℕ → Dimension → Option ErrorCode
dimension_error snapshot d =
    if is_zero d.key
      || ltb d.version 1
      || not (d.version == snapshot)
      || lt_int d.limit 0
      || lt_int d.observed_used 0
      || not (lt_int 0 d.requested)
      || lt_int d.limit d.observed_used
    then some invalid_argument
    else if d.limit == 0
    then some runtime_capacity_unavailable
    else none

unfoldable pub first_dimension_error : ℕ → Dimensions → List DimensionName → Option ErrorCode
first_dimension_error snapshot d [] = none
first_dimension_error snapshot d (name ∷ names) =
    let rest = first_dimension_error snapshot d names in
    elim (dimension_error snapshot (dimension name d)) [ some e ↦ some e | none ↦ rest ]

-- validateRuntimeCapacityCommand
unfoldable pub validate_capacity_command : CapacityCommand → Option ErrorCode
unfolding first_dimension_error
validate_capacity_command c =
    if is_zero c.run_id || ltb c.snapshot_version 1 || is_zero c.ttl
    then some invalid_argument
    else first_dimension_error c.snapshot_version c.dimensions dimension_names

-- Whether an item counts: it is active, and it has been accepted or has not run out.
unfoldable pub counts : ℕ → CapacityReservation → Bool
counts now item =
    capacity_active item.state && not (is_reserved_capacity item.state && leb item.expires_at now)

-- The units that the items use under a key, added to `used`.
unfoldable pub add_used : ℕ → DimensionName → ℕ → List CapacityReservation → ℕ → ℕ
add_used now name key [] used = used
add_used now name key (item ∷ items) used = add_used now name key items (
    if counts now item && (dimension name item.dimensions).key == key
    then add_int used (dimension name item.dimensions).requested
    else used)

-- used + Requested <= Limit
unfoldable pub fits : ℕ → Map CapacityReservation → Dimensions → DimensionName → Bool
fits now items d name =
    let x = dimension name d in
    not (
      lt_int x.limit (add_int (add_used now name x.key (values items) x.observed_used) x.requested))

unfoldable pub all_fit : ℕ → Map CapacityReservation → Dimensions → List DimensionName → Bool
all_fit now items d [] = true
all_fit now items d (name ∷ names) = fits now items d name && all_fit now items d names

unfoldable pub run_is_reserved : ℕ → Map CapacityReservation → Bool
run_is_reserved run items =
    any (λ item. item.run_id == run && capacity_active item.state) (values items)

unfoldable pub latest_version : ℕ → List CapacityReservation → ℕ → ℕ
latest_version run [] latest = latest
latest_version run (item ∷ items) latest =
    latest_version run items
      (if item.run_id == run && ltb latest item.version then item.version else latest)

-- nextMemoryReservationVersion
unfoldable pub next_reservation_version : ℕ → Map CapacityReservation → ℕ
next_reservation_version run items = latest_version run (values items) 0 + 1

-- `stable_id` is stableRuntimeCapacityID, a digest of its three arguments.
module _ (stable_id : ℕ → ℕ → ℕ → ℕ) where
  -- runtimeCapacityReservationFor
  unfoldable pub capacity_reservation_for : CapacityCommand → ℕ → ℕ → CapacityReservation
  capacity_reservation_for c now version = record {
    reservation_id = stable_id c.run_id c.snapshot_version version;
    run_id = c.run_id;
    snapshot_version = c.snapshot_version;
    dimensions = c.dimensions;
    state = CapacityState.reserved;
    expires_at = now + c.ttl;
    accepted_at = 0;
    released_at = 0;
    version = version;
    created_at = now;
    updated_at = now;
  }

  -- Reserve
  unfoldable pub reserve :
      CapacityCommand
      → ℕ
      → Map CapacityReservation
      → Map CapacityReservation × Result CapacityReservation
  unfolding all_fit
  reserve c now items = elim (validate_capacity_command c) [
    | some e ↦ (items, err e)
    | none ↦
        if run_is_reserved c.run_id items || not (all_fit now items c.dimensions dimension_names)
        then (items, err runtime_capacity_unavailable)
        else let item = capacity_reservation_for c now (next_reservation_version c.run_id items) in
          (insert item.reservation_id item items, ok item)
  ]

-- What the calls that name a reservation compare.
unfoldable pub same_generation : CapacityReservation → CapacityReservation → Bool
same_generation current item =
    current.run_id == item.run_id && current.snapshot_version == item.snapshot_version

assert_found : ℕ → CapacityReservation → Option CapacityReservation → Done
assert_found now item none = err runtime_capacity_unavailable
assert_found now item (some current) =
    if same_generation current item
      && (is_accepted_capacity current.state
          || is_reserved_capacity current.state && ltb now current.expires_at)
    then ok tt
    else err runtime_capacity_unavailable

-- AssertActive
unfoldable pub assert_active : CapacityReservation → ℕ → Map CapacityReservation → Done
unfolding assert_found
assert_active item now items =
    if is_zero item.reservation_id || is_zero item.run_id || ltb item.snapshot_version 1
    then err invalid_argument
    else assert_found now item (lookup item.reservation_id items)

unfoldable pub committed : ℕ → CapacityReservation → CapacityReservation
committed now item = record item {
  state = CapacityState.accepted;
  accepted_at = now;
  updated_at = now;
  version = item.version + 1;
}

commit_found :
    ℕ
    → CapacityReservation
    → Option CapacityReservation
    → Map CapacityReservation
    → Map CapacityReservation × Done
commit_found now item none items = (items, err runtime_capacity_unavailable)
commit_found now item (some current) items =
    if not (same_generation current item)
    then (items, err runtime_capacity_unavailable)
    else if is_accepted_capacity current.state && current.version == item.version + 1
    then (items, ok tt)
    else if is_reserved_capacity current.state
        && current.version == item.version
        && ltb now current.expires_at
    then (insert current.reservation_id (committed now current) items, ok tt)
    else (items, err runtime_capacity_unavailable)

-- commitAcceptedMemory
unfoldable pub commit_accepted_memory :
    CapacityReservation → ℕ → Map CapacityReservation → Map CapacityReservation × Done
unfolding commit_found
commit_accepted_memory item now items =
    commit_found now item (lookup item.reservation_id items) items

-- CommitAccepted
unfoldable pub commit_accepted :
    CapacityReservation → ℕ → Map CapacityReservation → Map CapacityReservation × Done
unfolding commit_accepted_memory
commit_accepted item now items =
    if is_zero item.reservation_id
      || is_zero item.run_id
      || ltb item.snapshot_version 1
      || ltb item.version 1
    then (items, err invalid_argument)
    else commit_accepted_memory item now items

unfoldable pub freed : ℕ → CapacityReservation → CapacityReservation
freed now item = record item {
  state = CapacityState.released;
  released_at = now;
  updated_at = now;
  version = item.version + 1;
}

release_found :
    ℕ
    → CapacityReservation
    → Option CapacityReservation
    → Map CapacityReservation
    → Map CapacityReservation × Result Bool
release_found now item none items = (items, err runtime_capacity_unavailable)
release_found now item (some current) items =
    if not (same_generation current item)
    then (items, err runtime_capacity_unavailable)
    else if not (capacity_active current.state)
    then (items, ok false)
    else if current.version == item.version || current.version == item.version + 1
    then (insert current.reservation_id (freed now current) items, ok true)
    else (items, ok false)

-- Release, without the usage figures, which the in-memory form does not keep.
unfoldable pub release :
    CapacityReservation → ℕ → Map CapacityReservation → Map CapacityReservation × Result Bool
unfolding release_found
release item now items =
    if is_zero item.reservation_id || is_zero item.run_id
    then (items, err invalid_argument)
    else release_found now item (lookup item.reservation_id items) items

-- The states that Recover looks at.
abbrev pub recoverable : CapacityState → Bool
recoverable CapacityState.reserved = true
recoverable CapacityState.recovering = true
recoverable _ = false

unfoldable pub timed_out : ℕ → CapacityReservation → CapacityReservation
timed_out now item = record item {
  state = CapacityState.expired;
  released_at = now;
  updated_at = now;
  version = item.version + 1;
}

-- The loop of Recover: the items from here on, and how many more it may scan.
unfoldable pub recover_loop : ℕ → ℕ → Map CapacityReservation → Map CapacityReservation × ℕ
recover_loop now zero items = (items, 0)
recover_loop now (suc n) [] = ([], 0)
recover_loop now (suc n) ((id, item) ∷ items) =
    let due = recoverable item.state && leb item.expires_at now in
    let rest = recover_loop now (if due then n else suc n) items in
    ((id, if due then timed_out now item else item) ∷ rest.0, if due then rest.1 + 1 else rest.1)

-- A limit that is not positive, for which 0 stands, counts as 100, and none exceeds 500.
unfoldable pub recover_budget : ℕ → ℕ
recover_budget limit =
    let positive = if is_zero limit then 100 else limit in
    if ltb 500 positive then 500 else positive

-- Recover, with the number of the items that it expired.
unfoldable pub recover : ℕ → ℕ → Map CapacityReservation → Map CapacityReservation × ℕ
recover now limit items = recover_loop now (recover_budget limit) items
