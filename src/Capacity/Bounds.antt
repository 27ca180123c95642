-- ===== src/Capacity/Bounds.antt =====
-- Reserve of runtime_capacity_admission.go: the units of the granted reservations and the limits of
-- the dimensions.
use yuex.Prelude.{
  ℕ, ◌+◌, ◌^◌, ◌≤◌, ◌<◌, ◌≡◌, ◌≢◌, ap, ◌∙◌, Bool, true, false, none, inl, inr, List, [], ◌∷◌, arith,
  Map, lookup, insert, values, total, total-insert, sum_of, sum_of-values, Option-cases, add_int,
  lt_int, add_int-eq, lt_int-eq, ◌==◌, ◌&&◌, if◌then◌else◌, ok,
}
use yuex.Capacity.{
  Dimension, Dimensions, DimensionName, of_model, of_auth_pool, of_tool, of_tenant, of_user,
  dimension, dimension_names, CapacityCommand, CapacityReservation, counts, add_used, fits, all_fit,
  dimension_error, first_dimension_error, validate_capacity_command, reserve,
  capacity_reservation_for, next_reservation_version,
}

-- The units that an item uses under a key of a dimension.
abbrev pub units : ℕ → DimensionName → ℕ → CapacityReservation → ℕ
units now name key item =
    if counts now item && (dimension name item.dimensions).key == key
    then (dimension name item.dimensions).requested
    else 0

-- One round of the loop, without overflow.
charge :
    (b : Bool) (used more : ℕ)
    → used + (if b then more else 0) < 2 ^ 63
    → (if b then add_int used more else used) ≡ used + (if b then more else 0)
charge true used more h = add_int-eq used more h
charge false used more h = omega arith

-- Without overflow the loop adds up the units.
add_used-sum_of :
    (now : ℕ) (name : DimensionName) (key : ℕ) (items : List CapacityReservation) (used : ℕ)
    → used + sum_of (units now name key) items < 2 ^ 63
    → add_used now name key items used ≡ used + sum_of (units now name key) items
unfolding add_used sum_of
add_used-sum_of now name key [] used h = omega arith
add_used-sum_of now name key (item ∷ items) used h =
    let here : ℕ = units now name key item in
    let round =
      charge (counts now item && (dimension name item.dimensions).key == key) used
        (dimension name item.dimensions).requested (omega (arith, h)) in
    let rest = add_used-sum_of now name key items (used + here) (omega (arith, h)) in
    ap (add_used now name key items) round ∙ (rest ∙ omega arith)

fits-all :
    (now : ℕ) (items : Map CapacityReservation) (d : Dimensions) (name : DimensionName)
    → all_fit now items d dimension_names ≡ true
    → fits now items d name ≡ true
unfolding all_fit
fits-all now items d of_model h = ground (arith, h)
fits-all now items d of_auth_pool h = ground (arith, h)
fits-all now items d of_tool h = ground (arith, h)
fits-all now items d of_tenant h = ground (arith, h)
fits-all now items d of_user h = ground (arith, h)

valid-all :
    (snapshot : ℕ) (d : Dimensions) (name : DimensionName)
    → first_dimension_error snapshot d dimension_names ≡ none
    → dimension_error snapshot (dimension name d) ≡ none
unfolding first_dimension_error
valid-all snapshot d of_model h = ground (arith, h)
valid-all snapshot d of_auth_pool h = ground (arith, h)
valid-all snapshot d of_tool h = ground (arith, h)
valid-all snapshot d of_tenant h = ground (arith, h)
valid-all snapshot d of_user h = ground (arith, h)

-- A valid dimension has a limit that is not negative.
limit-small :
    (snapshot : ℕ) (d : Dimension)
    → dimension_error snapshot d ≡ none
    → d.limit < 2 ^ 64
    → d.limit < 2 ^ 63
unfolding dimension_error lt_int
limit-small snapshot d h small = ground (arith, h)

-- What the test of a dimension adds up: the use that the caller observed, the units of the items that
-- count, and the units that the command asks for.
abbrev pub demand : ℕ → Map CapacityReservation → Dimension → DimensionName → ℕ
demand now items x name = x.observed_used + total (units now name x.key) items + x.requested

-- The loop in the test of a granted reservation.
granted-fits :
    (now : ℕ) (items : Map CapacityReservation) (d : Dimensions) (name : DimensionName)
    → fits now items d name ≡ true
    → (dimension name d).limit < 2 ^ 63
    → demand now items (dimension name d) name < 2 ^ 63
    → demand now items (dimension name d) name ≤ (dimension name d).limit
unfolding fits
granted-fits now items d name room small sums =
    let x = dimension name d in
    let counted = sum_of-values (units now name x.key) items in
    let used =
      add_used-sum_of now name x.key (values items) x.observed_used
        (omega (arith, counted, sums)) in
    let asked =
      add_int-eq (add_used now name x.key (values items) x.observed_used) x.requested
        (omega (arith, counted, sums, used)) in
    let tested =
      lt_int-eq x.limit
        (add_int (add_used now name x.key (values items) x.observed_used) x.requested) small
        (omega (arith, counted, sums, used, asked)) in
    ground (arith, room, tested, asked, used, counted)

-- The new item counts from the start.
new-units :
    (stable_id : ℕ → ℕ → ℕ → ℕ) (c : CapacityCommand) (now version : ℕ) (name : DimensionName)
    → c.ttl ≢ 0
    → units now name
        (dimension name c.dimensions).key
        (capacity_reservation_for stable_id c now version)
      ≡ (dimension name c.dimensions).requested
unfolding counts capacity_reservation_for
new-units stable_id c now version name lasting = ground arith

-- What a granted command has passed.
granted :
    (stable_id : ℕ → ℕ → ℕ → ℕ) (c : CapacityCommand) (now : ℕ)
    (items items' : Map CapacityReservation) (item : CapacityReservation)
    → reserve stable_id c now items ≡ (items', ok item)
    → (c.ttl ≢ 0)
      × (first_dimension_error c.snapshot_version c.dimensions dimension_names ≡ none)
      × (all_fit now items c.dimensions dimension_names ≡ true)
      × (item ≡ capacity_reservation_for stable_id c now (next_reservation_version c.run_id items))
      × (items' ≡ insert item.reservation_id item items)
unfolding reserve validate_capacity_command
granted stable_id c now items items' item done = elim (Option-cases (validate_capacity_command c)) [
  | inl v ↦ (
    λ k. ground (arith, v, k),
    ground (arith, v),
    ground (arith, v, done),
    ground (arith, v, done),
    ground (arith, v, done),
  )
  | inr (e, v) ↦ absurd (ground (arith, v, done))
]

-- A granted reservation is within the limit of each of the five dimensions: after the grant the use
-- that the command observed and the units of all the items that count, the new one among them, add
-- up to at most the limit. This holds where the identifier is new, the limit is a 64-bit word, and the
-- sum stays below 2 ^ 63.
pub reserve-within_limits :
    (stable_id : ℕ → ℕ → ℕ → ℕ) (c : CapacityCommand) (now : ℕ)
    (items items' : Map CapacityReservation) (item : CapacityReservation) (name : DimensionName)
    → reserve stable_id c now items ≡ (items', ok item)
    → lookup item.reservation_id items ≡ none
    → (dimension name c.dimensions).limit < 2 ^ 64
    → demand now items (dimension name c.dimensions) name < 2 ^ 63
    → (dimension name c.dimensions).observed_used
        + total (units now name (dimension name c.dimensions).key) items'
      ≤ (dimension name c.dimensions).limit
reserve-within_limits stable_id c now items items' item name done fresh word sums =
    let (lasting, valid, fit, made, after) = granted stable_id c now items items' item done in
    let x = dimension name c.dimensions in
    let small =
      limit-small c.snapshot_version x (valid-all c.snapshot_version c.dimensions name valid)
        word in
    let room =
      granted-fits now items c.dimensions name (fits-all now items c.dimensions name fit) small
        sums in
    let grown = total-insert (units now name x.key) item.reservation_id item items in
    let fresh_units =
      new-units stable_id c now (next_reservation_version c.run_id items) name lasting in
    rw after (ground (arith, grown, fresh, room, fresh_units, made))
