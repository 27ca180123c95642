-- ===== src/Capacity/Generations.antt =====
-- The generations of runtime_capacity_admission.go: repeated and delayed calls.
use yuex.Prelude.{
  ℕ, ◌+◌, ◌≤◌, ◌≡◌, ◌⊎◌, refl, true, false, Option, none, some, inl, inr, arith, Map, lookup,
  Option-cases, Bool-cases, lookup-insert_self, ok,
}
use yuex.Capacity.{
  CapacityReservation, CapacityState, is_reserved_capacity, commit_accepted_memory, committed,
  release, freed, recoverable, timed_out, same_generation,
}

-- Every item stands under its name.
abbrev pub Named : Map CapacityReservation → Type 0
Named items =
    (id : ℕ) (item : CapacityReservation) → lookup id items ≡ some item → item.reservation_id ≡ id

-- The item that a successful commit leaves.
commit-stored :
    (item : CapacityReservation) (now : ℕ) (items items' : Map CapacityReservation)
    → Named items
    → commit_accepted_memory item now items ≡ (items', ok tt)
    → (current : CapacityReservation) × (lookup item.reservation_id items' ≡ some current)
      × (same_generation current item ≡ true)
      × (current.state ≡ CapacityState.accepted)
      × (current.version ≡ item.version + 1)
unfolding commit_accepted_memory committed same_generation
commit-stored item now items items' named done =
    elim (Option-cases (lookup item.reservation_id items)) [
      | inl e ↦ absurd (ground (arith, done))
      | inr (x, e) ↦ elim (Bool-cases (is_reserved_capacity x.state)) [
        | inl p ↦ (
          committed now x,
          ground (
            arith,
            done,
            named item.reservation_id x e,
            lookup-insert_self item.reservation_id (committed now x) items,
          ),
          ground (arith, done),
          refl,
          ground (arith, done),
        )
        | inr p ↦ (
          x,
          ground (arith, done),
          ground (arith, done),
          ground (arith, done),
          ground (arith, done),
        )
      ]
    ]

-- The commit of an acceptance can be repeated: once it has succeeded, the same call succeeds at any
-- later time and changes nothing.
pub commit-repeats :
    (item : CapacityReservation) (now later : ℕ) (items items' : Map CapacityReservation)
    → Named items
    → commit_accepted_memory item now items ≡ (items', ok tt)
    → commit_accepted_memory item later items' ≡ (items', ok tt)
unfolding commit_accepted_memory
commit-repeats item now later items items' named done =
    let (current, found, same, state, version) = commit-stored item now items items' named done in
    ground (arith, found, same, state, version)

-- Releasing a reservation frees it once: after a release that says true the same call says false and
-- changes nothing.
pub release-frees_once :
    (item : CapacityReservation) (now later : ℕ) (items items' : Map CapacityReservation)
    → Named items
    → release item now items ≡ (items', ok true)
    → release item later items' ≡ (items', ok false)
unfolding release freed same_generation
release-frees_once item now later items items' named done =
    elim (Option-cases (lookup item.reservation_id items)) [
      | inl e ↦ absurd (ground (arith, done))
      | inr (x, e) ↦ ground (
        arith,
        done,
        named item.reservation_id x e,
        lookup-insert_self item.reservation_id (freed now x) items,
      )
    ]

abbrev expired_state : CapacityState → ℕ
expired_state CapacityState.expired = 1
expired_state state = 0

-- 1 for an expired item.
abbrev pub timed_out_unit : CapacityReservation → ℕ
timed_out_unit item = expired_state item.state

-- An item before and after: as it was, or timed out, where it was recoverable and had run out.
abbrev pub Swept : ℕ → Option CapacityReservation → Option CapacityReservation → Type 0
Swept now none after = after ≡ none
Swept now (some item) after =
    (after ≡ some item)
    ⊎ ((recoverable item.state ≡ true)
        × (item.expires_at ≤ now)
        × (after ≡ some (timed_out now item)))
