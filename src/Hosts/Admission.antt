-- ===== src/Hosts/Admission.antt =====
-- TryReserveSlot: what a granted reservation is, when one is granted, and what an error leaves.
use yuex.Prelude.{
  ℕ, ◌+◌, ◌≤◌, ◌<◌, ◌≡◌, ◌≢◌, refl, subst, Bool, true, false, none, some, inl, inr, List, [], ◌∷◌,
  arith, Map, lookup, total, values, select, sort, insert_sorted, lookup-insert_self, Option-cases,
  List-cases, All, ok, err, ErrorCode, if◌then◌else◌,
}
use yuex.Hosts.Types.{
  RuntimeHost, Reservation, Repository, ReserveCommand, ReservationState, ExecutionScope,
  admission_target, host_within_target, is_product_thread,
}
use yuex.Hosts.Slots.{increment_reserved}
use yuex.Hosts.Reserve.{
  try_reserve_slot, try_reserve_slot_memory, reserve_first, validate_reserve_command, run_has_slot,
  candidates, eligible, passes_filters, less_loaded, with_slot, new_reservation, claim_slot,
}
use yuex.Hosts.Accounting.{
  Counter, active, reserved, active_product, reserved_product, active_detached, reserved_detached,
  counter, weight_on,
}
use yuex.Hosts.Accounting.Operations.{Balanced, Candidate, candidates-All, with_slot-Balanced}
use yuex.Hosts.System.Keeps.{Sound}

-- What the call did, where it granted a slot.
record Granted (c : ReserveCommand) (now : ℕ) (r s : Repository) (host : RuntimeHost) : Type 0 where
  pub chosen : RuntimeHost
  pub rest : List RuntimeHost
  pub listed : candidates c r.hosts ≡ chosen ∷ rest
  pub after : s ≡ with_slot c now chosen r
  pub answer : host ≡ claim_slot c chosen
  pub registered : lookup chosen.runtime_host_id r.hosts ≡ some chosen
  pub fit : eligible c chosen ≡ true
  pub valid : validate_reserve_command c ≡ none
  pub idle : run_has_slot c.run_id r.active_reservation_by_run ≡ false

grant :
    (c : ReserveCommand) (now : ℕ) (r s : Repository) (item : Reservation) (host : RuntimeHost)
    → Sound r
    → try_reserve_slot c now r ≡ (s, ok (item, host))
    → Granted c now r s host
unfolding try_reserve_slot try_reserve_slot_memory reserve_first
grant c now r s item host h done = elim (List-cases (candidates c r.hosts)) [
  | inl e ↦ elim (Option-cases (validate_reserve_command c)) [
    | inl v ↦ absurd (ground (arith, done))
    | inr (x, v) ↦ absurd (ground (arith, done))
  ]
  | inr (chosen, rest, e) ↦ elim (Option-cases (validate_reserve_command c)) [
    | inl v ↦
        let found : All (Candidate c r.hosts) (chosen ∷ rest) =
          subst (All (Candidate c r.hosts)) e (candidates-All c h.balanced) in
        record {
          chosen = chosen;
          rest = rest;
          listed = e;
          after = ground (arith, done);
          answer = ground (arith, done);
          registered = found.0.0;
          fit = found.0.1;
          valid = v;
          idle = ground (arith, done);
        }
    | inr (x, v) ↦ absurd (ground (arith, done))
  ]
]

-- The counters and the limit of an execution scope.
abbrev pub scope_active : ExecutionScope → Counter
scope_active scope = if is_product_thread scope then active_product else active_detached

abbrev pub scope_reserved : ExecutionScope → Counter
scope_reserved scope = if is_product_thread scope then reserved_product else reserved_detached

abbrev pub scope_limit : ExecutionScope → RuntimeHost → ℕ
scope_limit scope host =
    if is_product_thread scope then host.max_product_thread_runs else host.max_detached_task_runs

-- How many reservations of two kinds stand on a host, counted one by one.
abbrev pub occupancy : Counter → Counter → ℕ → Map Reservation → ℕ
occupancy a b h items = total (weight_on h a) items + total (weight_on h b) items

target_le : (m : ℕ) → 1 ≤ m → admission_target m ≤ m
target_le m h = ground arith

eligible_has_room :
    (c : ReserveCommand) (host : RuntimeHost)
    → eligible c host ≡ true
    → (host.active_runs + host.reserved_runs < admission_target host.max_active_runs)
      × (1 ≤ host.max_active_runs)
      × (counter (scope_active c.execution_scope) host.slots
            + counter (scope_reserved c.execution_scope) host.slots
          < admission_target (scope_limit c.execution_scope host))
unfolding eligible passes_filters host_within_target
eligible_has_room c host e = (ground (arith, e), ground (arith, e), ground (arith, e))

-- The counters of the chosen host after the grant.
claim-counted :
    (c : ReserveCommand) (now : ℕ) (host : RuntimeHost) (r : Repository)
    → Balanced (with_slot c now host r)
    → (k : Counter)
    → counter k (claim_slot c host).slots
      ≡ total (weight_on host.runtime_host_id k) (with_slot c now host r).reservations
unfolding with_slot
claim-counted c now host r b k = ground (
  arith,
  b.counted host.runtime_host_id k,
  lookup-insert_self host.runtime_host_id (claim_slot c host) r.hosts,
)

-- One slot more, on the reserved side.
claim-adds :
    (c : ReserveCommand) (host : RuntimeHost)
    → (counter active (claim_slot c host).slots + counter reserved (claim_slot c host).slots
        ≡ 1 + (host.active_runs + host.reserved_runs))
      × (counter (scope_active c.execution_scope) (claim_slot c host).slots
            + counter (scope_reserved c.execution_scope) (claim_slot c host).slots
          ≡ 1
            + (counter (scope_active c.execution_scope) host.slots
                + counter (scope_reserved c.execution_scope) host.slots))
unfolding claim_slot increment_reserved
claim-adds c host = (ground arith, ground arith)

granted_counts :
    (c : ReserveCommand) (now : ℕ) (host : RuntimeHost) (r : Repository)
    → Balanced (with_slot c now host r)
    → eligible c host ≡ true
    → let s = with_slot c now host r in
      let selected = claim_slot c host in
      (occupancy active reserved selected.runtime_host_id s.reservations
        ≤ admission_target selected.max_active_runs)
      × (admission_target selected.max_active_runs ≤ selected.max_active_runs)
      × (occupancy
            (scope_active c.execution_scope)
            (scope_reserved c.execution_scope)
            selected.runtime_host_id
            s.reservations
          ≤ admission_target (scope_limit c.execution_scope selected))
unfolding claim_slot
granted_counts c now host r b fit =
    let (room, some_room, scope_room) = eligible_has_room c host fit in
    let (all, scoped) = claim-adds c host in
    let n = claim-counted c now host r b in
    (
      omega (arith, room, all, n active, n reserved),
      target_le host.max_active_runs some_room,
      omega (
        arith,
        scope_room,
        scoped,
        n (scope_active c.execution_scope),
        n (scope_reserved c.execution_scope),
      ),
    )

-- A reservation is granted within the admission targets of its host, three quarters of a limit
-- rounded up. Counted one by one afterwards, the active and the reserved reservations on the host
-- are at most the target of all runs, which is at most the host's maximum, and those of the command's
-- execution scope are at most the target of that scope.
pub reserve-within_target :
    (c : ReserveCommand) (now : ℕ) (r s : Repository) (item : Reservation) (host : RuntimeHost)
    → Sound r
    → lookup c.reservation_id r.reservations ≡ none
    → try_reserve_slot c now r ≡ (s, ok (item, host))
    → (occupancy active reserved host.runtime_host_id s.reservations
        ≤ admission_target host.max_active_runs)
      × (admission_target host.max_active_runs ≤ host.max_active_runs)
      × (occupancy
            (scope_active c.execution_scope)
            (scope_reserved c.execution_scope)
            host.runtime_host_id
            s.reservations
          ≤ admission_target (scope_limit c.execution_scope host))
reserve-within_target c now r s item host h fresh done =
    let g = grant c now r s item host h done in
    let b = with_slot-Balanced r h.balanced c now g.chosen g.registered fresh in
    rw (g.after, g.answer) (granted_counts c now g.chosen r b g.fit)

-- A granted reservation is stored under its identifier, reserved, on a host that was registered and
-- eligible, and it is the one that its run's entry names.
pub reserve-stores :
    (c : ReserveCommand) (now : ℕ) (r s : Repository) (item : Reservation) (host : RuntimeHost)
    → Sound r
    → try_reserve_slot c now r ≡ (s, ok (item, host))
    → (lookup c.reservation_id s.reservations ≡ some item)
      × (item.state ≡ ReservationState.reserved)
      × (item.run_id ≡ c.run_id)
      × (lookup c.run_id s.active_reservation_by_run ≡ some c.reservation_id)
      × (chosen : RuntimeHost) × (lookup item.runtime_host_id r.hosts ≡ some chosen)
      × (eligible c chosen ≡ true)
unfolding try_reserve_slot try_reserve_slot_memory reserve_first with_slot new_reservation
reserve-stores c now r s item host h done =
    let g = grant c now r s item host h done in
    let same : item ≡ new_reservation c now g.chosen = ground (arith, done, g.listed, g.valid) in
    (
      rw (g.after, same) (lookup-insert_self c.reservation_id _ r.reservations),
      ground (arith, same),
      ground (arith, same),
      rw g.after (lookup-insert_self c.run_id c.reservation_id r.active_reservation_by_run),
      g.chosen,
      ground (arith, same, g.registered),
      g.fit,
    )

busy-refused :
    (c : ReserveCommand) (now : ℕ) (r : Repository)
    → run_has_slot c.run_id r.active_reservation_by_run ≡ true
    → ((try_reserve_slot c now r).0 ≡ r)
      × ((answer : Reservation × RuntimeHost) → (try_reserve_slot c now r).1 ≢ ok answer)
unfolding try_reserve_slot try_reserve_slot_memory
busy-refused c now r busy = elim (Option-cases (validate_reserve_command c)) [
  | inl v ↦ (ground arith, λ answer k. ground (arith, k))
  | inr (x, v) ↦ (ground arith, λ answer k. ground (arith, k))
]

named_command : (c : ReserveCommand) → validate_reserve_command c ≡ none → c.reservation_id ≢ 0
unfolding validate_reserve_command
named_command c v k = ground (arith, k)

-- A run that has been granted a slot is refused a second one, and the refusal changes nothing.
pub reserve-one_per_run :
    (c c' : ReserveCommand) (now later : ℕ) (r s : Repository) (item : Reservation)
    (host : RuntimeHost)
    → Sound r
    → try_reserve_slot c now r ≡ (s, ok (item, host))
    → c'.run_id ≡ c.run_id
    → ((try_reserve_slot c' later s).0 ≡ s)
      × ((answer : Reservation × RuntimeHost) → (try_reserve_slot c' later s).1 ≢ ok answer)
unfolding run_has_slot
reserve-one_per_run c c' now later r s item host h done same =
    let (stored, state, run, index, place, found, fit) =
      reserve-stores c now r s item host h done in
    let g = grant c now r s item host h done in
    busy-refused c' later s (ground (arith, same, index, named_command c g.valid))

-- A refused reservation changes nothing.
pub reserve-refusal_keeps :
    (c : ReserveCommand) (now : ℕ) (r s : Repository) (e : ErrorCode)
    → try_reserve_slot c now r ≡ (s, err e)
    → s ≡ r
unfolding try_reserve_slot try_reserve_slot_memory reserve_first
reserve-refusal_keeps c now r s e refused = elim (List-cases (candidates c r.hosts)) [
  | inl n ↦ elim (Option-cases (validate_reserve_command c)) [
    | inl v ↦ ground (arith, refused)
    | inr (x, v) ↦ ground (arith, refused)
  ]
  | inr (host, rest, n) ↦ elim (Option-cases (validate_reserve_command c)) [
    | inl v ↦ ground (arith, refused)
    | inr (x, v) ↦ ground (arith, refused)
  ]
]

select-values_nonempty :
    {V : Type 0} (p : V → Bool) (k : ℕ) (v : V) (m : Map V)
    → lookup k m ≡ some v
    → p v ≡ true
    → select p (values m) ≢ []
unfolding select values lookup
select-values_nonempty p k v [] e h n = ground arith
select-values_nonempty p k v ((j, w) ∷ m) e h n =
    ground (arith, e, n, select-values_nonempty p k v m)

sort-nonempty : {V : Type 0} (less : V → V → Bool) (xs : List V) → xs ≢ [] → sort less xs ≢ []
unfolding sort insert_sorted
sort-nonempty less [] h n = h refl
sort-nonempty less (x ∷ xs) h n = ground (arith, n, List-cases (sort less xs))

-- A valid command of a run without a slot is granted one whenever some registered host is eligible.
pub reserve-available :
    (c : ReserveCommand) (now : ℕ) (r : Repository) (id : ℕ) (host : RuntimeHost)
    → validate_reserve_command c ≡ none
    → run_has_slot c.run_id r.active_reservation_by_run ≡ false
    → lookup id r.hosts ≡ some host
    → eligible c host ≡ true
    → (chosen : RuntimeHost) × (try_reserve_slot c now r
        ≡ (with_slot c now chosen r, ok (new_reservation c now chosen, claim_slot c chosen)))
unfolding try_reserve_slot try_reserve_slot_memory reserve_first candidates
reserve-available c now r id host valid idle found fit = elim (List-cases (candidates c r.hosts)) [
  | inl n ↦ absurd (
      sort-nonempty less_loaded (select (eligible c) (values r.hosts))
        (select-values_nonempty (eligible c) id host r.hosts found fit) n)
  | inr (chosen, rest, n) ↦ (chosen, ground (arith, n))
]
