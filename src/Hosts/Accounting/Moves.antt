-- ===== src/Hosts/Accounting/Moves.antt =====
-- One slot that changes its state, against the counters of runtime_host_repository.go.
use yuex.Prelude.{
  ℕ, ◌+◌, ◌≤◌, ◌≡◌, sym, subst, ◌≢◌, true, none, some, inl, inr, arith, Map, lookup, insert, total,
  Distinct, lookup-insert, total-insert, weigh-le-total, insert-Distinct, Option-cases, ◌==◌,
  if◌then◌else◌,
}
use yuex.Hosts.Types.{Slots, RuntimeHost, Reservation, active_reservation_state}
use yuex.Hosts.Store.{update_slots}
use yuex.Hosts.Accounting.{
  Counter, active, reserved, counter, weight, weight_on, slots_at, Accounted,
}

-- An active slot counts on its own host.
active_weighs :
    (item : Reservation)
    → active_reservation_state item.state ≡ true
    → 1 ≤ weight_on item.runtime_host_id active item + weight_on item.runtime_host_id reserved item
active_weighs item h = ground arith

-- The host of an active slot is registered.
pub host_of_active :
    {hosts : Map RuntimeHost} {items : Map Reservation} (id : ℕ) (item : Reservation)
    → Accounted hosts items
    → lookup id items ≡ some item
    → active_reservation_state item.state ≡ true
    → lookup item.runtime_host_id hosts ≢ none
host_of_active {hosts} {items} id item a found live missing = omega (
  arith,
  active_weighs item live,
  le_total active,
  le_total reserved,
  nothing active,
  nothing reserved,
)
  where
    le_total :
        (c : Counter)
        → weight_on item.runtime_host_id c item ≤ total (weight_on item.runtime_host_id c) items
    le_total c = rw found at (weigh-le-total (weight_on item.runtime_host_id c) id items)

    nothing : (c : Counter) → 0 ≡ total (weight_on item.runtime_host_id c) items
    nothing c = rw missing at (a.counted item.runtime_host_id c)

-- A write of the counters of a registered host, seen from every host.
slots_at-update_slots :
    (f : Slots → Slots) (k h : ℕ) (c : Counter) (host : RuntimeHost) (hosts : Map RuntimeHost)
    → lookup k hosts ≡ some host
    → host.runtime_host_id ≡ k
    → slots_at h c (update_slots f k hosts)
      ≡ (if k == h then counter c (f host.slots) else slots_at h c hosts)
unfolding update_slots
slots_at-update_slots f k h c host hosts found key =
    ground
      (arith, lookup-insert host.runtime_host_id h (record host { slots = f host.slots }) hosts)

update_slots-Distinct :
    (f : Slots → Slots) (k : ℕ) (hosts : Map RuntimeHost)
    → Distinct hosts
    → Distinct (update_slots f k hosts)
unfolding update_slots
update_slots-Distinct f k hosts d = elim (Option-cases (lookup k hosts)) [
  | inl e ↦ rw (e, update_slots) d
  | inr (host, e) ↦ rw (e, update_slots) (insert-Distinct host.runtime_host_id _ hosts d)
]

-- The registered hosts and their names stay.
pub update_slots_keys :
    (f : Slots → Slots) (k h : ℕ) (hosts : Map RuntimeHost) (host : RuntimeHost)
    → ((j : ℕ) (x : RuntimeHost) → lookup j hosts ≡ some x → x.runtime_host_id ≡ j)
    → lookup h (update_slots f k hosts) ≡ some host
    → host.runtime_host_id ≡ h
unfolding update_slots
update_slots_keys f k h hosts host keys found = elim (Option-cases (lookup k hosts)) [
  | inl e ↦ keys h host (ground arith)
  | inr (x, e) ↦ ground (
    arith,
    lookup-insert x.runtime_host_id h (record x { slots = f x.slots }) hosts,
    keys k x,
    keys h host,
  )
]

-- `f` turns the counters of a slot in the state of `item` into those of the state of `item'`.
abbrev pub Shifts : (Slots → Slots) → Reservation → Reservation → Type 0
Shifts f item item' =
    (s : Slots) (c : Counter)
    → weight c item.state item.execution_scope ≤ counter c s
    → counter c (f s) + weight c item.state item.execution_scope
      ≡ counter c s + weight c item'.state item'.execution_scope

module _ {hosts : Map RuntimeHost} {items : Map Reservation} (a : Accounted hosts items) (id : ℕ)
    (item item' : Reservation) (f : Slots → Slots) (found : lookup id items ≡ some item)
    (live : active_reservation_state item.state ≡ true) (shifts : Shifts f item item')
    (same_host : item'.runtime_host_id ≡ item.runtime_host_id)
    (same_id : item'.reservation_id ≡ item.reservation_id) where
  move_counted :
      (host : RuntimeHost)
      → lookup item.runtime_host_id hosts ≡ some host
      → (h : ℕ) (c : Counter)
      → slots_at h c (update_slots f item.runtime_host_id hosts)
        ≡ total (weight_on h c) (insert id item' items)
  move_counted host e h c = ground (
    arith,
    slots_at-update_slots f item.runtime_host_id h c host hosts e (a.host_keys _ host e),
    total-insert (weight_on h c) id item' items,
    weigh-le-total (weight_on h c) id items,
    a.counted h c,
    shifts host.slots c,
  )

  -- A slot that changes its state keeps the accounts, where its counters are shifted along.
  pub move-Accounted : Accounted (update_slots f item.runtime_host_id hosts) (insert id item' items)
  move-Accounted = elim (Option-cases (lookup item.runtime_host_id hosts)) [
    | inl e ↦ absurd (host_of_active id item a found live e)
    | inr (host, e) ↦ record {
      host_distinct = update_slots-Distinct f _ hosts a.host_distinct;
      host_keys = λ h x. update_slots_keys f _ h hosts x a.host_keys;
      item_keys = λ j x p.
          ground (arith, lookup-insert id j item' items, a.item_keys id item, a.item_keys j x);
      counted = move_counted host e;
    }
  ]

  -- The same, where the write goes by the slot's own name.
  pub move-Accounted_self :
      Accounted (update_slots f item.runtime_host_id hosts) (insert item.reservation_id item' items)
  move-Accounted_self =
      subst (λ k. Accounted (update_slots f item.runtime_host_id hosts) (insert k item' items))
        (sym (a.item_keys id item found)) move-Accounted
