-- ===== src/Hosts/Accounting/Hosts.antt =====
-- The writes of the host registry against the accounts: registration, heartbeat, status, health, and
-- the recount of RecalculateHostCounters in runtime_host_reconcile.go.
use yuex.Prelude.{
  ℕ, ◌+◌, ◌≡◌, refl, none, some, inl, inr, List, [], ◌∷◌, arith, Map, lookup, insert, total, values,
  sum_of, map_values, lookup-map_values, lookup-insert, insert-Distinct, sum_of-values, Distinct,
  Option-cases,
}
use mathlib.Core.Option
use yuex.Hosts.Types.{Slots, RuntimeHost, Reservation, Repository}
use yuex.Hosts.Slots.{increment_reserved, increment_active, no_slots}
use yuex.Hosts.Registry.{
  check_health, count_slot, recount_slots, recount_host, recount_hosts, recalculate_host_counters,
}
use yuex.Hosts.Accounting.{Counter, counter, weight_on, slots_at, Accounted}
use yuex.Hosts.Accounting.Operations.{Balanced}

-- A write of one host, which keeps its counters.
pub put_host-Accounted :
    {hosts : Map RuntimeHost} {items : Map Reservation} (id : ℕ) (host : RuntimeHost)
    → Accounted hosts items
    → host.runtime_host_id ≡ id
    → ((c : Counter) → slots_at id c hosts ≡ counter c host.slots)
    → Accounted (insert id host hosts) items
put_host-Accounted {hosts} {items} id host a key same = record {
  host_distinct = insert-Distinct id host hosts a.host_distinct;
  host_keys = λ j x p. ground (arith, lookup-insert id j host hosts, a.host_keys j x);
  item_keys = a.item_keys;
  counted = λ h c. ground (arith, lookup-insert id h host hosts, same c, a.counted h c);
}

-- A pass over the hosts that keeps their names and counters.
map_values-Distinct {ℓ} :
    {V : Type ℓ} (g : V → V) (m : Map V) → Distinct m → Distinct (map_values g m)
unfolding map_values
map_values-Distinct g [] d = tt
map_values-Distinct g ((k, v) ∷ m) d =
    (ground (arith, lookup-map_values g k m, d.0), map_values-Distinct g m d.1)

pub map_hosts-Accounted :
    {hosts : Map RuntimeHost} {items : Map Reservation} (g : RuntimeHost → RuntimeHost)
    → Accounted hosts items
    → ((host : RuntimeHost) → (g host).runtime_host_id ≡ host.runtime_host_id)
    → ((host : RuntimeHost) (c : Counter) → counter c (g host).slots ≡ counter c host.slots)
    → Accounted (map_values g hosts) items
map_hosts-Accounted {hosts} {items} g a key same = record {
  host_distinct = map_values-Distinct g hosts a.host_distinct;
  host_keys = λ j x p. elim (Option-cases (lookup j hosts)) [
    | inl e ↦ ground (arith, lookup-map_values g j hosts)
    | inr (host, e) ↦ ground (arith, lookup-map_values g j hosts, key host, a.host_keys j host e)
  ];
  item_keys = a.item_keys;
  counted = λ h c. elim (Option-cases (lookup h hosts)) [
    | inl e ↦ ground (arith, lookup-map_values g h hosts, a.counted h c)
    | inr (host, e) ↦ ground (arith, lookup-map_values g h hosts, same host c, a.counted h c)
  ];
}

pub check_health-Accounted :
    {hosts : Map RuntimeHost} {items : Map Reservation} (now unhealthy offline : ℕ)
    → Accounted hosts items
    → Accounted (map_values (check_health now unhealthy offline) hosts) items
unfolding check_health
check_health-Accounted now unhealthy offline a =
    map_hosts-Accounted _ a (λ host. ground arith) (λ host c. ground arith)

-- The recount of a host adds up what the reservations count on it.
counter-recount_slots :
    (h : ℕ) (c : Counter) (items : List Reservation) (s : Slots)
    → counter c (recount_slots h items s) ≡ counter c s + sum_of (weight_on h c) items
unfolding recount_slots sum_of count_slot increment_reserved increment_active
counter-recount_slots h c [] s = omega arith
counter-recount_slots h c (item ∷ items) s =
    ground (
      arith,
      counter-recount_slots h c items s,
      counter-recount_slots h c items (count_slot item s),
    )

counter-no_slots : (c : Counter) → counter c no_slots ≡ 0
counter-no_slots c = ground arith

lookup-recount_hosts :
    (items : List Reservation) (h : ℕ) (hosts : Map RuntimeHost)
    → lookup h (recount_hosts items hosts)
      ≡ Option.map (λ host. (recount_host items (h, host)).1) (lookup h hosts)
unfolding recount_hosts recount_host lookup
lookup-recount_hosts items h [] = refl
lookup-recount_hosts items h ((k, v) ∷ hosts) = ground (arith, lookup-recount_hosts items h hosts)

recount_hosts-Distinct :
    (items : List Reservation) (hosts : Map RuntimeHost)
    → Distinct hosts
    → Distinct (recount_hosts items hosts)
unfolding recount_hosts recount_host
recount_hosts-Distinct items [] d = tt
recount_hosts-Distinct items ((k, v) ∷ hosts) d = (
  ground (arith, lookup-recount_hosts items k hosts, d.0),
  recount_hosts-Distinct items hosts d.1,
)

-- Whatever the counters said before: after RecalculateHostCounters each counter of each host is the
-- number of the reservations that it stands for, where hosts and reservations stand under their
-- names and no reservation counts on a host that is not registered.
pub recalculate_host_counters-Balanced :
    (r : Repository)
    → Distinct r.hosts
    → ((h : ℕ) (host : RuntimeHost) → lookup h r.hosts ≡ some host → host.runtime_host_id ≡ h)
    → ((id : ℕ) (item : Reservation)
        → lookup id r.reservations ≡ some item
        → item.reservation_id ≡ id)
    → ((h : ℕ) (c : Counter) → lookup h r.hosts ≡ none → total (weight_on h c) r.reservations ≡ 0)
    → Balanced (recalculate_host_counters r)
unfolding recalculate_host_counters recount_host
recalculate_host_counters-Balanced r distinct keys item_keys nowhere = record {
  host_distinct = recount_hosts-Distinct (values r.reservations) r.hosts distinct;
  host_keys = λ h host e. elim (Option-cases (lookup h r.hosts)) [
    | inl n ↦ ground (arith, lookup-recount_hosts (values r.reservations) h r.hosts)
    | inr (x, s) ↦
        ground (arith, lookup-recount_hosts (values r.reservations) h r.hosts, keys h x s)
  ];
  item_keys = item_keys;
  counted = λ h c. elim (Option-cases (lookup h r.hosts)) [
    | inl n ↦ ground (arith, lookup-recount_hosts (values r.reservations) h r.hosts, nowhere h c n)
    | inr (x, s) ↦ ground (
      arith,
      lookup-recount_hosts (values r.reservations) h r.hosts,
      counter-recount_slots h c (values r.reservations) no_slots,
      counter-no_slots c,
      sum_of-values (weight_on h c) r.reservations,
    )
  ];
}

-- In a balanced repository the recount keeps the balance.
pub recalculate-Balanced_keep :
    (r : Repository) → Balanced r → Balanced (recalculate_host_counters r)
recalculate-Balanced_keep r a =
    recalculate_host_counters-Balanced r a.host_distinct a.host_keys a.item_keys
      (λ h c e. ground (arith, a.counted h c))
