-- ===== src/Hosts/Accounting.antt =====
-- Slot accounting: the six counters of a host against a count of the reservations themselves.
pub mod Moves
pub mod Operations
pub mod Hosts
pub mod Exclusive
use yuex.Prelude.{
  ℕ, ◌≡◌, Bool, true, false, some, Map, lookup, total, weigh, Distinct, ◌==◌, if◌then◌else◌,
}
use yuex.Hosts.Types.{
  Slots, RuntimeHost, Reservation, Repository, ReservationState, ExecutionScope, is_product_thread,
  active_reservation_state,
}

-- The counters, as the fields of `Slots`.
pub data Counter : Type 0 where
  active reserved active_product reserved_product active_detached reserved_detached : Counter

abbrev pub counter : Counter → Slots → ℕ
counter active s = s.active_runs
counter reserved s = s.reserved_runs
counter active_product s = s.active_product_thread_runs
counter reserved_product s = s.reserved_product_thread_runs
counter active_detached s = s.active_detached_task_runs
counter reserved_detached s = s.reserved_detached_task_runs

-- Whether a slot in this state is reserved, or accepted and in use.
abbrev pub holds_reserved : ReservationState → ℕ
holds_reserved ReservationState.reserved = 1
holds_reserved _ = 0

abbrev pub holds_active : ReservationState → ℕ
holds_active ReservationState.accepted = 1
holds_active ReservationState.running = 1
holds_active _ = 0

abbrev pub weight : Counter → ReservationState → ExecutionScope → ℕ
weight active state scope = holds_active state
weight reserved state scope = holds_reserved state
weight active_product state scope = if is_product_thread scope then holds_active state else 0
weight reserved_product state scope = if is_product_thread scope then holds_reserved state else 0
weight active_detached state scope = if is_product_thread scope then 0 else holds_active state
weight reserved_detached state scope = if is_product_thread scope then 0 else holds_reserved state

-- What a reservation counts on the host `h`.
abbrev pub weight_on : ℕ → Counter → Reservation → ℕ
weight_on h c item =
    if item.runtime_host_id == h then weight c item.state item.execution_scope else 0

abbrev pub slots_at : ℕ → Counter → Map RuntimeHost → ℕ
slots_at h c hosts = weigh (λ host. counter c host.slots) (lookup h hosts)

-- Each counter of each host is the number of the reservations that it stands for, and a host that
-- is not registered has none.
pub record Accounted (hosts : Map RuntimeHost) (items : Map Reservation) : Type 0 where
  pub host_distinct : Distinct hosts
  pub host_keys :
      (h : ℕ) (host : RuntimeHost) → lookup h hosts ≡ some host → host.runtime_host_id ≡ h
  pub item_keys :
      (id : ℕ) (item : Reservation) → lookup id items ≡ some item → item.reservation_id ≡ id
  pub counted : (h : ℕ) (c : Counter) → slots_at h c hosts ≡ total (weight_on h c) items
