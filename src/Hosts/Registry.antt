-- ===== src/Hosts/Registry.antt =====
-- Hosts themselves: RegisterHost, HeartbeatHost and SetHostStatus of runtime_host_repository.go, and
-- RecalculateHostCounters and ReconcileHostHealth of runtime_host_reconcile.go.
use yuex.Prelude.{
  ℕ, ◌+◌, ◌*◌, String, Bool, true, false, not, ◌&&◌, ◌||◌, Option, none, some, List, [], ◌∷◌, ltb,
  leb, ◌==◌, is_zero, is_blank, str_eq, if◌then◌else◌, lookup, insert, values, map_values, any, Map,
  ErrorCode, invalid_argument, not_found, runtime_host_unauthorized, runtime_heartbeat_stale,
  runtime_host_capability_mismatch, Result, Done, ok, err,
}
use yuex.Capabilities.{
  CapabilitySnapshot, validate_agent_facing_runtime_tools, validate_runtime_capability_snapshot,
}
use yuex.Hosts.Types.{
  Slots, RuntimeHost, Reservation, Repository, HostStatus, RecoveryState, ReservationState,
  ScopeSource, active_reservation_state, is_reconciled, attestation_required, second,
}
use yuex.Hosts.Slots.{increment_reserved, increment_active, no_slots}
use yuex.Hosts.Lease.{expire_reservations}

pub record HostIdentity : Type 0 where
  pub runtime_host_id : ℕ
  pub instance_id : ℕ
  pub environment : String

pub record Registration : Type 0 where
  pub endpoint : ℕ
  pub zone : ℕ
  pub runtime_version : ℕ
  pub adapter_version : ℕ
  pub capabilities : CapabilitySnapshot
  pub session_store_id : ℕ
  pub max_active_runs : ℕ
  pub max_product_thread_runs : ℕ
  pub max_detached_task_runs : ℕ

pub record Heartbeat : Type 0 where
  pub sequence : ℕ
  pub observed_at : ℕ
  pub active_runs : ℕ
  pub reserved_runs : ℕ
  pub capability_hash : ℕ
  pub signature_key_id : ℕ

-- The checks of RegisterHost before its limits.
registration_error : HostIdentity → Registration → Option ErrorCode
registration_error i c =
    if is_zero i.runtime_host_id
      || is_zero i.instance_id
      || is_blank i.environment
      || is_zero c.endpoint
      || ltb c.max_active_runs 1
      || is_zero c.capabilities.capability_hash
    then some invalid_argument
    else elim (validate_agent_facing_runtime_tools c.capabilities.tools) [
      | some e ↦ some e
      | none ↦
          if attestation_required i.environment
          then validate_runtime_capability_snapshot c.capabilities
          else none
    ]

-- A limit that is not given is the limit for all runs.
abbrev limit_or : ℕ → ℕ → ℕ
limit_or limit all = if is_zero limit then all else limit

unfoldable pub fresh_host : HostIdentity → Registration → ℕ → RuntimeHost
fresh_host i c now = record {
  runtime_host_id = i.runtime_host_id;
  instance_id = i.instance_id;
  environment = i.environment;
  endpoint = c.endpoint;
  zone = c.zone;
  status = HostStatus.registering;
  runtime_version = c.runtime_version;
  adapter_version = c.adapter_version;
  capability_hash = c.capabilities.capability_hash;
  capabilities = c.capabilities;
  session_store_id = c.session_store_id;
  max_active_runs = c.max_active_runs;
  max_product_thread_runs = limit_or c.max_product_thread_runs c.max_active_runs;
  max_detached_task_runs = limit_or c.max_detached_task_runs c.max_active_runs;
  slots = no_slots;
  reported_active_runs = 0;
  reported_reserved_runs = 0;
  instance_generation = 1;
  recovery_revision = 1;
  recovery_state =
      if attestation_required i.environment
      then RecoveryState.pending
      else RecoveryState.reconciled;
  heartbeat_sequence = 0;
  last_heartbeat_at = 0;
  drain_deadline_at = 0;
  updated_at = now;
}

-- What a registered host keeps when it registers again. Its revision grows, so it is never below 1.
unfoldable pub rejoin_host : HostIdentity → RuntimeHost → RuntimeHost → RuntimeHost
rejoin_host i current host = record host {
  slots = current.slots;
  reported_active_runs = current.reported_active_runs;
  reported_reserved_runs = current.reported_reserved_runs;
  heartbeat_sequence = current.heartbeat_sequence;
  instance_generation =
      if current.instance_id == i.instance_id
      then current.instance_generation
      else current.instance_generation + 1;
  recovery_revision = current.recovery_revision + 1;
  recovery_state =
      if attestation_required i.environment
        || ltb 0 current.active_runs
        || ltb 0 current.reserved_runs
      then RecoveryState.pending
      else host.recovery_state;
}

register_over :
    HostIdentity → RuntimeHost → Option RuntimeHost → Repository → Repository × Result RuntimeHost
register_over i host none r =
    (record r { hosts = insert host.runtime_host_id host r.hosts }, ok host)
register_over i host (some current) r =
    if not (str_eq current.environment i.environment)
    then (r, err runtime_host_unauthorized)
    else let joined = rejoin_host i current host in
      (record r { hosts = insert host.runtime_host_id joined r.hosts }, ok joined)

-- RegisterHost
unfoldable pub register_host :
    HostIdentity → Registration → ℕ → Repository → Repository × Result RuntimeHost
unfolding registration_error register_over fresh_host
register_host i c now r = elim (registration_error i c) [
  | some e ↦ (r, err e)
  | none ↦
      let host = fresh_host i c now in
      if ltb host.max_active_runs host.max_product_thread_runs
        || ltb host.max_active_runs host.max_detached_task_runs
      then (r, err invalid_argument)
      else register_over i host (lookup i.runtime_host_id r.hosts) r
]

-- A heartbeat makes a registering or unhealthy host ready, once it is reconciled.
abbrev wakes : HostStatus → Bool
wakes HostStatus.registering = true
wakes HostStatus.unhealthy = true
wakes _ = false

unfoldable pub beat : Heartbeat → ℕ → RuntimeHost → RuntimeHost
beat b now host = record host {
  heartbeat_sequence = b.sequence;
  last_heartbeat_at = if is_zero b.observed_at then now else b.observed_at;
  reported_active_runs = b.active_runs;
  reported_reserved_runs = b.reserved_runs;
  status =
      if wakes host.status && is_reconciled host.recovery_state
      then HostStatus.ready
      else host.status;
  updated_at = now;
}

heartbeat_found :
    HostIdentity → Heartbeat → ℕ → Option RuntimeHost → Repository → Repository × Result RuntimeHost
heartbeat_found i b now none r = (r, err runtime_host_unauthorized)
heartbeat_found i b now (some host) r =
    if not (host.instance_id == i.instance_id && str_eq host.environment i.environment)
    then (r, err runtime_host_unauthorized)
    else if leb b.sequence host.heartbeat_sequence
    then (r, err runtime_heartbeat_stale)
    else if is_zero b.capability_hash || not (b.capability_hash == host.capability_hash)
    then (r, err runtime_host_capability_mismatch)
    else (
      record r { hosts = insert host.runtime_host_id (beat b now host) r.hosts },
      ok (beat b now host),
    )

-- HeartbeatHost
unfoldable pub heartbeat_host :
    HostIdentity → Heartbeat → ℕ → Repository → Repository × Result RuntimeHost
unfolding heartbeat_found
heartbeat_host i b now r =
    if ltb b.sequence 1 || is_zero b.signature_key_id
    then (r, err invalid_argument)
    else heartbeat_found i b now (lookup i.runtime_host_id r.hosts) r

-- validRuntimeHostStatus
abbrev valid_host_status : HostStatus → Bool
valid_host_status HostStatus.unknown_status = false
valid_host_status _ = true

unfoldable pub status_set : HostStatus → ℕ → ℕ → RuntimeHost → RuntimeHost
status_set status deadline now host = record host {
  status = status;
  drain_deadline_at = deadline;
  updated_at = now;
}

-- SetHostStatus
unfoldable pub set_host_status : ℕ → HostStatus → ℕ → ℕ → Repository → Repository × Done
set_host_status id status deadline now r =
    if not (valid_host_status status) then (r, err invalid_argument) else elim (lookup id r.hosts) [
      | none ↦ (r, err not_found)
      | some host ↦
          (record r { hosts = insert id (status_set status deadline now host) r.hosts }, ok tt)
    ]

-- One reservation's share in the recount.
unfoldable pub count_slot : Reservation → Slots → Slots
count_slot item s = elim item.state [
  | ReservationState.reserved ↦ increment_reserved s item.execution_scope
  | ReservationState.accepted ↦ increment_active s item.execution_scope
  | ReservationState.running ↦ increment_active s item.execution_scope
  | _ ↦ s
]

unfoldable pub recount_slots : ℕ → List Reservation → Slots → Slots
recount_slots host [] s = s
recount_slots host (item ∷ items) s =
    recount_slots host items (if item.runtime_host_id == host then count_slot item s else s)

abbrev is_legacy : ScopeSource → Bool
is_legacy ScopeSource.legacy_unclassified = true
is_legacy ScopeSource.explicit = false

-- An active reservation of an unclassified scope keeps its host pending.
legacy_bound : ℕ → List Reservation → Bool
legacy_bound host items =
    any
      (λ item.
        item.runtime_host_id == host
        && active_reservation_state item.state
        && is_legacy item.execution_scope_source)
      items

unfoldable pub recount_host : List Reservation → ℕ × RuntimeHost → ℕ × RuntimeHost
unfolding legacy_bound
recount_host items (id, host) = (
  id,
  record host {
    slots = recount_slots id items no_slots;
    recovery_state =
        if attestation_required host.environment
        then host.recovery_state
        else if legacy_bound id items
        then RecoveryState.pending
        else RecoveryState.reconciled;
  },
)

unfoldable pub recount_hosts : List Reservation → Map RuntimeHost → Map RuntimeHost
unfolding recount_host
recount_hosts items [] = []
recount_hosts items (entry ∷ hosts) = recount_host items entry ∷ recount_hosts items hosts

-- RecalculateHostCounters
unfoldable pub recalculate_host_counters : Repository → Repository
unfolding recount_hosts
recalculate_host_counters r = record r { hosts = recount_hosts (values r.reservations) r.hosts }

-- The time of the last sign of life: of the last heartbeat, or of the registration.
abbrev last_sign : RuntimeHost → ℕ
last_sign host = if is_zero host.last_heartbeat_at then host.updated_at else host.last_heartbeat_at

abbrev is_awake : HostStatus → Bool
is_awake HostStatus.registering = true
is_awake HostStatus.ready = true
is_awake _ = false

abbrev may_go_offline : HostStatus → Bool
may_go_offline HostStatus.unhealthy = true
may_go_offline status = is_awake status

-- One round of reconcileHostHealthMemory. `last.After(now - d)` is `now < last + d`.
unfoldable pub check_health : ℕ → ℕ → ℕ → RuntimeHost → RuntimeHost
check_health now unhealthy_after offline_after host =
    if may_go_offline host.status && leb (last_sign host + offline_after) now
    then record host { status = HostStatus.offline; updated_at = now }
    else if is_awake host.status && leb (last_sign host + unhealthy_after) now
    then record host { status = HostStatus.unhealthy; updated_at = now }
    else host

-- The defaults of ReconcileHostHealth: 30 seconds, and 90 seconds where the second limit does not
-- exceed the first.
abbrev unhealthy_limit : ℕ → ℕ
unhealthy_limit limit = if is_zero limit then 30 * second else limit

abbrev offline_limit : ℕ → ℕ → ℕ
offline_limit unhealthy_after limit = if leb limit unhealthy_after then 90 * second else limit

-- ReconcileHostHealth, without its report.
unfoldable pub reconcile_host_health : ℕ → ℕ → ℕ → Repository → Repository
reconcile_host_health now unhealthy_after offline_after r =
    let unhealthy = unhealthy_limit unhealthy_after in
    let offline = offline_limit unhealthy offline_after in
    let s : Repository = record r {
      hosts = map_values (check_health now unhealthy offline) r.hosts;
    } in
    recalculate_host_counters (expire_reservations now s).0
