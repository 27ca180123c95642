-- ===== src/Hosts/Types.antt =====
-- The data of extracted/go-runtime-control-plane/internal/runtime/runtime_host_repository.go and
-- the commands of runtime_host_concurrency.go. Identifiers, hashes and times are numbers, with 0 for
-- "" and for the zero time; a duration is in nanoseconds. States are the closed sets of words that the
-- code writes.
use yuex.Prelude.{
  ℕ, ◌+◌, ◌*◌, ◌/◌, String, Bool, true, false, ◌&&◌, ◌||◌, Option, List, [], Map, ltb,
  if◌then◌else◌, trim_space, lower_eq,
}
use yuex.Capabilities.{CapabilitySnapshot}

abbrev pub second : ℕ
second = 1_000_000_000

-- runtimeInitialDispatchRecoveryDelay
abbrev pub initial_dispatch_recovery_delay : ℕ
initial_dispatch_recovery_delay = 5 * second

pub data HostStatus : Type 0 where
  registering ready draining unhealthy offline unknown_status : HostStatus

pub data RecoveryState : Type 0 where
  reconciled pending : RecoveryState

pub data ExecutionScope : Type 0 where
  product_thread detached_task unclassified_scope : ExecutionScope

pub data ScopeSource : Type 0 where
  explicit legacy_unclassified : ScopeSource

pub data ReservationState : Type 0 where
  reserved accepted running released expired : ReservationState

pub data DispatchState : Type 0 where
  created sent submit_unknown retry_same_host accepted materializing running : DispatchState
  finalizing recovering succeeded failed timeout aborted rejected orphaned : DispatchState
  retry_new_attempt cancelled : DispatchState

pub data AbortStatus : Type 0 where
  unrequested requested accepted failed terminal : AbortStatus

-- The six admission counters of a host.
pub record Slots : Type 0 where
  pub active_runs : ℕ
  pub reserved_runs : ℕ
  pub active_product_thread_runs : ℕ
  pub reserved_product_thread_runs : ℕ
  pub active_detached_task_runs : ℕ
  pub reserved_detached_task_runs : ℕ

pub record RuntimeHost : Type 0 where
  pub runtime_host_id : ℕ
  pub instance_id : ℕ
  pub environment : String
  pub endpoint : ℕ
  pub zone : ℕ
  pub status : HostStatus
  pub runtime_version : ℕ
  pub adapter_version : ℕ
  pub capability_hash : ℕ
  pub capabilities : CapabilitySnapshot
  pub session_store_id : ℕ
  pub max_active_runs : ℕ
  pub max_product_thread_runs : ℕ
  pub max_detached_task_runs : ℕ
  pub slots : Slots
  pub open slots use *
  pub reported_active_runs : ℕ
  pub reported_reserved_runs : ℕ
  pub instance_generation : ℕ
  pub recovery_revision : ℕ
  pub recovery_state : RecoveryState
  pub heartbeat_sequence : ℕ
  pub last_heartbeat_at : ℕ
  pub drain_deadline_at : ℕ
  pub updated_at : ℕ

-- RuntimeSlotReservation
pub record Reservation : Type 0 where
  pub reservation_id : ℕ
  pub run_id : ℕ
  pub runtime_host_id : ℕ
  pub assigned_instance_id : ℕ
  pub assigned_instance_generation : ℕ
  pub owner_instance_id : ℕ
  pub state : ReservationState
  pub fencing_token : ℕ
  pub lease_token_hash : ℕ
  pub capability_hash : ℕ
  pub execution_scope : ExecutionScope
  pub execution_scope_source : ScopeSource
  pub dispatch_id : ℕ
  pub version : ℕ
  pub last_renewed_at : ℕ
  pub expires_at : ℕ
  pub created_at : ℕ
  pub updated_at : ℕ

-- RuntimeDispatch. The event window of the durable table stands in the event log.
pub record Dispatch : Type 0 where
  pub dispatch_id : ℕ
  pub run_id : ℕ
  pub reservation_id : ℕ
  pub capacity_reservation_id : ℕ
  pub capacity_reserved_version : ℕ
  pub runtime_host_id : ℕ
  pub assigned_instance_id : ℕ
  pub assigned_instance_generation : ℕ
  pub dispatch_identity : ℕ
  pub dispatch_attempt : ℕ
  pub plan_version : ℕ
  pub state : DispatchState
  pub fencing_token : ℕ
  pub run_ticket_jti_hash : ℕ
  pub ticket_expires_at : ℕ
  pub input_manifest_hash : ℕ
  pub runtime_request_id : ℕ
  pub abort_requested_at : ℕ
  pub abort_status : AbortStatus
  pub owner_instance_id : ℕ
  pub lease_token_hash : ℕ
  pub lease_expires_at : ℕ
  pub recovery_owner_instance_id : ℕ
  pub recovery_fencing_token : ℕ
  pub recovery_expires_at : ℕ
  pub recovery_attempt : ℕ
  pub next_recovery_check_at : ℕ
  pub version : ℕ
  pub created_at : ℕ
  pub updated_at : ℕ

-- The in-memory maps of RuntimeHostRepository that the slot and dispatch operations use.
pub record Repository : Type 0 where
  pub hosts : Map RuntimeHost
  pub reservations : Map Reservation
  pub active_reservation_by_run : Map ℕ
  pub dispatches : Map Dispatch

-- NewRuntimeHostRepository
abbrev pub new_repository : Repository
new_repository = record {
  hosts = [];
  reservations = [];
  active_reservation_by_run = [];
  dispatches = [];
}

-- ReservationFence
pub record Fence : Type 0 where
  pub reservation_id : ℕ
  pub runtime_host_id : ℕ
  pub owner_instance_id : ℕ
  pub lease_token_hash : ℕ
  pub fencing_token : ℕ

pub record ReserveCommand : Type 0 where
  pub reservation_id : ℕ
  pub run_id : ℕ
  pub owner_instance_id : ℕ
  pub execution_scope : ExecutionScope
  pub capability_hash : ℕ
  pub runtime_version : ℕ
  pub adapter_version : ℕ
  pub required_tools : List String
  pub affinity_runtime_host_id : ℕ
  pub lease_token_hash : ℕ
  pub fencing_token : ℕ
  pub expires_at : ℕ
  pub heartbeat_after : ℕ

pub record AcceptedCommand : Type 0 where
  pub fence : Fence
  pub dispatch_id : ℕ
  pub runtime_request_id : ℕ

pub record RecoveryClaim : Type 0 where
  pub dispatch_id : ℕ
  pub owner_instance_id : ℕ
  pub fencing_token : ℕ
  pub expires_at : ℕ
  pub expected_state : DispatchState
  pub expected_version : ℕ

pub record TerminalCommand : Type 0 where
  pub fence : Fence
  pub dispatch_id : ℕ
  pub terminal_status : DispatchState
  pub recovery_claim : Option RecoveryClaim

pub record RecoveryAcceptedCommand : Type 0 where
  pub claim : RecoveryClaim
  pub fence : Fence
  pub runtime_request_id : ℕ
  pub next_check_at : ℕ

-- activeRuntimeDispatchState
abbrev pub active_dispatch_state : DispatchState → Bool
active_dispatch_state DispatchState.created = true
active_dispatch_state DispatchState.sent = true
active_dispatch_state DispatchState.submit_unknown = true
active_dispatch_state DispatchState.retry_same_host = true
active_dispatch_state DispatchState.accepted = true
active_dispatch_state DispatchState.materializing = true
active_dispatch_state DispatchState.running = true
active_dispatch_state DispatchState.finalizing = true
active_dispatch_state DispatchState.recovering = true
active_dispatch_state _ = false

-- runtimeDispatchTerminal
abbrev pub terminal_dispatch_state : DispatchState → Bool
terminal_dispatch_state DispatchState.succeeded = true
terminal_dispatch_state DispatchState.failed = true
terminal_dispatch_state DispatchState.timeout = true
terminal_dispatch_state DispatchState.aborted = true
terminal_dispatch_state DispatchState.rejected = true
terminal_dispatch_state DispatchState.orphaned = true
terminal_dispatch_state _ = false

-- activeRuntimeReservationState
abbrev pub active_reservation_state : ReservationState → Bool
active_reservation_state ReservationState.reserved = true
active_reservation_state ReservationState.accepted = true
active_reservation_state ReservationState.running = true
active_reservation_state _ = false

abbrev pub is_reserved : ReservationState → Bool
is_reserved ReservationState.reserved = true
is_reserved _ = false

abbrev pub valid_execution_scope : ExecutionScope → Bool
valid_execution_scope ExecutionScope.unclassified_scope = false
valid_execution_scope _ = true

abbrev pub is_product_thread : ExecutionScope → Bool
is_product_thread ExecutionScope.product_thread = true
is_product_thread _ = false

abbrev pub is_ready : HostStatus → Bool
is_ready HostStatus.ready = true
is_ready _ = false

abbrev pub is_reconciled : RecoveryState → Bool
is_reconciled RecoveryState.reconciled = true
is_reconciled RecoveryState.pending = false

-- runtimeHostRecoveryAttestationRequired
unfoldable pub attestation_required : String → Bool
attestation_required environment =
    let name = trim_space environment in
    lower_eq name "prelaunch" || lower_eq name "prod" || lower_eq name "production"

-- maxRuntimeAdmission(1, (max*3+3)/4)
abbrev pub admission_target : ℕ → ℕ
admission_target m = let t = (m * 3 + 3) / 4 in if ltb t 1 then 1 else t

-- runtimeHostWithinTarget
unfoldable pub host_within_target : RuntimeHost → ExecutionScope → Bool
host_within_target host scope =
    ltb 0 host.max_active_runs
    && ltb (host.active_runs + host.reserved_runs) (admission_target host.max_active_runs)
    && (if is_product_thread scope
        then ltb 0 host.max_product_thread_runs
          && ltb (host.active_product_thread_runs + host.reserved_product_thread_runs)
              (admission_target host.max_product_thread_runs)
        else ltb 0 host.max_detached_task_runs
          && ltb (host.active_detached_task_runs + host.reserved_detached_task_runs)
              (admission_target host.max_detached_task_runs))
