-- ===== src/Sessions/Types.antt =====
-- The data of runtime_session_admission.go. Identifiers, hashes and times are numbers, with 0 for ""
-- and for the zero time, and a duration is in nanoseconds. States, reasons and origins are the closed
-- sets of words that the code tests for; a word with spaces around it stands with the trimmed one.
use yuex.Prelude.{
  ℕ, Bool, true, false, not, ◌&&◌, ◌||◌, Option, [], Map, ltb, ◌==◌, is_zero, ErrorCode,
}
use yuex.Sessions.Keys.{AdmissionKey, key_eq}

pub data AdmissionState : Type 0 where
  acquired reservation_bound dispatch_bound recovering released expired : AdmissionState

pub data ReleaseReason : Type 0 where
  succeeded failed timeout aborted orphaned reservation_failed dispatch_failed : ReleaseReason
  lease_expired recovered unknown_reason : ReleaseReason

pub data CleanupOrigin : Type 0 where
  direct_release orphan_recovery lease_expiry unknown_origin : CleanupOrigin

pub data CleanupStatus : Type 0 where
  pending running succeeded : CleanupStatus

-- RuntimeSessionAdmission
pub record Admission : Type 0 where
  pub admission_id : ℕ
  pub key : AdmissionKey
  pub binding_id : ℕ
  pub run_id : ℕ
  pub owner_instance_id : ℕ
  pub lease_token_hash : ℕ
  pub fencing_token : ℕ
  pub state : AdmissionState
  pub reservation_id : ℕ
  pub dispatch_id : ℕ
  pub expires_at : ℕ
  pub last_renewed_at : ℕ
  pub version : ℕ
  pub created_at : ℕ
  pub updated_at : ℕ

-- What this file reads of queue.DistributedLease, which the lock manager hands out.
pub record DistributedLease : Type 0 where
  pub token : ℕ
  pub token_hash : ℕ
  pub fencing_token : ℕ
  pub expires_at : ℕ

-- RuntimeSessionAdmissionLease
pub record AdmissionLease : Type 0 where
  pub admission : Admission
  pub lease : DistributedLease

-- ProductSessionAdmissionCommand
pub record AdmissionCommand : Type 0 where
  pub key : AdmissionKey
  pub binding_id : ℕ
  pub run_id : ℕ
  pub owner_instance_id : ℕ
  pub ttl : ℕ

-- runtimeSessionAdmissionCleanupRecord
pub record CleanupRecord : Type 0 where
  pub admission : Admission
  pub origin : CleanupOrigin
  pub reason : ReleaseReason
  pub status : CleanupStatus
  pub attempt : ℕ
  pub owner_id : ℕ
  pub fence : ℕ
  pub expires_at : ℕ
  pub next_try_at : ℕ
  pub last_error : Option ErrorCode
  pub completed : ℕ

-- runtimeSessionAdmissionCleanupClaim
pub record CleanupClaim : Type 0 where
  pub admission : Admission
  pub origin : CleanupOrigin
  pub reason : ReleaseReason
  pub owner_id : ℕ
  pub fence : ℕ
  pub expires_at : ℕ
  pub attempt : ℕ

-- The maps of RuntimeSessionAdmissionService.
pub record Sessions : Type 0 where
  pub items : Map Admission
  pub handles : Map AdmissionLease
  pub cleanup : Map CleanupRecord

-- NewRuntimeSessionAdmissionService
abbrev pub new_sessions : Sessions
new_sessions = record { items = []; handles = []; cleanup = [] }

-- runtimeSessionAdmissionActive
abbrev pub admission_active : AdmissionState → Bool
admission_active AdmissionState.released = false
admission_active AdmissionState.expired = false
admission_active state = true

-- stringInRuntime(state, released, expired)
abbrev pub admission_ended : AdmissionState → Bool
admission_ended AdmissionState.released = true
admission_ended AdmissionState.expired = true
admission_ended state = false

abbrev pub is_dispatch_bound : AdmissionState → Bool
is_dispatch_bound AdmissionState.dispatch_bound = true
is_dispatch_bound state = false

-- validRuntimeAdmissionReleaseReason
abbrev pub valid_release_reason : ReleaseReason → Bool
valid_release_reason ReleaseReason.unknown_reason = false
valid_release_reason reason = true

-- runtimeAdmissionMatches
unfoldable pub admission_matches : Admission → Admission → Bool
admission_matches current expected =
    current.admission_id == expected.admission_id
    && current.owner_instance_id == expected.owner_instance_id
    && current.run_id == expected.run_id
    && current.lease_token_hash == expected.lease_token_hash
    && current.fencing_token == expected.fencing_token

-- runtimeSessionAdmissionCleanupIdentityMatches
unfoldable pub cleanup_identity_matches : Admission → Admission → Bool
cleanup_identity_matches left right =
    left.admission_id == right.admission_id
    && key_eq left.key right.key
    && left.binding_id == right.binding_id
    && left.run_id == right.run_id
    && left.owner_instance_id == right.owner_instance_id
    && left.lease_token_hash == right.lease_token_hash
    && left.fencing_token == right.fencing_token

-- validateRuntimeSessionAdmissionLease
unfoldable pub lease_is_complete : AdmissionLease → Bool
lease_is_complete h = not (
    is_zero h.admission.admission_id
    || is_zero h.admission.lease_token_hash
    || ltb h.admission.fencing_token 1
    || is_zero h.lease.token
    || not (h.lease.token_hash == h.admission.lease_token_hash)
    || not (h.lease.fencing_token == h.admission.fencing_token))
