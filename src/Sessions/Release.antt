-- ===== src/Sessions/Release.antt =====
-- Release and Recover of runtime_session_admission.go, in memory, with the cleanup records that they
-- and the backfill make.
use yuex.Prelude.{
  ℕ, ◌+◌, Bool, true, false, not, ◌&&◌, ◌||◌, Option, none, some, List, [], ◌∷◌, lookup, insert,
  ltb, leb, is_zero, if◌then◌else◌, sort, Result, Done, ok, err, invalid_argument,
  stale_fencing_token, runtime_session_cleanup_conflict,
}
use yuex.Sessions.Types.{
  Admission, AdmissionState, AdmissionLease, CleanupOrigin, CleanupRecord, CleanupStatus,
  ReleaseReason, Sessions, admission_active, admission_ended, admission_matches,
  cleanup_identity_matches, lease_is_complete, valid_release_reason,
}
use yuex.Sessions.Admit.{with_admission}

-- runtimeSessionAdmissionCleanupOrigin
abbrev pub cleanup_origin : ReleaseReason → CleanupOrigin
cleanup_origin ReleaseReason.orphaned = CleanupOrigin.orphan_recovery
cleanup_origin ReleaseReason.recovered = CleanupOrigin.orphan_recovery
cleanup_origin ReleaseReason.lease_expired = CleanupOrigin.lease_expiry
cleanup_origin reason = CleanupOrigin.direct_release

unfoldable pub new_record : Admission → CleanupOrigin → ReleaseReason → ℕ → CleanupRecord
new_record a origin reason now = record {
  admission = a;
  origin = origin;
  reason = reason;
  status = CleanupStatus.pending;
  attempt = 0;
  owner_id = 0;
  fence = 0;
  expires_at = 0;
  next_try_at = now;
  last_error = none;
  completed = 0;
}

abbrev pub with_record : ℕ → CleanupRecord → Sessions → Sessions
with_record id rec s = record s { cleanup = insert id rec s.cleanup }

-- ensureAdmissionCleanupMemoryLocked
unfoldable pub ensure_cleanup :
    Admission → CleanupOrigin → ReleaseReason → ℕ → Sessions → Sessions × Done
unfolding new_record
ensure_cleanup a origin reason now s = elim (lookup a.admission_id s.cleanup) [
  | none ↦ (with_record a.admission_id (new_record a origin reason now) s, ok tt)
  | some existing ↦
      if cleanup_identity_matches existing.admission a
      then (s, ok tt)
      else (s, err runtime_session_cleanup_conflict)
]

-- An admission that ends.
unfoldable pub ended_as : AdmissionState → ℕ → Admission → Admission
ended_as state now a = record a { state = state; updated_at = now; version = a.version + 1 }

-- The reason with which an ended admission is released again: the recorded one, if it is valid.
abbrev pub effective_reason : ReleaseReason → Option CleanupRecord → ReleaseReason
effective_reason reason none = reason
effective_reason reason (some existing) =
    if valid_release_reason existing.reason then existing.reason else reason

-- A changed state with the answer of the enqueue.
abbrev pub answer : Bool → Sessions × Done → Sessions × Result Bool
answer changed (s, err e) = (s, err e)
answer changed (s, ok done) = (s, ok changed)

unfoldable pub release_found : ReleaseReason → ℕ → Admission → Sessions → Sessions × Result Bool
unfolding ensure_cleanup ended_as
release_found reason now current s =
    let again = effective_reason reason (lookup current.admission_id s.cleanup) in
    let a = ended_as AdmissionState.released now current in
    if admission_ended current.state
    then answer false (ensure_cleanup current (cleanup_origin again) again now s)
    else answer true
        (ensure_cleanup a (cleanup_origin reason) reason now (with_admission a.admission_id a s))

-- releaseAdmissionMemory
unfoldable pub release_memory :
    AdmissionLease → ReleaseReason → ℕ → Sessions → Sessions × Result Bool
unfolding release_found
release_memory h reason now s = elim (lookup h.admission.admission_id s.items) [
  | none ↦ (s, err stale_fencing_token)
  | some current ↦
      if admission_matches current h.admission
      then release_found reason now current s
      else (s, err stale_fencing_token)
]

-- Release, up to the call of DrainAdmissionCleanup.
unfoldable pub release : AdmissionLease → ReleaseReason → ℕ → Sessions → Sessions × Result Bool
unfolding release_memory
release h reason now s =
    if not (lease_is_complete h) || not (valid_release_reason reason)
    then (s, err invalid_argument)
    else release_memory h reason now s

pub record RecoveryReport : Type 0 where
  pub scanned : ℕ
  pub recovering : ℕ
  pub expired : ℕ

-- One round of the loop of Recover: nothing for an admission that is not due.
unfoldable pub recover_one : ℕ → ℕ → Sessions → Option (Sessions × Done)
unfolding ensure_cleanup ended_as
recover_one now id s = elim (lookup id s.items) [
  | none ↦ none
  | some item ↦
      let a = ended_as AdmissionState.expired now item in
      if admission_active item.state && leb item.expires_at now
      then some (
          ensure_cleanup a CleanupOrigin.lease_expiry ReleaseReason.lease_expired now
            (with_admission id a s))
      else none
]

-- The loop of Recover over the keys of the map.
unfoldable pub recover_loop :
    ℕ → ℕ → List (ℕ × Admission) → RecoveryReport → Sessions → Sessions × RecoveryReport × Done
unfolding recover_one
recover_loop now limit [] report s = (s, report, ok tt)
recover_loop now limit ((id, a) ∷ rest) report s =
    if leb limit report.scanned then (s, report, ok tt) else elim (recover_one now id s) [
      | none ↦ recover_loop now limit rest report s
      | some (s', err e) ↦ (s', record report { scanned = report.scanned + 1 }, err e)
      | some (s', ok done) ↦
          let seen = record report { scanned = report.scanned + 1; expired = report.expired + 1 } in
          recover_loop now limit rest seen s'
    ]

-- The limit of Recover: 100 by default, and at most 500.
unfoldable pub recover_limit : ℕ → ℕ
recover_limit limit = if is_zero limit then 100 else if ltb 500 limit then 500 else limit

-- Recover
unfoldable pub recover : ℕ → ℕ → Sessions → Sessions × RecoveryReport × Done
unfolding recover_loop recover_limit
recover now limit s =
    recover_loop now (recover_limit limit) s.items
      (record { scanned = 0; recovering = 0; expired = 0 }) s

-- runtimeSessionAdmissionCleanupBackfillReason without a recorded reason
abbrev pub backfill_reason : AdmissionState → ReleaseReason
backfill_reason AdmissionState.expired = ReleaseReason.lease_expired
backfill_reason state = ReleaseReason.recovered

-- One round of the loop of backfillAdmissionCleanupMemory: nothing where no record is missing.
unfoldable pub backfill_one : ℕ → ℕ → Sessions → Option (Sessions × Done)
unfolding ensure_cleanup
backfill_one now id s = elim (lookup id s.items) [
  | none ↦ none
  | some a ↦
      let reason = backfill_reason a.state in
      if admission_ended a.state
      then elim (lookup id s.cleanup) [
        | none ↦ some (ensure_cleanup a (cleanup_origin reason) reason now s)
        | some existing ↦
            if cleanup_identity_matches existing.admission a
            then none
            else some (s, err runtime_session_cleanup_conflict)
      ]
      else none
]

-- The loop over the sorted keys, with the records created so far.
unfoldable pub backfill_loop : ℕ → ℕ → List (ℕ × Admission) → ℕ → Sessions → Sessions × ℕ × Done
unfolding backfill_one
backfill_loop now limit [] created s = (s, created, ok tt)
backfill_loop now limit ((id, a) ∷ rest) created s =
    if leb limit created then (s, created, ok tt) else elim (backfill_one now id s) [
      | none ↦ backfill_loop now limit rest created s
      | some (s', err e) ↦ (s', created, err e)
      | some (s', ok done) ↦ backfill_loop now limit rest (created + 1) s'
    ]

-- backfillAdmissionCleanupMemory
unfoldable pub backfill : ℕ → ℕ → Sessions → Sessions × ℕ × Done
unfolding backfill_loop
backfill now limit s = backfill_loop now limit (sort (λ p q. ltb p.0 q.0) s.items) 0 s
