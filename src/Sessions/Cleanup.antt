-- ===== src/Sessions/Cleanup.antt =====
-- The cleanup worker of runtime_session_admission.go, in memory: claimAdmissionCleanupMemory,
-- completeAdmissionCleanupMemory, retryAdmissionCleanupMemory and DrainAdmissionCleanup.
use yuex.Prelude.{
  ℕ, ◌+◌, ◌*◌, Bool, true, false, not, ◌&&◌, ◌||◌, Option, none, some, [], ◌∷◌, Map, lookup, select,
  sort, ltb, leb, ◌==◌, is_zero, if◌then◌else◌, ErrorCode, Result, Done, ok, err, invalid_argument,
  stale_fencing_token, runtime_session_cleanup_failed, runtime_session_cleanup_unavailable,
  runtime_session_cleanup_invalid_proof,
}
use yuex.Hosts.Types.{second}
use yuex.Sessions.Keys.{Bytes, redis_key}
use yuex.Sessions.Types.{
  Admission, CleanupClaim, CleanupOrigin, CleanupRecord, CleanupStatus, Sessions, admission_ended,
  cleanup_identity_matches, valid_release_reason,
}
use yuex.Sessions.Admit.{is_empty}
use yuex.Sessions.Release.{with_record}

abbrev pub is_running : CleanupStatus → Bool
is_running CleanupStatus.running = true
is_running status = false

-- A pending record whose time has come, or one whose claim ran out.
unfoldable pub cleanup_is_due : ℕ → Option CleanupRecord → Bool
cleanup_is_due now none = false
cleanup_is_due now (some rec) = elim rec.status [
  | CleanupStatus.pending ↦ leb rec.next_try_at now
  | CleanupStatus.running ↦ leb rec.expires_at now
  | CleanupStatus.succeeded ↦ false
]

-- The earliest next try first.
abbrev pub sooner : ℕ × CleanupRecord → ℕ × CleanupRecord → Bool
sooner p q =
    if p.1.next_try_at == q.1.next_try_at then ltb p.0 q.0 else ltb p.1.next_try_at q.1.next_try_at

unfoldable pub due_records : ℕ → Sessions → Map CleanupRecord
unfolding cleanup_is_due
due_records now s = sort sooner (select (λ p. cleanup_is_due now (lookup p.0 s.cleanup)) s.cleanup)

-- The record of an admission that has ended and is still the recorded one.
unfoldable pub claimable : ℕ → Sessions → Option CleanupRecord
claimable id s = elim (lookup id s.cleanup) [
  | none ↦ none
  | some rec ↦ elim (lookup id s.items) [
    | none ↦ none
    | some current ↦
        if cleanup_identity_matches rec.admission current && admission_ended current.state
        then some rec
        else none
  ]
]

unfoldable pub claimed_record : ℕ → ℕ → ℕ → CleanupRecord → CleanupRecord
claimed_record worker now ttl rec = record rec {
  status = CleanupStatus.running;
  owner_id = worker;
  fence = rec.fence + 1;
  expires_at = now + ttl;
  attempt = rec.attempt + 1;
}

abbrev pub claim_of : CleanupRecord → CleanupClaim
claim_of rec = record {
  admission = rec.admission;
  origin = rec.origin;
  reason = rec.reason;
  owner_id = rec.owner_id;
  fence = rec.fence;
  expires_at = rec.expires_at;
  attempt = rec.attempt;
}

-- The loop of claimAdmissionCleanupMemory over the due records.
unfoldable pub claim_first :
    ℕ → ℕ → ℕ → Map CleanupRecord → Sessions → Sessions × Result (Option CleanupClaim)
unfolding claimable claimed_record
claim_first worker now ttl [] s = (s, ok none)
claim_first worker now ttl ((id, entry) ∷ rest) s = elim (claimable id s) [
  | none ↦ claim_first worker now ttl rest s
  | some rec ↦
      let rec' = claimed_record worker now ttl rec in
      (with_record id rec' s, ok (some (claim_of rec')))
]

-- claimAdmissionCleanupMemory
unfoldable pub claim_cleanup : ℕ → ℕ → ℕ → Sessions → Sessions × Result (Option CleanupClaim)
unfolding claim_first due_records
claim_cleanup worker ttl now s =
    if is_zero worker || is_zero ttl
    then (s, err invalid_argument)
    else claim_first worker now ttl (due_records now s) s

-- The record is running under the very claim, and the claim has not run out.
unfoldable pub claim_is_held : CleanupClaim → ℕ → CleanupRecord → Admission → Bool
claim_is_held c now rec current =
    cleanup_identity_matches rec.admission c.admission
    && cleanup_identity_matches current c.admission
    && admission_ended current.state
    && is_running rec.status
    && rec.owner_id == c.owner_id
    && rec.fence == c.fence
    && rec.expires_at == c.expires_at
    && ltb now rec.expires_at

-- A write to the record of a held claim: the common part of complete and retry.
unfoldable pub settle :
    (CleanupRecord → CleanupRecord) → CleanupClaim → ℕ → Sessions → Sessions × Done
unfolding claim_is_held
settle change c now s = elim (lookup c.admission.admission_id s.cleanup) [
  | none ↦ (s, err stale_fencing_token)
  | some rec ↦ elim (lookup c.admission.admission_id s.items) [
    | none ↦ (s, err stale_fencing_token)
    | some current ↦
        if claim_is_held c now rec current
        then (with_record c.admission.admission_id (change rec) s, ok tt)
        else (s, err stale_fencing_token)
  ]
]

unfoldable pub completed_record : ℕ → CleanupRecord → CleanupRecord
completed_record now rec = record rec {
  status = CleanupStatus.succeeded;
  owner_id = 0;
  expires_at = 0;
  last_error = none;
  completed = now;
}

-- completeAdmissionCleanupMemory
unfoldable pub complete_cleanup : CleanupClaim → ℕ → Sessions → Sessions × Done
unfolding settle completed_record
complete_cleanup c now s = settle (completed_record now) c now s

-- runtimeSessionTerminalCleanupRetryDelay
unfoldable pub retry_delay : ℕ → ℕ
retry_delay attempt =
    (if ltb attempt 1 then 1 else if ltb 12 attempt then 12 else attempt) * 5 * second

unfoldable pub retried_record : ErrorCode → ℕ → ℕ → CleanupRecord → CleanupRecord
unfolding retry_delay
retried_record code attempt now rec = record rec {
  status = CleanupStatus.pending;
  owner_id = 0;
  expires_at = 0;
  last_error = some code;
  next_try_at = now + retry_delay attempt;
}

-- retryAdmissionCleanupMemory
unfoldable pub retry_cleanup : CleanupClaim → ErrorCode → ℕ → Sessions → Sessions × Done
unfolding settle retried_record
retry_cleanup c code now s = settle (retried_record code c.attempt now) c now s

-- What queue.TerminalLeaseReleaseProof carries.
pub record LeaseProof : Type 0 where
  pub key : Bytes
  pub owner_instance_id : ℕ
  pub run_id : ℕ
  pub token_hash : ℕ
  pub fencing_token : ℕ

-- runtimeSessionTerminalCleanupProof
unfoldable pub terminal_cleanup_proof : Admission → Option LeaseProof
terminal_cleanup_proof a =
    if is_empty (redis_key a.key)
      || is_zero a.owner_instance_id
      || is_zero a.run_id
      || is_zero a.lease_token_hash
      || ltb a.fencing_token 1
      || not (admission_ended a.state)
    then none
    else some (record {
      key = redis_key a.key;
      owner_instance_id = a.owner_instance_id;
      run_id = a.run_id;
      token_hash = a.lease_token_hash;
      fencing_token = a.fencing_token;
    })

-- validRuntimeSessionAdmissionCleanupOrigin
abbrev pub valid_cleanup_origin : CleanupOrigin → Bool
valid_cleanup_origin CleanupOrigin.unknown_origin = false
valid_cleanup_origin origin = true

-- runtimeSessionAdmissionCleanupProof
unfoldable pub cleanup_proof : CleanupClaim → Option LeaseProof
unfolding terminal_cleanup_proof
cleanup_proof c =
    if valid_cleanup_origin c.origin && valid_release_reason c.reason
    then terminal_cleanup_proof c.admission
    else none

-- runtimeSessionTerminalCleanupErrorCode
abbrev pub cleanup_error_code : ErrorCode → ErrorCode
cleanup_error_code ErrorCode.distributed_lock_unavailable = runtime_session_cleanup_unavailable
cleanup_error_code ErrorCode.invalid_argument = runtime_session_cleanup_invalid_proof
cleanup_error_code e = runtime_session_cleanup_failed
