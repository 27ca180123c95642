-- ===== src/SessionExamples.antt =====
-- A run of the service of runtime_session_admission.go in memory: two product sessions are admitted
-- and released, and their cleanup records are claimed.
use yuex.Prelude.{ℕ, ◌+◌, ◌*◌, ◌≡◌, refl, true, none, some, ok, err, ErrorCode, [], ◌∷◌, arith}
use yuex.Sessions.Keys.{AdmissionKey}
use yuex.Sessions.Types.{
  Admission, AdmissionState, AdmissionCommand, AdmissionLease, CleanupClaim, CleanupOrigin,
  CleanupRecord, CleanupStatus, DistributedLease, ReleaseReason, Sessions, new_sessions,
}
use yuex.Sessions.Drain.{Round}
use yuex.Sessions.System.{Step, Reach}
use yuex.Sessions.Keys.{
  bytes_eq, key_eq, is_blank_text, key_is_valid, hex_digit, is_plain, encode_segment, decimal_from,
  decimal, redis_key,
}
use yuex.Sessions.Types.{admission_matches, cleanup_identity_matches, lease_is_complete}
use yuex.Sessions.Admit.{command_is_complete, session_is_busy, new_admission, admit, acquire}
use yuex.Sessions.Release.{
  new_record, ensure_cleanup, ended_as, release_found, release_memory, release,
}
use yuex.Sessions.Cleanup.{
  cleanup_is_due, due_records, claimable, claimed_record, claim_first, claim_cleanup, claim_is_held,
  settle, completed_record, complete_cleanup, terminal_cleanup_proof, cleanup_proof,
}
use yuex.Sessions.Drain.{end_completed, end_round, drain_loop, drain_limit, drain_cleanup}
use yuex.Prelude.{select, any, insert_sorted, sort, lookup, insert, delete, values}

abbrev pub key_of : ℕ → AdmissionKey
key_of thread = record {
  tenant_id = 97 ∷ 58 ∷ [];
  thread_id = thread ∷ [];
  agent_profile = 37 ∷ [];
  context_generation = 12;
  session_generation = 1;
}

abbrev pub name : AdmissionKey → ℕ → ℕ → ℕ
name k run fencing = run * 100 + fencing

abbrev pub command_of : ℕ → ℕ → AdmissionCommand
command_of thread run = record {
  key = key_of thread;
  binding_id = 5;
  run_id = run;
  owner_instance_id = 3;
  ttl = 60;
}

abbrev pub lease_of : ℕ → DistributedLease
lease_of fencing = record { token = 11; token_hash = 12; fencing_token = fencing; expires_at = 100 }

-- Run 7 holds the session of thread 98, and run 8 that of thread 99.
abbrev pub admission_of : ℕ → ℕ → Admission
admission_of thread run = record {
  admission_id = run * 100 + 1;
  key = key_of thread;
  binding_id = 5;
  run_id = run;
  owner_instance_id = 3;
  lease_token_hash = 12;
  fencing_token = 1;
  state = AdmissionState.acquired;
  reservation_id = 0;
  dispatch_id = 0;
  expires_at = 100;
  last_renewed_at = 10;
  version = 1;
  created_at = 10;
  updated_at = 10;
}

abbrev pub handle_of : ℕ → ℕ → AdmissionLease
handle_of thread run = record { admission = admission_of thread run; lease = lease_of 1 }

abbrev pub released_of : ℕ → ℕ → Admission
released_of thread run = record (admission_of thread run) {
  state = AdmissionState.released;
  version = 2;
  updated_at = 20;
}

abbrev pub admitted_one : Sessions
admitted_one = record {
  items = (701, admission_of 98 7) ∷ [];
  handles = (701, handle_of 98 7) ∷ [];
  cleanup = [];
}

abbrev pub admitted_two : Sessions
admitted_two = record {
  items = (701, admission_of 98 7) ∷ (801, admission_of 99 8) ∷ [];
  handles = (701, handle_of 98 7) ∷ (801, handle_of 99 8) ∷ [];
  cleanup = [];
}

abbrev pub record_of : ℕ → ℕ → CleanupRecord
record_of thread run = record {
  admission = released_of thread run;
  origin = CleanupOrigin.direct_release;
  reason = ReleaseReason.succeeded;
  status = CleanupStatus.pending;
  attempt = 0;
  owner_id = 0;
  fence = 0;
  expires_at = 0;
  next_try_at = 20;
  last_error = none;
  completed = 0;
}

abbrev pub released_one : Sessions
released_one = record {
  items = (701, released_of 98 7) ∷ (801, admission_of 99 8) ∷ [];
  handles = (701, handle_of 98 7) ∷ (801, handle_of 99 8) ∷ [];
  cleanup = (701, record_of 98 7) ∷ [];
}

abbrev pub released_two : Sessions
released_two = record {
  items = (701, released_of 98 7) ∷ (801, released_of 99 8) ∷ [];
  handles = (701, handle_of 98 7) ∷ (801, handle_of 99 8) ∷ [];
  cleanup = (701, record_of 98 7) ∷ (801, record_of 99 8) ∷ [];
}

abbrev pub running_of : ℕ → ℕ → ℕ → ℕ → ℕ → CleanupRecord
running_of thread run worker until fence = record (record_of thread run) {
  status = CleanupStatus.running;
  owner_id = worker;
  expires_at = until;
  fence = fence;
  attempt = fence;
}

abbrev pub claim_on : ℕ → ℕ → ℕ → ℕ → ℕ → CleanupClaim
claim_on thread run worker until fence = record {
  admission = released_of thread run;
  origin = CleanupOrigin.direct_release;
  reason = ReleaseReason.succeeded;
  owner_id = worker;
  fence = fence;
  expires_at = until;
  attempt = fence;
}

-- Worker 1 claims the cleanup of run 7 until 40, and worker 2 that of run 8.
abbrev pub claimed_one : Sessions
claimed_one = record released_two {
  cleanup = (701, running_of 98 7 1 40 1) ∷ (801, record_of 99 8) ∷ [];
}

abbrev pub claimed_two : Sessions
claimed_two = record released_two {
  cleanup = (701, running_of 98 7 1 40 1) ∷ (801, running_of 99 8 2 41 1) ∷ [];
}

-- Worker 2 claims the cleanup of run 7 at 40.
abbrev pub claimed_again : Sessions
claimed_again = record released_two {
  cleanup = (701, running_of 98 7 2 50 2) ∷ (801, running_of 99 8 2 41 1) ∷ [];
}

pub admits_one :
    acquire name (command_of 98 7) (ok (lease_of 1)) 10 new_sessions
    ≡ (admitted_one, ok (handle_of 98 7))
unfolding lookup insert values any bytes_eq key_eq is_blank_text key_is_valid command_is_complete
    session_is_busy new_admission admit acquire
admits_one = refl

pub admits_two :
    acquire name (command_of 99 8) (ok (lease_of 1)) 10 admitted_one
    ≡ (admitted_two, ok (handle_of 99 8))
unfolding lookup insert values any bytes_eq key_eq is_blank_text key_is_valid command_is_complete
    session_is_busy new_admission admit acquire
admits_two = refl

-- The session of thread 98 is taken.
pub refuses_second :
    acquire name (command_of 98 9) (ok (lease_of 2)) 11 admitted_one
    ≡ (admitted_one, err ErrorCode.runtime_session_busy)
unfolding lookup insert values any bytes_eq key_eq is_blank_text key_is_valid command_is_complete
    session_is_busy new_admission admit acquire
refuses_second = refl

pub releases_one :
    release (handle_of 98 7) ReleaseReason.succeeded 20 admitted_two ≡ (released_one, ok true)
unfolding lookup insert bytes_eq key_eq admission_matches cleanup_identity_matches lease_is_complete
    new_record ensure_cleanup ended_as release_found release_memory release
releases_one = refl

pub releases_two :
    release (handle_of 99 8) ReleaseReason.succeeded 20 released_one ≡ (released_two, ok true)
unfolding lookup insert bytes_eq key_eq admission_matches cleanup_identity_matches lease_is_complete
    new_record ensure_cleanup ended_as release_found release_memory release
releases_two = refl

pub claims_one :
    claim_cleanup 1 10 30 released_two ≡ (claimed_one, ok (some (claim_on 98 7 1 40 1)))
unfolding lookup insert select insert_sorted sort bytes_eq key_eq cleanup_identity_matches
    cleanup_is_due due_records claimable claimed_record claim_first claim_cleanup
claims_one = refl

pub claims_two : claim_cleanup 2 10 31 claimed_one ≡ (claimed_two, ok (some (claim_on 99 8 2 41 1)))
unfolding lookup insert select insert_sorted sort bytes_eq key_eq cleanup_identity_matches
    cleanup_is_due due_records claimable claimed_record claim_first claim_cleanup
claims_two = refl

pub claims_again :
    claim_cleanup 2 10 40 claimed_two ≡ (claimed_again, ok (some (claim_on 98 7 2 50 2)))
unfolding lookup insert select insert_sorted sort bytes_eq key_eq cleanup_identity_matches
    cleanup_is_due due_records claimable claimed_record claim_first claim_cleanup
claims_again = refl

pub reaches_admitted_one : Reach name admitted_one
unfolding lookup insert values any bytes_eq key_eq is_blank_text key_is_valid command_is_complete
    session_is_busy new_admission admit acquire
reaches_admitted_one =
    Reach.step Reach.start (Step.acquires (command_of 98 7) (ok (lease_of 1)) 10 (λ lease e. refl))

pub two_is_new :
    (lease : DistributedLease)
    → ok (lease_of 1) ≡ ok lease
    → lookup (name (key_of 99) 8 lease.fencing_token) admitted_one.items ≡ none
unfolding lookup
two_is_new lease e = ground (arith, e)

pub reaches_admitted_two : Reach name admitted_two
unfolding lookup insert values any bytes_eq key_eq is_blank_text key_is_valid command_is_complete
    session_is_busy new_admission admit acquire
reaches_admitted_two =
    Reach.step reaches_admitted_one
      (Step.acquires (command_of 99 8) (ok (lease_of 1)) 10 two_is_new)

pub reaches_released_one : Reach name released_one
unfolding lookup insert bytes_eq key_eq admission_matches cleanup_identity_matches lease_is_complete
    new_record ensure_cleanup ended_as release_found release_memory release
reaches_released_one =
    Reach.step reaches_admitted_two (Step.releases (handle_of 98 7) ReleaseReason.succeeded 20)

pub reaches_released_two : Reach name released_two
unfolding lookup insert bytes_eq key_eq admission_matches cleanup_identity_matches lease_is_complete
    new_record ensure_cleanup ended_as release_found release_memory release
reaches_released_two =
    Reach.step reaches_released_one (Step.releases (handle_of 99 8) ReleaseReason.succeeded 20)

-- The lock manager frees every lock.
abbrev pub quiet : ℕ → Round
quiet n = record { cancelled = none; claim_time = 30; answer = λ proof. ok tt; end_time = 31 }

pub drains_both :
    ((drain_cleanup 1 5 quiet released_two).1.completed ≡ 2)
    × ((drain_cleanup 1 5 quiet released_two).2 ≡ ok tt)
unfolding lookup insert delete select insert_sorted sort bytes_eq key_eq is_blank_text key_is_valid
    encode_segment is_plain hex_digit decimal_from decimal redis_key cleanup_identity_matches
    cleanup_is_due due_records claimable claimed_record claim_first claim_cleanup claim_is_held
    settle completed_record complete_cleanup terminal_cleanup_proof cleanup_proof end_completed
    end_round drain_loop drain_limit drain_cleanup
drains_both = (refl, refl)
