-- ===== src/Sessions/System.antt =====
-- The admissions and their cleanup records as a machine: what one call under the mutex of
-- RuntimeSessionAdmissionService may do to them, and which admissions and records calls reach.
pub mod Matching
pub mod Operations
pub mod Keeps
pub mod Refines
pub mod Drains
pub mod Invariants
use yuex.Prelude.{
  ℕ, ◌+◌, ◌≤◌, ◌≡◌, Bool, true, false, none, some, List, [], Map, lookup, insert, if◌then◌else◌,
  ErrorCode, Result, Done, ok,
}
use yuex.Sessions.Keys.{AdmissionKey}
use yuex.Sessions.Types.{
  Admission, AdmissionLease, AdmissionCommand, CleanupClaim, CleanupRecord, DistributedLease,
  ReleaseReason, Sessions, new_sessions, admission_active, admission_ended,
}
use yuex.Sessions.Admit.{acquire, renew, new_admission, session_is_busy}
use yuex.Sessions.Bind.{Binding, bind_stored, release_terminal_lease}
use yuex.Sessions.Release.{release, recover, backfill}
use yuex.Sessions.Drain.{Round, drop_handle, drain_cleanup}
use yuex.Sessions.Cleanup.{claim_cleanup, complete_cleanup, retry_cleanup}

-- The identity that no write changes.
pub record SameAdmission (a b : Admission) : Type 0 where
  pub same_id : a.admission_id ≡ b.admission_id
  pub same_key : a.key ≡ b.key
  pub same_binding : a.binding_id ≡ b.binding_id
  pub same_run : a.run_id ≡ b.run_id
  pub same_owner : a.owner_instance_id ≡ b.owner_instance_id
  pub same_hash : a.lease_token_hash ≡ b.lease_token_hash
  pub same_fencing : a.fencing_token ≡ b.fencing_token

-- The abstract machine of the outbox. An admission is admitted to a free session, may change while it
-- is active, and ends once, together with the enqueueing of its record; a record's fence never falls.
pub data Write : Sessions → Sessions → Type 0 where
  handles : {s : Sessions} (h : Map AdmissionLease) → Write s (record s { handles = h })
  admits :
      {s : Sessions} (a : Admission) (h : Map AdmissionLease)
      → lookup a.admission_id s.items ≡ none
      → session_is_busy a.key s.items ≡ false
      → admission_active a.state ≡ true
      → Write s (record s { items = insert a.admission_id a s.items; handles = h })
  changes :
      {s : Sessions} (a b : Admission) (h : Map AdmissionLease)
      → lookup b.admission_id s.items ≡ some a
      → admission_active a.state ≡ true
      → admission_active b.state ≡ true
      → SameAdmission b a
      → Write s (record s { items = insert b.admission_id b s.items; handles = h })
  ends :
      {s : Sessions} (id : ℕ) (a b : Admission) (rec : CleanupRecord)
      → lookup id s.items ≡ some a
      → admission_active a.state ≡ true
      → admission_ended b.state ≡ true
      → SameAdmission b a
      → lookup id s.cleanup ≡ none
      → rec.admission ≡ b
      → Write s (record s { items = insert id b s.items; cleanup = insert id rec s.cleanup })
  marks :
      {s : Sessions} (id : ℕ) (rec rec' : CleanupRecord)
      → lookup id s.cleanup ≡ some rec
      → rec'.admission ≡ rec.admission
      → rec.fence ≤ rec'.fence
      → Write s (record s { cleanup = insert id rec' s.cleanup })

-- Any number of writes.
pub data Writes : Sessions → Sessions → Type 0 where
  no_write : {s : Sessions} → Writes s s
  then_write : {s t u : Sessions} → Writes s t → Write t u → Writes s u

-- One call under the mutex. The lock manager's answers, the times and the arguments are any; an
-- admission is made under a new identifier, since a lock's fencing tokens differ. The assertion that
-- `bind` begins with writes nothing, so `bind` is the step of its write, with any calls before it. The
-- write itself does not test that the admission is still active. These are the histories in which it is:
-- no bind is overtaken, that is, no Release or Recover has ended its admission between the assertion
-- and the write.
pub data Step (name : AdmissionKey → ℕ → ℕ → ℕ) : Sessions → Sessions → Type 0 where
  acquires :
      {s : Sessions} (c : AdmissionCommand) (lock : Result DistributedLease) (now : ℕ)
      → ((lease : DistributedLease)
          → lock ≡ ok lease
          → lookup (name c.key c.run_id lease.fencing_token) s.items ≡ none)
      → Step name s (acquire name c lock now s).0
  renews :
      {s : Sessions} (h : AdmissionLease) (ttl : ℕ) (lock : Result DistributedLease) (now : ℕ)
      → Step name s (renew h ttl lock now s).0
  binds :
      {s : Sessions} (h : AdmissionLease) (b : Binding) (now : ℕ)
      → ((a : Admission)
          → lookup h.admission.admission_id s.items ≡ some a
          → admission_active a.state ≡ true)
      → Step name s (bind_stored h b now s).0
  releases :
      {s : Sessions} (h : AdmissionLease) (reason : ReleaseReason) (now : ℕ)
      → Step name s (release h reason now s).0
  drops :
      {s : Sessions} (h : AdmissionLease) (lock : Done)
      → Step name s (release_terminal_lease h lock s).0
  recovers : {s : Sessions} (now limit : ℕ) → Step name s (recover now limit s).0
  backfills : {s : Sessions} (now limit : ℕ) → Step name s (backfill now limit s).0
  drains :
      {s : Sessions} (worker limit : ℕ) (rounds : ℕ → Round)
      → Step name s (drain_cleanup worker limit rounds s).0
  claims : {s : Sessions} (worker ttl now : ℕ) → Step name s (claim_cleanup worker ttl now s).0
  completes : {s : Sessions} (c : CleanupClaim) (now : ℕ) → Step name s (complete_cleanup c now s).0
  retries :
      {s : Sessions} (c : CleanupClaim) (code : ErrorCode) (now : ℕ)
      → Step name s (retry_cleanup c code now s).0
  forgets : {s : Sessions} (id : ℕ) → Step name s (drop_handle id s)

-- The states that the calls of a process reach from its start.
pub data Reach (name : AdmissionKey → ℕ → ℕ → ℕ) : Sessions → Type 0 where
  start : Reach name new_sessions
  step : {s t : Sessions} → Reach name s → Step name s t → Reach name t

-- Any number of calls.
pub data Steps (name : AdmissionKey → ℕ → ℕ → ℕ) : Sessions → Sessions → Type 0 where
  none_yet : {s : Sessions} → Steps name s s
  and_then : {s t u : Sessions} → Steps name s t → Step name t u → Steps name s u
