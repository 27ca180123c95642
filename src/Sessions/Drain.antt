-- ===== src/Sessions/Drain.antt =====
-- DrainAdmissionCleanup of runtime_session_admission.go, in memory, and Release with the drain that it
-- ends in.
use yuex.Prelude.{
  ℕ, zero, suc, ◌+◌, ◌*◌, Bool, true, false, ◌||◌, Option, none, some, ltb, is_zero, delete,
  if◌then◌else◌, ErrorCode, Done, ok, err, invalid_argument,
}
use yuex.Hosts.Types.{second}
use yuex.Sessions.Types.{AdmissionLease, CleanupClaim, ReleaseReason, Sessions}
use yuex.Sessions.Release.{release}
use yuex.Sessions.Cleanup.{
  LeaseProof, claim_cleanup, complete_cleanup, retry_cleanup, cleanup_proof, cleanup_error_code,
}

-- RuntimeSessionAdmissionCleanupReport
pub record CleanupReport : Type 0 where
  pub claimed : ℕ
  pub completed : ℕ
  pub retried : ℕ
  pub stale : ℕ

-- What one round of the loop meets: a cancelled context, the times of its claim and of its end, and
-- the lock manager's answer to a proof.
pub record Round : Type 0 where
  pub cancelled : Option ErrorCode
  pub claim_time : ℕ
  pub answer : LeaseProof → Done
  pub end_time : ℕ

abbrev pub drop_handle : ℕ → Sessions → Sessions
drop_handle id s = record s { handles = delete id s.handles }

abbrev pub count_claimed : CleanupReport → CleanupReport
count_claimed r = record r { claimed = r.claimed + 1 }

abbrev pub count_completed : Bool → CleanupReport → CleanupReport
count_completed stale r = record r {
  completed = r.completed + 1;
  stale = if stale then r.stale + 1 else r.stale;
}

abbrev pub count_retried : CleanupReport → CleanupReport
count_retried r = record r { retried = r.retried + 1 }

unfoldable pub end_retried :
    CleanupClaim → ErrorCode → ℕ → CleanupReport → Sessions → Sessions × CleanupReport × Done
end_retried c code now report s =
    let (s', done) = retry_cleanup c code now s in
    elim done [ err e ↦ (s', report, err e) | ok u ↦ (s', count_retried report, ok tt) ]

unfoldable pub end_completed :
    CleanupClaim → Bool → ℕ → CleanupReport → Sessions → Sessions × CleanupReport × Done
end_completed c stale now report s =
    let (s', done) = complete_cleanup c now s in
    elim done [
      | err e ↦ (s', report, err e)
      | ok u ↦ (drop_handle c.admission.admission_id s', count_completed stale report, ok tt)
    ]

abbrev pub is_stale : ErrorCode → Bool
is_stale ErrorCode.stale_fencing_token = true
is_stale e = false

-- A round after its claim.
unfoldable pub end_round :
    Round → CleanupClaim → CleanupReport → Sessions → Sessions × CleanupReport × Done
unfolding end_retried end_completed
end_round round c report s = elim (cleanup_proof c) [
  | none ↦ end_retried c (cleanup_error_code invalid_argument) round.end_time report s
  | some proof ↦ elim (round.answer proof) [
    | ok done ↦ end_completed c false round.end_time report s
    | err e ↦
        if is_stale e
        then end_completed c true round.end_time report s
        else end_retried c (cleanup_error_code e) round.end_time report s
  ]
]

-- drainAdmissionCleanupMemory, with the rounds left under the limit. A round counts one claim or ends
-- the loop.
unfoldable pub drain_loop :
    ℕ → (ℕ → Round) → ℕ → CleanupReport → Sessions → Sessions × CleanupReport × Done
unfolding end_round
drain_loop worker rounds zero report s = (s, report, ok tt)
drain_loop worker rounds (suc left) report s =
    let round = rounds report.claimed in
    let (s', found) = claim_cleanup worker (30 * second) round.claim_time s in
    elim round.cancelled [
      | some e ↦ (s, report, err e)
      | none ↦ elim found [
        | err e ↦ (s', report, err e)
        | ok none ↦ (s', report, ok tt)
        | ok (some c) ↦
            let (s'', report', done) = end_round round c (count_claimed report) s' in
            elim done [
              | err e ↦ (s'', report', err e)
              | ok u ↦ drain_loop worker rounds left report' s''
            ]
      ]
    ]

abbrev pub empty_report : CleanupReport
empty_report = record { claimed = 0; completed = 0; retried = 0; stale = 0 }

unfoldable pub drain_limit : ℕ → ℕ
drain_limit limit = if ltb 500 limit then 500 else limit

-- DrainAdmissionCleanup
unfoldable pub drain_cleanup : ℕ → ℕ → (ℕ → Round) → Sessions → Sessions × CleanupReport × Done
unfolding drain_loop drain_limit
drain_cleanup worker limit rounds s =
    if is_zero worker || ltb limit 1
    then (s, empty_report, err invalid_argument)
    else drain_loop worker rounds (drain_limit limit) empty_report s

-- Release, with the worker that drains for the run. Like Go it gives both whether it changed the
-- admission and the error.
unfoldable pub release_and_drain :
    AdmissionLease → ReleaseReason → ℕ → (ℕ → ℕ) → (ℕ → Round) → Sessions → Sessions × Bool × Done
unfolding drain_cleanup
release_and_drain h reason now worker_of rounds s =
    let (s', released) = release h reason now s in
    elim released [
      | err e ↦ (s', false, err e)
      | ok changed ↦
          let (s'', report, done) = drain_cleanup (worker_of h.admission.run_id) 1 rounds s' in
          (s'', changed, done)
    ]
