-- ===== src/SessionWitnesses.antt =====
-- The properties of Sessions at the states of SessionExamples.
use yuex.Prelude.{
  ◌+◌, ◌*◌, ◌≡◌, ◌≢◌, ◌≤◌, ◌⊎◌, refl, true, none, some, ok, err, ErrorCode, arith,
  stale_fencing_token,
}
use yuex.Hosts.Types.{second}
use yuex.Sessions.Keys.RoundTrip.{read_key, read_key-redis_key, redis_key_injective}
use yuex.Sessions.Types.{
  Admission, AdmissionLease, CleanupRecord, ReleaseReason, admission_active, admission_ended,
}
use yuex.Sessions.Bind.{Binding}
use yuex.Sessions.System.{SameAdmission, Writes, Step, Steps}
use yuex.Sessions.System.Invariants.{Reach-exclusive, Reach-enqueued, Reach-refines, backfill-idle}
use yuex.Sessions.History.Ended.{released-forever}
use yuex.Sessions.History.Overtaken.{overtaken-bind_revives}
use yuex.Sessions.History.Claims.{claim-excludes_claim, claim-fences_claim, retry_delay-bounded}
use yuex.Sessions.Bounds.{Tallied, drain_cleanup-Tallied}
use yuex.Sessions.Sweep.{Swept, expired_unit, recover-Swept}
use yuex.Sessions.Keys.{bytes_eq, key_eq, is_blank_text, key_is_valid, redis_key}
use yuex.Sessions.Types.{admission_matches, cleanup_identity_matches, lease_is_complete}
use yuex.Sessions.Admit.{renew, assert_active}
use yuex.Sessions.Bind.{bind}
use yuex.Sessions.Release.{
  new_record, ensure_cleanup, ended_as, release_found, release_memory, release, recover, backfill,
}
use yuex.Sessions.Cleanup.{
  cleanup_is_due, due_records, claimable, claimed_record, claim_first, claim_cleanup,
  complete_cleanup, retry_delay, retry_cleanup,
}
use yuex.Sessions.Drain.{drain_cleanup}
use yuex.Prelude.{select, insert_sorted, sort, lookup, insert, total}
use yuex.SessionExamples.{
  key_of, name, lease_of, admission_of, handle_of, released_of, admitted_two, released_one,
  released_two, claim_on, claimed_one, claimed_two, claimed_again, releases_one, claims_one,
  claims_two, claims_again, reaches_admitted_two, reaches_released_one, reaches_released_two, quiet,
}

-- The two texts carry a colon and a percent sign.
read_key-redis_key_example : read_key (redis_key (key_of 98)) ≡ key_of 98
unfolding key_is_valid is_blank_text
read_key-redis_key_example =
    read_key-redis_key (key_of 98)
      ((omega arith, (omega arith, tt)), (omega arith, tt), (omega arith, tt)) refl

redis_key_injective_example : key_of 98 ≡ key_of 98
unfolding key_is_valid is_blank_text
redis_key_injective_example =
    redis_key_injective (key_of 98) (key_of 98)
      ((omega arith, (omega arith, tt)), (omega arith, tt), (omega arith, tt))
      ((omega arith, (omega arith, tt)), (omega arith, tt), (omega arith, tt)) refl refl refl

Reach-exclusive_example : (admission_of 99 8).admission_id ≡ (admission_of 99 8).admission_id
unfolding lookup
Reach-exclusive_example =
    Reach-exclusive name released_one 801 801 (admission_of 99 8) (admission_of 99 8)
      reaches_released_one refl refl refl refl refl

Reach-enqueued_example :
    ((admission_ended (released_of 98 7).state ≡ true)
      × ((rec : CleanupRecord) × (lookup 701 released_one.cleanup ≡ some rec)
          × SameAdmission rec.admission (released_of 98 7)))
    ⊎ ((admission_active (released_of 98 7).state ≡ true)
        × (lookup 701 released_one.cleanup ≡ none))
unfolding lookup
Reach-enqueued_example =
    Reach-enqueued name released_one 701 (released_of 98 7) reaches_released_one refl

Reach-refines_example : Writes admitted_two released_one
unfolding lookup insert bytes_eq key_eq admission_matches cleanup_identity_matches lease_is_complete
    new_record ensure_cleanup ended_as release_found release_memory release
Reach-refines_example =
    Reach-refines name admitted_two released_one reaches_admitted_two
      (Step.releases (handle_of 98 7) ReleaseReason.succeeded 20)

backfill-idle_example : backfill 50 100 released_one ≡ (released_one, 0, ok tt)
backfill-idle_example = backfill-idle name released_one 50 100 reaches_released_one

released-forever_example :
    (assert_active (handle_of 98 7) (ok tt) 60 released_two ≢ ok tt)
    × (((lease : AdmissionLease)
          → (renew (handle_of 98 7) 60 (ok (lease_of 1)) 60 released_two).1 ≢ ok lease)
        × ((renew (handle_of 98 7) 60 (ok (lease_of 1)) 60 released_two).0 ≡ released_two))
    × (((bind (handle_of 98 7) (Binding.to_reservation 4) (ok tt) (λ s. s) 60 61 released_two).1
          ≢ ok tt)
        × ((bind (handle_of 98 7) (Binding.to_reservation 4) (ok tt) (λ s. s) 60 61 released_two).0
            ≡ released_two))
unfolding lookup insert bytes_eq key_eq admission_matches cleanup_identity_matches lease_is_complete
    new_record ensure_cleanup ended_as release_found release_memory release
released-forever_example =
    released-forever name (handle_of 98 7) ReleaseReason.succeeded 20 60 61 60
      (Binding.to_reservation 4) (ok tt) (λ s. s) (ok (lease_of 1)) admitted_two released_one
      released_two true reaches_admitted_two releases_one
      (Steps.and_then Steps.none_yet (Step.releases (handle_of 99 8) ReleaseReason.succeeded 20))

claim-excludes_claim_example :
    (claim_on 99 8 2 41 1).admission.admission_id ≢ (claim_on 98 7 1 40 1).admission.admission_id
claim-excludes_claim_example =
    claim-excludes_claim name 1 10 30 2 10 31 released_two claimed_one claimed_two
      (claim_on 98 7 1 40 1) (claim_on 99 8 2 41 1) reaches_released_two claims_one claims_two
      (omega arith)

claim-fences_claim_example :
    (complete_cleanup (claim_on 98 7 1 40 1) 45 claimed_again
      ≡ (claimed_again, err stale_fencing_token))
    × (retry_cleanup
          (claim_on 98 7 1 40 1)
          ErrorCode.runtime_session_cleanup_failed
          45
          claimed_again
        ≡ (claimed_again, err stale_fencing_token))
unfolding lookup insert select insert_sorted sort bytes_eq key_eq cleanup_identity_matches
    cleanup_is_due due_records claimable claimed_record claim_first claim_cleanup
claim-fences_claim_example =
    claim-fences_claim name 1 10 30 2 10 40 45 ErrorCode.runtime_session_cleanup_failed released_two
      claimed_one claimed_two claimed_again claimed_again (claim_on 98 7 1 40 1)
      (claim_on 98 7 2 50 2) reaches_released_two claims_one
      (Steps.and_then Steps.none_yet (Step.claims 2 10 31)) claims_again refl Steps.none_yet

retry_delay-bounded_example :
    (5 * second ≤ retry_delay 3) × (retry_delay 3 ≤ retry_delay 20) × (retry_delay 20 ≤ 60 * second)
retry_delay-bounded_example = retry_delay-bounded 3 20 (omega arith)

drain_cleanup-Tallied_example :
    Tallied 5 (drain_cleanup 1 5 quiet released_two).1 (drain_cleanup 1 5 quiet released_two).2
    × ((drain_cleanup 1 5 quiet released_two).1.claimed ≤ 500)
drain_cleanup-Tallied_example = drain_cleanup-Tallied 1 5 quiet released_two

recover-Swept_example :
    ((recover 100 0 admitted_two).2 ≡ ok tt)
    × Swept 100 (some (admission_of 98 7)) (lookup 701 (recover 100 0 admitted_two).0.items)
    × (total expired_unit (recover 100 0 admitted_two).0.items
        ≡ total expired_unit admitted_two.items + (recover 100 0 admitted_two).1.scanned)
    × ((recover 100 0 admitted_two).1.expired ≡ (recover 100 0 admitted_two).1.scanned)
    × ((recover 100 0 admitted_two).1.scanned ≤ 500)
    × (1 ≤ 0 → (recover 100 0 admitted_two).1.scanned ≤ 0)
unfolding lookup
recover-Swept_example = recover-Swept name 100 0 701 admitted_two reaches_admitted_two

overtaken-bind_revives_example :
    let overtaken =
      bind
        (handle_of 98 7)
        (Binding.to_reservation 4)
        (ok tt)
        (λ t. (release (handle_of 98 7) ReleaseReason.succeeded 25 t).0)
        20
        30
        admitted_two in
    ((release (handle_of 98 7) ReleaseReason.succeeded 25 admitted_two).1 ≡ ok true)
    × (overtaken.1 ≡ ok tt)
    × ((b : Admission) × (lookup 701 overtaken.0.items ≡ some b)
        × (admission_active b.state ≡ true))
unfolding lookup lease_is_complete admission_matches
overtaken-bind_revives_example =
    overtaken-bind_revives name (handle_of 98 7) ReleaseReason.succeeded 4 20 25 30 admitted_two
      (admission_of 98 7) reaches_admitted_two refl refl refl (omega arith) refl
      (λ k. omega (arith, k)) refl refl
