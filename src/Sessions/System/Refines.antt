-- ===== src/Sessions/System/Refines.antt =====
-- Every call of RuntimeSessionAdmissionService is a sequence of writes of the abstract machine.
use yuex.Prelude.{
  ℕ, ◌+◌, ◌≡◌, refl, true, none, some, inl, inr, List, [], ◌∷◌, lookup, is_zero, ◌||◌, ErrorCode,
  Result, ok, arith, Bool-cases,
}
use yuex.Sessions.Keys.{AdmissionKey}
use yuex.Sessions.Types.{
  Admission, AdmissionLease, AdmissionCommand, CleanupClaim, DistributedLease, ReleaseReason,
  Sessions, admission_active, admission_ended, AdmissionState, CleanupOrigin,
}
use yuex.Sessions.Admit.{acquire, renew, renewed, new_admission, with_admission}
use yuex.Sessions.Bind.{Binding, bind_stored, bound}
use yuex.Sessions.Release.{
  release, recover, recover_loop, backfill_loop, with_record, new_record, ended_as, RecoveryReport,
}
use yuex.Sessions.Cleanup.{
  claim_cleanup, claimed_record, due_records, complete_cleanup, completed_record, retry_cleanup,
  retried_record,
}
use yuex.Sessions.System.{Write, Writes}
use yuex.Sessions.System.Matching.{recover_one_lem, backfill_one_lem}
use yuex.Sessions.System.Operations.{
  acquire_cases, renew_cases, bind_cases, settle_cases, claim_first_cases, release_cases,
}
use yuex.Sessions.System.Keeps.{Sound, Write-Sound}

-- One write.
pub once : {s t : Sessions} → Write s t → Writes s t
once w = Writes.then_write Writes.no_write w

pub Writes-trans : {s t u : Sessions} → Writes s t → Writes t u → Writes s u
Writes-trans a Writes.no_write = a
Writes-trans a (Writes.then_write b w) = Writes.then_write (Writes-trans a b) w

module _ (s : Sessions) (h : Sound s) where
  pub acquire-Writes :
      (name : AdmissionKey → ℕ → ℕ → ℕ) (c : AdmissionCommand) (lock : Result DistributedLease)
      (now : ℕ)
      → ((lease : DistributedLease)
          → lock ≡ ok lease
          → lookup (name c.key c.run_id lease.fencing_token) s.items ≡ none)
      → Writes s (acquire name c lock now s).0
  unfolding new_admission
  acquire-Writes name c lock now fresh =
      acquire_cases (Writes s) s Writes.no_write name c lock now (λ lease e free.
        once (Write.admits (new_admission name c lease now) _ (fresh lease e) free refl))

  pub renew-Writes :
      (l : AdmissionLease) (ttl : ℕ) (lock : Result DistributedLease) (now : ℕ)
      → Writes s (renew l ttl lock now s).0
  unfolding renewed
  renew-Writes l ttl lock now =
      renew_cases (Writes s) s Writes.no_write l ttl lock now (λ lease a e live. once (
        Write.changes a (renewed lease now a) _ (ground (arith, e, h.names _ a e)) live live
          (record {
            same_id = refl;
            same_key = refl;
            same_binding = refl;
            same_run = refl;
            same_owner = refl;
            same_hash = refl;
            same_fencing = refl;
          })))

  bound-Write :
      (b : Binding) (now : ℕ) (a : Admission)
      → lookup a.admission_id s.items ≡ some a
      → admission_active a.state ≡ true
      → Write s (with_admission a.admission_id (bound b now a) s)
  unfolding bound
  bound-Write (Binding.to_reservation id) now a e live =
      Write.changes a (bound (Binding.to_reservation id) now a) s.handles e live refl (record {
        same_id = refl;
        same_key = refl;
        same_binding = refl;
        same_run = refl;
        same_owner = refl;
        same_hash = refl;
        same_fencing = refl;
      })
  bound-Write (Binding.to_dispatch id) now a e live =
      Write.changes a (bound (Binding.to_dispatch id) now a) s.handles e live refl (record {
        same_id = refl;
        same_key = refl;
        same_binding = refl;
        same_run = refl;
        same_owner = refl;
        same_hash = refl;
        same_fencing = refl;
      })

  pub bind-Writes :
      (l : AdmissionLease) (b : Binding) (now : ℕ)
      → ((a : Admission)
          → lookup l.admission.admission_id s.items ≡ some a
          → admission_active a.state ≡ true)
      → Writes s (bind_stored l b now s).0
  bind-Writes l b now live =
      bind_cases (Writes s) s Writes.no_write l b now
        (λ a e. once (bound-Write b now a (ground (arith, e, h.names _ a e)) (live a e)))

  -- An admission that ends with its new record.
  pub end-Write :
      (id : ℕ) (a : Admission) (state : AdmissionState) (origin : CleanupOrigin)
      (reason : ReleaseReason) (now : ℕ)
      → lookup id s.items ≡ some a
      → admission_active a.state ≡ true
      → lookup id s.cleanup ≡ none
      → admission_ended state ≡ true
      → Write s (
          with_record id
            (new_record (ended_as state now a) origin reason now)
            (with_admission id (ended_as state now a) s))
  unfolding ended_as new_record
  end-Write id a state origin reason now e live free over =
      Write.ends id a (ended_as state now a) (new_record (ended_as state now a) origin reason now) e
        live over
        (record {
          same_id = refl;
          same_key = refl;
          same_binding = refl;
          same_run = refl;
          same_owner = refl;
          same_hash = refl;
          same_fencing = refl;
        })
        free refl

  pub release-Writes :
      (l : AdmissionLease) (reason : ReleaseReason) (now : ℕ) → Writes s (release l reason now s).0
  release-Writes l reason now =
      release_cases (Writes s) s Writes.no_write l reason now h.names h.matched (λ id a e live free.
        once (end-Write id a AdmissionState.released _ reason now e live free refl))

  pub claim-Writes : (worker ttl now : ℕ) → Writes s (claim_cleanup worker ttl now s).0
  unfolding claim_cleanup claimed_record
  claim-Writes worker ttl now =
      let first =
        claim_first_cases (Writes s) s Writes.no_write worker now ttl (due_records now s)
          (λ id rec e.
            once (Write.marks id rec (claimed_record worker now ttl rec) e refl (omega arith))) in
      elim (Bool-cases (is_zero worker || is_zero ttl)) [
        | inl g ↦ rw g Writes.no_write
        | inr g ↦ rw g first
      ]

  pub complete-Writes : (c : CleanupClaim) (now : ℕ) → Writes s (complete_cleanup c now s).0
  unfolding complete_cleanup completed_record
  complete-Writes c now =
      settle_cases (Writes s) s Writes.no_write (completed_record now) c now
        (λ rec e. once (Write.marks _ rec (completed_record now rec) e refl (omega arith)))

  pub retry-Writes :
      (c : CleanupClaim) (code : ErrorCode) (now : ℕ) → Writes s (retry_cleanup c code now s).0
  unfolding retry_cleanup retried_record
  retry-Writes c code now =
      settle_cases (Writes s) s Writes.no_write (retried_record code c.attempt now) c now (λ rec e.
        once (Write.marks _ rec (retried_record code c.attempt now rec) e refl (omega arith)))

recover_loop-Writes :
    (now limit : ℕ) (entries : List (ℕ × Admission)) (report : RecoveryReport) (s : Sessions)
    → Sound s
    → Writes s (recover_loop now limit entries report s).0
unfolding recover_loop
recover_loop-Writes now limit [] report s h = Writes.no_write
recover_loop-Writes now limit ((id, x) ∷ rest) report s h =
    elim (recover_one_lem now id s h.names (h.matched id)) [
      | inl e ↦
          let later = recover_loop-Writes now limit rest report s h in
          let none = Writes.no_write {s = s} in ground (arith, e, later, none)
      | inr (a, e, live, due, free, gives) ↦
          let w =
            end-Write s h id a AdmissionState.expired CleanupOrigin.lease_expiry
              ReleaseReason.lease_expired now e live free refl in
          let seen = record report { scanned = report.scanned + 1; expired = report.expired + 1 } in
          let later =
            Writes-trans (once w)
              (recover_loop-Writes now limit rest seen _ (Write-Sound s _ h w)) in
          let none = Writes.no_write {s = s} in ground (arith, gives, later, none)
    ]

pub recover-Writes : (now limit : ℕ) (s : Sessions) → Sound s → Writes s (recover now limit s).0
unfolding recover
recover-Writes now limit s h = recover_loop-Writes now _ s.items _ s h

pub backfill_loop-idle :
    (now limit : ℕ) (entries : List (ℕ × Admission)) (created : ℕ) (s : Sessions)
    → Sound s
    → backfill_loop now limit entries created s ≡ (s, created, ok tt)
unfolding backfill_loop
backfill_loop-idle now limit [] created s h = refl
backfill_loop-idle now limit ((id, x) ∷ rest) created s h =
    ground (
      arith,
      backfill_one_lem now id s (h.matched id),
      backfill_loop-idle now limit rest created s h,
    )
