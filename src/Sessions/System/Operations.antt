-- ===== src/Sessions/System/Operations.antt =====
-- The operations of RuntimeSessionAdmissionService as writes of the abstract machine.
use yuex.Prelude.{
  ℕ, ◌≡◌, refl, true, false, none, some, inl, inr, [], ◌∷◌, Map, lookup, Result, ok, err, arith,
  Option-cases,
}
use yuex.Sessions.Keys.{AdmissionKey}
use yuex.Sessions.Types.{
  Admission, AdmissionState, AdmissionLease, AdmissionCommand, CleanupClaim, CleanupRecord,
  DistributedLease, ReleaseReason, Sessions, admission_active,
}
use yuex.Sessions.Admit.{
  acquire, renew, extend, renewed, holds, new_admission, session_is_busy, with_admission,
  with_handle,
}
use yuex.Sessions.Bind.{Binding, bind_stored, bound}
use yuex.Sessions.Release.{
  release, release_memory, release_found, with_record, new_record, ended_as, cleanup_origin,
  effective_reason,
}
use yuex.Sessions.Cleanup.{claim_first, claimable, claimed_record, settle}
use yuex.Sessions.System.Matching.{
  Matched, active-unended, Matched-none, Matched-some, ensure_cleanup_new, ensure_cleanup_again,
}

module _ {ℓ} (P : Sessions → Type ℓ) (s : Sessions) (same : P s) where
  pub acquire_cases :
      (name : AdmissionKey → ℕ → ℕ → ℕ) (c : AdmissionCommand) (lock : Result DistributedLease)
      (now : ℕ)
      → ((lease : DistributedLease)
          → lock ≡ ok lease
          → session_is_busy c.key s.items ≡ false
          → let a = new_admission name c lease now in
            P (
              with_handle a.admission_id
                (record { admission = a; lease = lease })
                (with_admission a.admission_id a s)))
      → P (acquire name c lock now s).0
  unfolding acquire
  acquire_cases name c (err e) now put = ground (arith, same)
  acquire_cases name c (ok lease) now put = ground (arith, same, put lease refl)

  pub renew_cases :
      (h : AdmissionLease) (ttl : ℕ) (lock : Result DistributedLease) (now : ℕ)
      → ((lease : DistributedLease) (current : Admission)
          → lookup h.admission.admission_id s.items ≡ some current
          → admission_active current.state ≡ true
          → let a = renewed lease now current in
            P (
              with_handle a.admission_id
                (record { admission = a; lease = lease })
                (with_admission a.admission_id a s)))
      → P (renew h ttl lock now s).0
  unfolding renew extend holds
  renew_cases h ttl (err e) now put = ground (arith, same)
  renew_cases h ttl (ok lease) now put =
      elim (Option-cases (lookup h.admission.admission_id s.items)) [
        | inl e ↦ ground (arith, same)
        | inr (current, e) ↦ ground (arith, same, put lease current e)
      ]

  pub bind_cases :
      (h : AdmissionLease) (b : Binding) (now : ℕ)
      → ((current : Admission)
          → lookup h.admission.admission_id s.items ≡ some current
          → P (with_admission current.admission_id (bound b now current) s))
      → P (bind_stored h b now s).0
  unfolding bind_stored
  bind_cases h b now put = elim (Option-cases (lookup h.admission.admission_id s.items)) [
    | inl e ↦ ground (arith, same)
    | inr (current, e) ↦ ground (arith, same, put current e)
  ]

  -- A write to the record of a held claim.
  pub settle_cases :
      (change : CleanupRecord → CleanupRecord) (c : CleanupClaim) (now : ℕ)
      → ((rec : CleanupRecord)
          → lookup c.admission.admission_id s.cleanup ≡ some rec
          → P (with_record c.admission.admission_id (change rec) s))
      → P (settle change c now s).0
  unfolding settle
  settle_cases change c now put = elim (Option-cases (lookup c.admission.admission_id s.cleanup)) [
    | inl e ↦ ground (arith, same)
    | inr (rec, e) ↦ elim (Option-cases (lookup c.admission.admission_id s.items)) [
      | inl f ↦ ground (arith, same)
      | inr (current, f) ↦ ground (arith, same, put rec e)
    ]
  ]

  pub claim_first_cases :
      (worker now ttl : ℕ) (due : Map CleanupRecord)
      → ((id : ℕ) (rec : CleanupRecord)
          → lookup id s.cleanup ≡ some rec
          → P (with_record id (claimed_record worker now ttl rec) s))
      → P (claim_first worker now ttl due s).0
  unfolding claim_first claimable
  claim_first_cases worker now ttl [] put = same
  claim_first_cases worker now ttl ((id, entry) ∷ rest) put =
      let later = claim_first_cases worker now ttl rest put in
      elim (Option-cases (lookup id s.cleanup)) [
        | inl e ↦ ground (arith, later)
        | inr (rec, e) ↦ elim (Option-cases (lookup id s.items)) [
          | inl f ↦ ground (arith, later)
          | inr (current, f) ↦ ground (arith, later, put id rec e)
        ]
      ]

  release_found_cases :
      (reason : ReleaseReason) (now id : ℕ) (a : Admission)
      → lookup id s.items ≡ some a
      → a.admission_id ≡ id
      → Matched (lookup id s.items) (lookup id s.cleanup)
      → (admission_active a.state ≡ true
          → lookup id s.cleanup ≡ none
          → let b = ended_as AdmissionState.released now a in
            P (
              with_record id
                (new_record b (cleanup_origin reason) reason now)
                (with_admission id b s)))
      → P (release_found reason now a s).0
  unfolding release_found ended_as
  release_found_cases reason now id a e named matched put =
      elim (Option-cases (lookup id s.cleanup)) [
        | inl f ↦
            let live = Matched-none _ _ a e f matched in
            let b = ended_as AdmissionState.released now a in
            ground (
              arith,
              named,
              active-unended a.state live,
              put live f,
              ensure_cleanup_new b (cleanup_origin reason) reason now (with_admission id b s),
            )
        | inr (rec, f) ↦
            let (over, one) = Matched-some _ _ a rec e f matched in
            let again = effective_reason reason (lookup a.admission_id s.cleanup) in
            ground (
              arith,
              same,
              over,
              ensure_cleanup_again a rec (cleanup_origin again) again now s
                  (ground (arith, named, f)) one,
            )
      ]

  -- A call that ends an active admission, and the record that goes with it.
  pub release_cases :
      (h : AdmissionLease) (reason : ReleaseReason) (now : ℕ)
      → ((id : ℕ) (a : Admission) → lookup id s.items ≡ some a → a.admission_id ≡ id)
      → ((id : ℕ) → Matched (lookup id s.items) (lookup id s.cleanup))
      → ((id : ℕ) (a : Admission)
          → lookup id s.items ≡ some a
          → admission_active a.state ≡ true
          → lookup id s.cleanup ≡ none
          → let b = ended_as AdmissionState.released now a in
            P (
              with_record id
                (new_record b (cleanup_origin reason) reason now)
                (with_admission id b s)))
      → P (release h reason now s).0
  unfolding release release_memory
  release_cases h reason now names matched put =
      let id = h.admission.admission_id in
      elim (Option-cases (lookup id s.items)) [
        | inl e ↦ ground (arith, same)
        | inr (a, e) ↦
            let found =
              release_found_cases reason now id a e (names id a e) (matched id) (put id a e) in
            ground (arith, same, found)
      ]
