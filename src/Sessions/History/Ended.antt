-- ===== src/Sessions/History/Ended.antt =====
-- Renew, AssertActive, bind and Release of runtime_session_admission.go on an admission that ended.
use yuex.Prelude.{
  true, false, some, Result-cases, ℕ, ◌≡◌, ◌≢◌, refl, subst, Bool, inl, inr, ok, err, Result, Done,
  lookup, arith, Option-cases, lookup-insert_self,
}
use yuex.Sessions.Keys.{AdmissionKey}
use yuex.Sessions.Types.{
  Admission, valid_release_reason, lease_is_complete, admission_matches, AdmissionLease,
  AdmissionState, DistributedLease, ReleaseReason, Sessions,
}
use yuex.Sessions.Admit.{with_admission, assert_active, assert_stored, renew, extend, holds}
use yuex.Sessions.Bind.{Binding, bind}
use yuex.Sessions.Release.{
  release, with_record, new_record, release_memory, release_found, ended_as, cleanup_origin,
  effective_reason,
}
use yuex.Sessions.System.{Reach, Steps}
use yuex.Sessions.System.Matching.{
  Matched-none, Matched-some, active-unended, ensure_cleanup_new, ensure_cleanup_again,
}
use yuex.Sessions.System.Keeps.{Sound, Writes-Sound}
use yuex.Sessions.System.Refines.{release-Writes}
use yuex.Sessions.System.Invariants.{Reach-Sound, Steps-refines}
use yuex.Sessions.History.{EndedAt, Writes-EndedAt}

module _ (h : AdmissionLease) (s : Sessions) (over : EndedAt h.admission.admission_id s) where
  pub assert-ended : (lock : Done) (now : ℕ) → assert_active h lock now s ≢ ok tt
  unfolding assert_active assert_stored holds
  assert-ended (err e) now k = ground (arith, k)
  assert-ended (ok u) now k = let (a, e, dead) = over in ground (arith, e, dead, k)

  renew-ended :
      (ttl : ℕ) (lock : Result DistributedLease) (now : ℕ)
      → ((lease : AdmissionLease) → (renew h ttl lock now s).1 ≢ ok lease)
        × ((renew h ttl lock now s).0 ≡ s)
  unfolding renew extend holds
  renew-ended ttl (err e) now = (λ lease k. ground (arith, k), ground arith)
  renew-ended ttl (ok lease) now =
      let (a, e, dead) = over in (λ lease k. ground (arith, e, dead, k), ground (arith, e, dead))

  bind-ended :
      (b : Binding) (lock : Done) (between : Sessions → Sessions) (now later : ℕ)
      → ((bind h b lock between now later s).1 ≢ ok tt)
        × ((bind h b lock between now later s).0 ≡ s)
  unfolding bind
  bind-ended b lock between now later = elim (Result-cases (assert_active h lock now s)) [
    | inl (u, e) ↦ absurd (assert-ended lock now e)
    | inr (x, e) ↦ (λ k. ground (arith, e, k), ground (arith, e))
  ]

-- A release of a stored admission under its own handle succeeds.
pub release-succeeds :
    (h : AdmissionLease) (reason : ReleaseReason) (now : ℕ) (s : Sessions) (a : Admission)
    → Sound s
    → valid_release_reason reason ≡ true
    → lease_is_complete h ≡ true
    → lookup h.admission.admission_id s.items ≡ some a
    → admission_matches a h.admission ≡ true
    → (t : Sessions) × (changed : Bool) × (release h reason now s ≡ (t, ok changed))
unfolding release release_memory release_found ended_as
release-succeeds h reason now s a sound valid whole e match =
    let id = h.admission.admission_id in
    elim (Option-cases (lookup id s.cleanup)) [
      | inl f ↦
          let live = Matched-none _ _ a e f (sound.matched id) in
          let b = ended_as AdmissionState.released now a in
          (
            with_record id (new_record b (cleanup_origin reason) reason now)
                (with_admission id b s),
            true,
            ground (
              arith,
              valid,
              whole,
              e,
              match,
              sound.names id a e,
              active-unended a.state live,
              ensure_cleanup_new b (cleanup_origin reason) reason now (with_admission id b s),
              f,
            ),
          )
      | inr (rec, f) ↦
          let (dead, one) = Matched-some _ _ a rec e f (sound.matched id) in
          let again = effective_reason reason (lookup a.admission_id s.cleanup) in
          let stored : lookup a.admission_id s.cleanup ≡ some rec =
            ground (arith, sound.names id a e, f) in
          (
            s,
            false,
            ground (
              arith,
              valid,
              whole,
              e,
              match,
              dead,
              ensure_cleanup_again a rec (cleanup_origin again) again now s stored one,
            ),
          )
    ]

pub release-EndedAt :
    (h : AdmissionLease) (reason : ReleaseReason) (now : ℕ) (s t : Sessions) (changed : Bool)
    → Sound s
    → release h reason now s ≡ (t, ok changed)
    → EndedAt h.admission.admission_id t
unfolding release release_memory release_found ended_as
release-EndedAt h reason now s t changed sound done =
    let id = h.admission.admission_id in
    elim (Option-cases (lookup id s.items)) [
      | inl e ↦ absurd (ground (arith, e, done))
      | inr (a, e) ↦ elim (Option-cases (lookup id s.cleanup)) [
        | inl f ↦
            let live = Matched-none _ _ a e f (sound.matched id) in
            let b = ended_as AdmissionState.released now a in
            (
              b,
              ground (
                arith,
                done,
                e,
                f,
                sound.names id a e,
                active-unended a.state live,
                lookup-insert_self id b s.items,
                ensure_cleanup_new b (cleanup_origin reason) reason now (with_admission id b s),
              ),
              refl,
            )
        | inr (rec, f) ↦
            let (dead, one) = Matched-some _ _ a rec e f (sound.matched id) in
            let again = effective_reason reason (lookup a.admission_id s.cleanup) in
            (
              a,
              ground (
                arith,
                done,
                e,
                f,
                sound.names id a e,
                dead,
                ensure_cleanup_again a rec (cleanup_origin again) again now s
                    (ground (arith, sound.names id a e, f)) one,
              ),
              dead,
            )
      ]
    ]

-- An admission that Release has reported as released, in a state that calls reach, is over for its
-- handle: after any further calls AssertActive does not succeed, and a Renew or a bind that begins
-- then fails and changes nothing, whatever the lock manager answers. The calls, before and after, are
-- those in which no bind writes to an admission that ended after the bind had asserted it.
pub released-forever :
    (name : AdmissionKey → ℕ → ℕ → ℕ) (h : AdmissionLease) (reason : ReleaseReason)
    (now later last ttl : ℕ) (b : Binding) (lock : Done) (between : Sessions → Sessions)
    (renewal : Result DistributedLease) (s t u : Sessions) (changed : Bool)
    → Reach name s
    → release h reason now s ≡ (t, ok changed)
    → Steps name t u
    → (assert_active h lock later u ≢ ok tt)
      × (((lease : AdmissionLease) → (renew h ttl renewal later u).1 ≢ ok lease)
          × ((renew h ttl renewal later u).0 ≡ u))
      × (((bind h b lock between later last u).1 ≢ ok tt)
          × ((bind h b lock between later last u).0 ≡ u))
released-forever name h reason now later last ttl b lock between renewal s t u changed reach done
      more =
    let sound = Reach-Sound name s reach in
    let at_t : Sound t =
      subst (λ (x : Sessions × Result Bool). Sound x.0) done
        (Writes-Sound s _ sound (release-Writes s sound h reason now)) in
    let over =
      Writes-EndedAt _ t u (release-EndedAt h reason now s t changed sound done)
        (Steps-refines name t u at_t more) in
    (
      assert-ended h u over lock later,
      renew-ended h u over ttl renewal later,
      bind-ended h u over b lock between later last,
    )
