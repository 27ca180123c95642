-- ===== src/Sessions/History/Overtaken.antt =====
-- A bind of runtime_session_admission.go whose admission is released between its assertion and its write.
use yuex.Prelude.{
  ℕ, ◌<◌, ◌≡◌, ◌≢◌, refl, true, some, inl, inr, ok, arith, Option-cases, lookup, lookup-insert_self,
}
use yuex.Sessions.Keys.{AdmissionKey}
use yuex.Sessions.Types.{
  Admission, AdmissionLease, AdmissionState, ReleaseReason, Sessions, admission_active,
  admission_matches, lease_is_complete, valid_release_reason,
}
use yuex.Sessions.Admit.{assert_active, assert_stored, holds, with_admission}
use yuex.Sessions.Bind.{Binding, bind, bind_stored, bound, may_bind}
use yuex.Sessions.Release.{
  release, release_memory, release_found, with_record, new_record, ended_as, cleanup_origin,
}
use yuex.Sessions.System.{Reach}
use yuex.Sessions.System.Matching.{Matched-some, active-unended, ensure_cleanup_new}
use yuex.Sessions.System.Keeps.{Sound}
use yuex.Sessions.System.Invariants.{Reach-Sound}

-- The release of an active admission under its own handle.
release-active :
    (h : AdmissionLease) (reason : ReleaseReason) (now : ℕ) (s : Sessions) (a : Admission)
    → Sound s
    → lookup h.admission.admission_id s.items ≡ some a
    → admission_active a.state ≡ true
    → admission_matches a h.admission ≡ true
    → lease_is_complete h ≡ true
    → valid_release_reason reason ≡ true
    → let b = ended_as AdmissionState.released now a in
      let id = h.admission.admission_id in
      release h reason now s ≡ (
        with_record id (new_record b (cleanup_origin reason) reason now) (with_admission id b s),
        ok true,
      )
unfolding release release_memory release_found ended_as
release-active h reason now s a sound e live match whole valid =
    let id = h.admission.admission_id in
    let b = ended_as AdmissionState.released now a in
    elim (Option-cases (lookup id s.cleanup)) [
      | inr (rec, f) ↦
          let (over, one) = Matched-some _ _ a rec e f (sound.matched id) in
          absurd (ground (arith, active-unended a.state live, over))
      | inl f ↦ ground (
        arith,
        e,
        match,
        whole,
        valid,
        sound.names id a e,
        active-unended a.state live,
        f,
        ensure_cleanup_new b (cleanup_origin reason) reason now (with_admission id b s),
      )
    ]

-- A bind that is overtaken by a Release of its admission undoes it. The admission is active and has
-- no reservation, in a state that calls without an overtaken bind reach, and the bind names one and
-- asserts the admission, before it runs out, under its own complete handle with the lock manager's
-- consent. The Release between the assertion and the write, with a valid reason, says true; and yet
-- the bind succeeds and leaves the admission active.
pub overtaken-bind_revives :
    (name : AdmissionKey → ℕ → ℕ → ℕ) (h : AdmissionLease) (reason : ReleaseReason)
    (id now mid later : ℕ) (s : Sessions) (a : Admission)
    → Reach name s
    → lookup h.admission.admission_id s.items ≡ some a
    → admission_active a.state ≡ true
    → admission_matches a h.admission ≡ true
    → now < a.expires_at
    → a.reservation_id ≡ 0
    → id ≢ 0
    → lease_is_complete h ≡ true
    → valid_release_reason reason ≡ true
    → let overtaken =
        bind h (Binding.to_reservation id) (ok tt) (λ t. (release h reason mid t).0) now later s in
      ((release h reason mid s).1 ≡ ok true)
      × (overtaken.1 ≡ ok tt)
      × ((b : Admission) × (lookup h.admission.admission_id overtaken.0.items ≡ some b)
          × (admission_active b.state ≡ true))
unfolding bind bind_stored bound may_bind assert_active assert_stored holds ended_as
    admission_matches
overtaken-bind_revives name h reason id now mid later s a reached e live match early free named
      whole valid =
    let sound = Reach-Sound name s reached in
    let key = h.admission.admission_id in
    let out = release-active h reason mid s a sound e live match whole valid in
    let b = ended_as AdmissionState.released mid a in
    let stored = lookup-insert_self key b s.items in
    rw out (
      refl,
      ground (arith, e, live, match, early, free, named, whole, stored),
      (
        bound (Binding.to_reservation id) later b,
        ground (
          arith,
          e,
          live,
          match,
          early,
          free,
          named,
          whole,
          stored,
          sound.names key a e,
          lookup-insert_self key (bound (Binding.to_reservation id) later b)
              (with_admission key b s).items,
        ),
        refl,
      ),
    )
