-- ===== src/Scheduler/Handles/Releases.antt =====
-- ReleaseBeforeAccept and ReleaseAfterTerminal of runtime_scheduler.go on the session of a handle.
use yuex.Prelude.{
  ℕ, ◌≡◌, ◌≢◌, refl, ap, Bool, true, false, some, ok, Result, Done, arith, lookup, is_zero,
}
use yuex.Sessions.Keys.{AdmissionKey}
use yuex.Sessions.Types.{
  Admission, AdmissionLease, ReleaseReason, Sessions, admission_matches, lease_is_complete,
  valid_release_reason,
}
use yuex.Sessions.Admit
use yuex.Sessions.Release.{release}
use yuex.Sessions.Drain.{Round, release_and_drain, drain_cleanup}
use yuex.Sessions.System.{Reach}
use yuex.Sessions.System.Keeps.{Sound, Writes-Sound}
use yuex.Sessions.System.Refines.{release-Writes}
use yuex.Sessions.System.Drains.{drain-Writes}
use yuex.Sessions.System.Invariants.{Reach-Sound}
use yuex.Sessions.History.{EndedAt, Writes-EndedAt}
use yuex.Sessions.History.Ended.{release-succeeds, release-EndedAt, assert-ended}
use yuex.Scheduler.Handles.{
  Plane, ReservationLease, release_session, release_before_accept, release_after_terminal,
  normal_reason,
}

-- The session's release, with its drain.
release_session-EndedAt :
    (l : AdmissionLease) (reason : ReleaseReason) (now : ℕ) (worker : ℕ → ℕ) (rounds : ℕ → Round)
    (s : Sessions) (a : Admission)
    → Sound s
    → valid_release_reason reason ≡ true
    → lease_is_complete l ≡ true
    → lookup l.admission.admission_id s.items ≡ some a
    → admission_matches a l.admission ≡ true
    → EndedAt l.admission.admission_id (release_session (some l) reason now worker rounds s).0
unfolding release_session release_and_drain
release_session-EndedAt l reason now worker rounds s a h valid whole found match =
    let id = l.admission.admission_id in
    let (u, changed, succeeds) = release-succeeds l reason now s a h valid whole found match in
    let t = (release l reason now s).0 in
    let says : (release l reason now s).1 ≡ ok changed =
      ap (λ (x : Sessions × Result Bool). x.1) succeeds in
    let done : release l reason now s ≡ (t, ok changed) = ap (λ (r : Result Bool). (t, r)) says in
    let drained = drain_cleanup (worker l.admission.run_id) 1 rounds t in
    let over : EndedAt id drained.0 =
      Writes-EndedAt id t drained.0 (release-EndedAt l reason now s t changed h done) (
        drain-Writes (worker l.admission.run_id) 1 rounds t
          (Writes-Sound s t h (release-Writes s h l reason now))) in
    rw (says, release_session, release_and_drain) over

normal_reason-valid : (reason : ReleaseReason) → valid_release_reason (normal_reason reason) ≡ true
normal_reason-valid reason = ground arith

-- In every state of the session service that calls without an overtaken bind reach,
-- ReleaseBeforeAccept and ReleaseAfterTerminal end the session of a handle whose admission is
-- stored under it, whatever the lock manager, the hosts and the capacity answer: afterwards
-- AssertActive does not succeed for the session, at any time and with any answer of the lock
-- manager.
pub release-ends_session :
    (name : AdmissionKey → ℕ → ℕ → ℕ) (h : ReservationLease) (l : AdmissionLease)
    (reason : ReleaseReason) (text now later : ℕ) (run_lock lock : Done) (worker : ℕ → ℕ)
    (rounds : ℕ → Round) (p : Plane) (a : Admission)
    → Reach name p.sessions
    → h.reservation.reservation_id ≢ 0
    → h.session_admission ≡ some l
    → lease_is_complete l ≡ true
    → lookup l.admission.admission_id p.sessions.items ≡ some a
    → admission_matches a l.admission ≡ true
    → (Admit.assert_active l lock later
          (release_before_accept h reason text run_lock worker rounds now p).0.sessions
        ≢ ok tt)
      × (Admit.assert_active l lock later
            (release_after_terminal h run_lock worker rounds now p).0.sessions
          ≢ ok tt)
unfolding release_before_accept release_after_terminal
release-ends_session name h l reason text now later run_lock lock worker rounds p a reach named has
      whole found match =
    let sound = Reach-Sound name p.sessions reach in
    let given : is_zero h.reservation.reservation_id ≡ false = ground (arith, named) in
    let before =
      release_session-EndedAt l (normal_reason reason) now worker rounds p.sessions a sound
        (normal_reason-valid reason) whole found match in
    let after =
      release_session-EndedAt l ReleaseReason.recovered now worker rounds p.sessions a sound refl
        whole found match in
    (
      rw (given, release_before_accept) (rw has (assert-ended l _ before lock later)),
      rw (given, release_after_terminal) (rw has (assert-ended l _ after lock later)),
    )
