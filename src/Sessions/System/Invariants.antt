-- ===== src/Sessions/System/Invariants.antt =====
-- What holds in every state that the calls of RuntimeSessionAdmissionService reach.
use yuex.Prelude.{
  ℕ, ◌≡◌, ◌⊎◌, inl, inr, true, none, some, lookup, ok, arith, Option-cases, Bool-cases,
  Result-cases, Done, is_zero,
}
use yuex.Sessions.Keys.{AdmissionKey}
use yuex.Sessions.Types.{
  Admission, AdmissionLease, CleanupRecord, Sessions, new_sessions, admission_active,
  admission_ended,
}
use yuex.Sessions.Admit.{assert_active}
use yuex.Sessions.Bind.{Binding, bind, bound_name, release_terminal_lease, release_failure}
use yuex.Sessions.Release.{backfill}
use yuex.Sessions.System.{SameAdmission, Writes, Step, Reach, Steps}
use yuex.Sessions.System.Matching.{Matched-none, Matched-some}
use yuex.Sessions.System.Keeps.{Sound, Writes-Sound}
use yuex.Sessions.System.Refines.{
  Writes-trans, acquire-Writes, renew-Writes, bind-Writes, release-Writes, claim-Writes,
  complete-Writes, retry-Writes, recover-Writes, backfill_loop-idle,
}
use yuex.Sessions.System.Drains.{drain-Writes, drop-Writes}

pub Step-refines :
    (name : AdmissionKey → ℕ → ℕ → ℕ) (s t : Sessions) → Sound s → Step name s t → Writes s t
unfolding backfill release_terminal_lease
Step-refines name s t h (Step.acquires c lock now fresh) = acquire-Writes s h name c lock now fresh
Step-refines name s t h (Step.renews l ttl lock now) = renew-Writes s h l ttl lock now
Step-refines name s t h (Step.binds l b now live) = bind-Writes s h l b now live
Step-refines name s t h (Step.releases l reason now) = release-Writes s h l reason now
Step-refines name s t h (Step.drops l lock) =
    let none = Writes.no_write {s = s} in
    let dropped = drop-Writes s l.admission.admission_id in
    elim (Option-cases (release_failure lock)) [
      | inl e ↦ ground (arith, e, none, dropped)
      | inr (x, e) ↦ ground (arith, e, none)
    ]
Step-refines name s t h (Step.recovers now limit) = recover-Writes now limit s h
Step-refines name s t h (Step.backfills now limit) =
    rw (backfill_loop-idle now limit _ 0 s h) Writes.no_write
Step-refines name s t h (Step.drains worker limit rounds) = drain-Writes worker limit rounds s h
Step-refines name s t h (Step.claims worker ttl now) = claim-Writes s h worker ttl now
Step-refines name s t h (Step.completes c now) = complete-Writes s h c now
Step-refines name s t h (Step.retries c code now) = retry-Writes s h c code now
Step-refines name s t h (Step.forgets id) = drop-Writes s id

new_sessions-Sound : Sound new_sessions
unfolding lookup
new_sessions-Sound = record {
  names = λ id a e. ground (arith, e);
  exclusive = λ i j a b e. ground (arith, e);
  matched = λ id. tt;
}

pub Reach-Sound : (name : AdmissionKey → ℕ → ℕ → ℕ) (s : Sessions) → Reach name s → Sound s
Reach-Sound name s Reach.start = new_sessions-Sound
Reach-Sound name t (Reach.step {s = s} r w) =
    let h = Reach-Sound name s r in Writes-Sound s t h (Step-refines name s t h w)

pub Steps-refines :
    (name : AdmissionKey → ℕ → ℕ → ℕ) (s t : Sessions) → Sound s → Steps name s t → Writes s t
Steps-refines name s t h Steps.none_yet = Writes.no_write
Steps-refines name s u h (Steps.and_then {t = t} more w) =
    let past = Steps-refines name s t h more in
    Writes-trans past (Step-refines name t u (Writes-Sound s t h past) w)

-- A whole bind is calls of the machine: those that come between its assertion and its write, and the
-- write, if the admission is still active.
bind-Steps :
    (name : AdmissionKey → ℕ → ℕ → ℕ) (h : AdmissionLease) (b : Binding) (lock : Done)
    (between : Sessions → Sessions) (now later : ℕ) (s : Sessions)
    → Steps name s (between s)
    → ((a : Admission)
        → lookup h.admission.admission_id (between s).items ≡ some a
        → admission_active a.state ≡ true)
    → Steps name s (bind h b lock between now later s).0
unfolding bind
bind-Steps name h b lock between now later s calls live =
    elim (Bool-cases (is_zero (bound_name b))) [
      | inl z ↦ rw (z, bind) Steps.none_yet
      | inr z ↦ elim (Result-cases (assert_active h lock now s)) [
        | inr (x, e) ↦ rw (z, bind) (rw e Steps.none_yet)
        | inl (u, e) ↦ rw (z, bind) (rw e (Steps.and_then calls (Step.binds h b later live)))
      ]
    ]

-- In every state that calls reach, each call of the service does to the admissions and their records
-- what a sequence of writes of the abstract machine does: an admission is admitted to a free session
-- only, changes only while it is active and keeps its identity, and ends once, in one write with the
-- enqueueing of its cleanup record. The calls are those in which no bind writes to an admission that
-- ended after the bind had asserted it.
pub Reach-refines :
    (name : AdmissionKey → ℕ → ℕ → ℕ) (s t : Sessions) → Reach name s → Step name s t → Writes s t
Reach-refines name s t r = Step-refines name s t (Reach-Sound name s r)

-- In every state that calls reach, a product session has at most one active admission, where no bind
-- has written to an admission that ended after the bind had asserted it.
pub Reach-exclusive :
    (name : AdmissionKey → ℕ → ℕ → ℕ) (s : Sessions) (i j : ℕ) (a b : Admission)
    → Reach name s
    → lookup i s.items ≡ some a
    → lookup j s.items ≡ some b
    → admission_active a.state ≡ true
    → admission_active b.state ≡ true
    → a.key ≡ b.key
    → i ≡ j
Reach-exclusive name s i j a b r = (Reach-Sound name s r).exclusive i j a b

-- In every state that calls reach, each admission that has ended has a cleanup record that carries
-- its identity, so the release of its lock is not lost, and an admission that is active has none, where
-- no bind has written to an admission that ended after the bind had asserted it.
pub Reach-enqueued :
    (name : AdmissionKey → ℕ → ℕ → ℕ) (s : Sessions) (id : ℕ) (a : Admission)
    → Reach name s
    → lookup id s.items ≡ some a
    → ((admission_ended a.state ≡ true)
        × ((rec : CleanupRecord) × (lookup id s.cleanup ≡ some rec)
            × SameAdmission rec.admission a))
      ⊎ ((admission_active a.state ≡ true) × (lookup id s.cleanup ≡ none))
Reach-enqueued name s id a r e =
    let h = Reach-Sound name s r in
    elim (Option-cases (lookup id s.cleanup)) [
      | inl f ↦ inr (Matched-none _ _ a e f (h.matched id), f)
      | inr (rec, f) ↦
          let (over, one) = Matched-some _ _ a rec e f (h.matched id) in inl (over, (rec, f, one))
    ]

-- In every state that calls without an overtaken bind reach, the backfill finds no admission
-- without its record: it changes nothing, creates nothing and does not fail.
pub backfill-idle :
    (name : AdmissionKey → ℕ → ℕ → ℕ) (s : Sessions) (now limit : ℕ)
    → Reach name s
    → backfill now limit s ≡ (s, 0, ok tt)
unfolding backfill
backfill-idle name s now limit r = backfill_loop-idle now limit _ 0 s (Reach-Sound name s r)
