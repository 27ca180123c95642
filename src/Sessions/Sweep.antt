-- ===== src/Sessions/Sweep.antt =====
-- Recover of runtime_session_admission.go: what it does to each admission, and its report.
use yuex.Prelude.{
  ℕ, ◌+◌, ◌≡◌, ◌≤◌, ◌⊎◌, inl, inr, refl, ok, true, Option, none, some, List, [], ◌∷◌, arith,
  Bool-cases, leb, ◌==◌, Map, lookup, lookup-insert, insert, total, total-insert, subst,
}
use yuex.Sessions.Keys.{AdmissionKey}
use yuex.Sessions.Types.{
  Admission, AdmissionState, CleanupOrigin, ReleaseReason, Sessions, admission_active,
}
use yuex.Sessions.Release.{RecoveryReport, recover, recover_loop, recover_limit, ended_as}
use yuex.Sessions.System.{Reach}
use yuex.Sessions.System.Matching.{recover_one_lem}
use yuex.Sessions.System.Keeps.{Sound, Write-Sound}
use yuex.Sessions.System.Refines.{end-Write}
use yuex.Sessions.System.Invariants.{Reach-Sound}

abbrev expired_state : AdmissionState → ℕ
expired_state AdmissionState.expired = 1
expired_state state = 0

-- 1 for an expired admission.
abbrev pub expired_unit : Admission → ℕ
expired_unit a = expired_state a.state

-- An admission before and after: as it was, or expired, where it was active and had run out.
abbrev pub Swept : ℕ → Option Admission → Option Admission → Type 0
Swept now none after = after ≡ none
Swept now (some a) after =
    (after ≡ some a)
    ⊎ ((admission_active a.state ≡ true)
        × (a.expires_at ≤ now)
        × (after ≡ some (ended_as AdmissionState.expired now a)))

Swept-refl : (now : ℕ) (o : Option Admission) → Swept now o o
Swept-refl now none = refl
Swept-refl now (some a) = inl refl

-- An expired admission is not swept again.
Swept-ended :
    (now : ℕ) (a : Admission) (after : Option Admission)
    → admission_active a.state ≡ true
    → a.expires_at ≤ now
    → Swept now (some (ended_as AdmissionState.expired now a)) after
    → Swept now (some a) after
unfolding ended_as
Swept-ended now a after live due (inl e) = inr (live, due, e)
Swept-ended now a after live due (inr (again, late, e)) = absurd (ground (arith, again))

-- The sweep after an admission has expired, seen from before.
Swept-put :
    (now k id : ℕ) (a : Admission) (items : Map Admission) (after : Option Admission)
    → lookup k items ≡ some a
    → admission_active a.state ≡ true
    → a.expires_at ≤ now
    → Swept now (lookup id (insert k (ended_as AdmissionState.expired now a) items)) after
    → Swept now (lookup id items) after
Swept-put now k id a items after e live due h = elim (Bool-cases (k == id)) [
  | inl here ↦
      let b = ended_as AdmissionState.expired now a in
      let put : lookup id (insert k b items) ≡ some b =
        ground (arith, lookup-insert k id b items) in
      let found : lookup id items ≡ some a = ground (arith, e) in
      rw found (Swept-ended now a after live due (subst (λ o. Swept now o after) put h))
  | inr other ↦
      let b = ended_as AdmissionState.expired now a in
      let kept : lookup id (insert k b items) ≡ lookup id items =
        ground (arith, lookup-insert k id b items) in
      subst (λ o. Swept now o after) kept h
]

expired_unit-active :
    (state : AdmissionState) → admission_active state ≡ true → expired_state state ≡ 0
expired_unit-active AdmissionState.acquired h = refl
expired_unit-active AdmissionState.reservation_bound h = refl
expired_unit-active AdmissionState.dispatch_bound h = refl
expired_unit-active AdmissionState.recovering h = refl
expired_unit-active AdmissionState.released h = refl
expired_unit-active AdmissionState.expired h = absurd (ground (arith, h))

-- The loop from a state and a report to its end.
record Sweep (now limit : ℕ) (before after : Sessions) (start end : RecoveryReport) : Type 0 where
  pub within : end.scanned ≤ limit
  pub counted : end.expired ≡ end.scanned
  pub grown :
      total expired_unit after.items + start.expired ≡ total expired_unit before.items + end.expired
  pub swept : (id : ℕ) → Swept now (lookup id before.items) (lookup id after.items)

Sweep-nothing :
    (now limit : ℕ) (s : Sessions) (report : RecoveryReport)
    → report.scanned ≤ limit
    → report.expired ≡ report.scanned
    → Sweep now limit s s report report
Sweep-nothing now limit s report le same = record {
  within = le;
  counted = same;
  grown = refl;
  swept = λ id. Swept-refl now (lookup id s.items);
}

recover_loop-Sweep :
    (now limit : ℕ) (entries : List (ℕ × Admission)) (report : RecoveryReport) (s : Sessions)
    → Sound s
    → report.scanned ≤ limit
    → report.expired ≡ report.scanned
    → let x = recover_loop now limit entries report s in
      (x.2 ≡ ok tt) × Sweep now limit s x.0 report x.1
unfolding recover_loop ended_as
recover_loop-Sweep now limit [] report s h le same =
    (refl, Sweep-nothing now limit s report le same)
recover_loop-Sweep now limit ((k, a) ∷ rest) report s h le same =
    elim (Bool-cases (leb limit report.scanned)) [
      | inl g ↦ rw (g, recover_loop) (refl, Sweep-nothing now limit s report le same)
      | inr g ↦ elim (recover_one_lem now k s h.names (h.matched k)) [
        | inl e ↦ rw (g, recover_loop) (rw e (recover_loop-Sweep now limit rest report s h le same))
        | inr (x, e, live, due, free, gives) ↦
            let w =
              end-Write s h k x AdmissionState.expired CleanupOrigin.lease_expiry
                ReleaseReason.lease_expired now e live free refl in
            let b = ended_as AdmissionState.expired now x in
            let (done, tail) =
              recover_loop-Sweep now limit rest
                (record report { scanned = report.scanned + 1; expired = report.expired + 1 }) _
                (Write-Sound s _ h w) (ground arith) (omega arith) in
            rw (g, recover_loop)
              (rw gives (
                done,
                record {
                  within = tail.within;
                  counted = tail.counted;
                  grown = ground (
                    arith,
                    tail.grown,
                    total-insert expired_unit k b s.items,
                    e,
                    expired_unit-active x.state live,
                  );
                  swept = λ id. Swept-put now k id x s.items _ e live due (tail.swept id);
                },
              ))
      ]
    ]

-- In every state that calls without an overtaken bind reach, Recover succeeds. Each admission is
-- afterwards as it was, or it was active and had run out and is now stored as expired; the expired
-- admissions grow by just the number that the report gives as scanned and as expired, which is at
-- most 500, and not more than a limit that is given.
pub recover-Swept :
    (name : AdmissionKey → ℕ → ℕ → ℕ) (now limit id : ℕ) (s : Sessions)
    → Reach name s
    → let x = recover now limit s in
      (x.2 ≡ ok tt)
      × Swept now (lookup id s.items) (lookup id x.0.items)
      × (total expired_unit x.0.items ≡ total expired_unit s.items + x.1.scanned)
      × (x.1.expired ≡ x.1.scanned)
      × (x.1.scanned ≤ 500)
      × (1 ≤ limit → x.1.scanned ≤ limit)
unfolding recover recover_limit
recover-Swept name now limit id s r =
    let (done, sweep) =
      recover_loop-Sweep now (recover_limit limit) s.items
        (record { scanned = 0; recovering = 0; expired = 0 }) s (Reach-Sound name s r) (omega arith)
        refl in
    let le = sweep.within in
    (
      done,
      sweep.swept id,
      omega (arith, sweep.grown, sweep.counted),
      sweep.counted,
      ground (arith, le),
      λ k. ground (arith, le, k),
    )
