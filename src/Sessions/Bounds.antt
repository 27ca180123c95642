-- ===== src/Sessions/Bounds.antt =====
-- The report of DrainAdmissionCleanup of runtime_session_admission.go.
use yuex.Prelude.{
  Result-cases, ℕ, zero, suc, ◌+◌, ◌*◌, ◌≡◌, ◌≤◌, inl, inr, refl, ok, err, ErrorCode, Done, arith,
  Bool-cases, ◌||◌, is_zero, ltb,
}
use yuex.Hosts.Types.{second}
use yuex.Sessions.Types.{CleanupClaim, Sessions}
use yuex.Sessions.Cleanup.{claim_cleanup, complete_cleanup, retry_cleanup}
use yuex.Sessions.Drain.{
  CleanupReport, Round, count_claimed, drain_cleanup, drain_loop, end_round, end_retried,
  end_completed, drain_limit, empty_report,
}
use yuex.Sessions.System.Drains.{end_round_cases, drain_loop_cases}

-- Every claim of the report is accounted for.
abbrev Settled : CleanupReport → Type 0
Settled r = (r.completed + r.retried ≡ r.claimed) × (r.stale ≤ r.completed)

-- A report at the end: at most one claim is open, and none after a success.
abbrev pub Tallied : ℕ → CleanupReport → Done → Type 0
Tallied limit r done =
    (r.claimed ≤ limit)
    × (r.completed + r.retried ≤ r.claimed)
    × (r.claimed ≤ r.completed + r.retried + 1)
    × (r.stale ≤ r.completed)
    × (done ≡ ok tt → r.completed + r.retried ≡ r.claimed)

-- One round counts its claim.
abbrev Counted : ℕ → CleanupReport → Done → Type 0
Counted claims r done = Tallied claims r done × (r.claimed ≡ claims)

module _ (round : Round) (c : CleanupClaim) (report : CleanupReport) (s : Sessions)
    (ready : Settled report) where
  open_claim : (e : ErrorCode) → Counted (report.claimed + 1) (count_claimed report) (err e)
  open_claim e =
      let (settled, stale) = ready in
      ((omega arith, omega arith, omega arith, omega arith, λ k. ground (arith, k)), refl)

  end_round-Counted :
      let x = end_round round c (count_claimed report) s in Counted (report.claimed + 1) x.1 x.2
  unfolding end_retried end_completed
  end_round-Counted =
      let (settled, stale) = ready in
      end_round_cases (λ x. Counted (report.claimed + 1) x.1 x.2) round c (count_claimed report) s
        (λ code. elim (Result-cases (retry_cleanup c code round.end_time s).1) [
          | inl (u, e) ↦
              rw (e, end_retried)
                ((omega arith, omega arith, omega arith, omega arith, λ k. omega arith), refl)
          | inr (x, e) ↦ rw (e, end_retried) (open_claim x)
        ])
        (λ late. elim (Result-cases (complete_cleanup c round.end_time s).1) [
          | inl (u, e) ↦
              rw (e, end_completed)
                ((omega arith, omega arith, omega arith, ground arith, λ k. omega arith), refl)
          | inr (x, e) ↦ rw (e, end_completed) (open_claim x)
        ])

drain_loop-Tallied :
    (worker : ℕ) (rounds : ℕ → Round) (left limit : ℕ) (report : CleanupReport) (s : Sessions)
    → Settled report
    → report.claimed + left ≤ limit
    → let x = drain_loop worker rounds left report s in Tallied limit x.1 x.2
unfolding drain_loop
drain_loop-Tallied worker rounds zero limit report s (settled, stale) le =
    (omega arith, omega arith, omega arith, omega arith, λ k. omega arith)
drain_loop-Tallied worker rounds (suc left) limit report s ready le =
    let (settled, stale) = ready in
    let here : (d : Done) → Tallied limit report d = λ d.
      (omega (arith, le), omega (arith, settled), omega (arith, settled), stale, λ k. settled) in
    let s' = (claim_cleanup worker (30 * second) (rounds report.claimed).claim_time s).0 in
    let after = λ (c : CleanupClaim). end_round-Counted (rounds report.claimed) c report s' ready in
    drain_loop_cases (λ x. Tallied limit x.1 x.2) worker rounds left report s (λ e. here (err e))
      (λ e. here (err e)) (λ e. here (ok tt))
      (λ c e k.
        let ((a, b, f, g, h), n) = after c in
        (omega (arith, a, le), b, f, g, λ d. ground (arith, d)))
      (λ c k.
        let ((a, b, f, g, h), n) = after c in
        drain_loop-Tallied worker rounds left limit _ _ (h k, g) (omega (arith, n, le)))

drain_limit-le : (limit : ℕ) → (drain_limit limit ≤ limit) × (drain_limit limit ≤ 500)
unfolding drain_limit
drain_limit-le limit = (ground arith, ground arith)

-- However the rounds go, DrainAdmissionCleanup ends with at most 500 claims, and not more than its
-- limit. Its report counts every claim but an open one as completed or retried, where only a call that
-- fails leaves a claim open, and at most one; and it counts no more stale locks than completions.
pub drain_cleanup-Tallied :
    (worker limit : ℕ) (rounds : ℕ → Round) (s : Sessions)
    → let x = drain_cleanup worker limit rounds s in Tallied limit x.1 x.2 × (x.1.claimed ≤ 500)
unfolding drain_cleanup
drain_cleanup-Tallied worker limit rounds s = elim (Bool-cases (is_zero worker || ltb limit 1)) [
  | inl e ↦
      rw (e, drain_cleanup)
        ((omega arith, omega arith, omega arith, omega arith, λ k. refl), omega arith)
  | inr e ↦
      let (a, b, c, d, f) =
        drain_loop-Tallied worker rounds (drain_limit limit) (drain_limit limit) empty_report s
          (refl, omega arith) (omega arith) in
      rw (e, drain_cleanup)
        (
          (omega (arith, a, (drain_limit-le limit).0), b, c, d, f),
          omega (arith, a, (drain_limit-le limit).1),
        )
]
