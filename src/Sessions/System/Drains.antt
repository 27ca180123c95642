-- ===== src/Sessions/System/Drains.antt =====
-- DrainAdmissionCleanup as writes of the abstract machine.
use yuex.Prelude.{
  Result-cases, ℕ, zero, suc, ◌*◌, ◌≡◌, ap, ◌∙◌, true, false, none, inl, inr, Bool, Done, ok, err,
  ErrorCode, delete, Option-cases, Bool-cases, invalid_argument, ◌||◌, is_zero, ltb,
}
use yuex.Hosts.Types.{second}
use yuex.Sessions.Types.{CleanupClaim, Sessions}
use yuex.Sessions.Cleanup.{
  claim_cleanup, complete_cleanup, retry_cleanup, cleanup_proof, cleanup_error_code,
}
use yuex.Sessions.Drain.{
  CleanupReport, Round, drop_handle, count_claimed, drain_cleanup, drain_loop, end_round,
  end_retried, end_completed, drain_limit, empty_report, is_stale,
}
use yuex.Sessions.System.{Write, Writes}
use yuex.Sessions.System.Keeps.{Sound, Writes-Sound}
use yuex.Sessions.System.Refines.{Writes-trans, once, claim-Writes, complete-Writes, retry-Writes}

pub drop-Writes : (s : Sessions) (id : ℕ) → Writes s (drop_handle id s)
drop-Writes s id = once (Write.handles (delete id s.handles))

module _ (c : CleanupClaim) (now : ℕ) (report : CleanupReport) (s : Sessions) (h : Sound s) where
  end_retried-Writes : (code : ErrorCode) → Writes s (end_retried c code now report s).0
  unfolding end_retried
  end_retried-Writes code = elim (Result-cases (retry_cleanup c code now s).1) [
    | inl (u, e) ↦ rw (e, end_retried) (retry-Writes s h c code now)
    | inr (x, e) ↦ rw (e, end_retried) (retry-Writes s h c code now)
  ]

  end_completed-Writes : (stale : Bool) → Writes s (end_completed c stale now report s).0
  unfolding end_completed
  end_completed-Writes stale = elim (Result-cases (complete_cleanup c now s).1) [
    | inl (u, e) ↦
        rw (e, end_completed)
          (Writes-trans (complete-Writes s h c now) (drop-Writes _ c.admission.admission_id))
    | inr (x, e) ↦ rw (e, end_completed) (complete-Writes s h c now)
  ]

-- What every way of a round to end has.
pub end_round_cases {ℓ} :
    (P : Sessions × CleanupReport × Done → Type ℓ) (round : Round) (c : CleanupClaim)
    (report : CleanupReport) (s : Sessions)
    → ((code : ErrorCode) → P (end_retried c code round.end_time report s))
    → ((stale : Bool) → P (end_completed c stale round.end_time report s))
    → P (end_round round c report s)
unfolding end_round
end_round_cases P round c report s retried completed = elim (Option-cases (cleanup_proof c)) [
  | inl e ↦ rw (e, end_round) (retried (cleanup_error_code invalid_argument))
  | inr (proof, e) ↦ elim (Result-cases (round.answer proof)) [
    | inl (u, f) ↦ rw (e, end_round) (rw f (completed false))
    | inr (x, f) ↦ elim (Bool-cases (is_stale x)) [
      | inl g ↦ rw (e, end_round) (rw f (rw g (completed true)))
      | inr g ↦ rw (e, end_round) (rw f (rw g (retried (cleanup_error_code x))))
    ]
  ]
]

end_round-Writes :
    (round : Round) (c : CleanupClaim) (report : CleanupReport) (s : Sessions)
    → Sound s
    → Writes s (end_round round c report s).0
end_round-Writes round c report s h =
    end_round_cases (λ x. Writes s x.0) round c report s
      (end_retried-Writes c round.end_time report s h)
      (end_completed-Writes c round.end_time report s h)

-- One round of the loop: it is cancelled, its claim fails, nothing is due, or a claim is worked on, and
-- then the loop goes on unless that failed.
pub drain_loop_cases {ℓ} :
    (P : Sessions × CleanupReport × Done → Type ℓ) (worker : ℕ) (rounds : ℕ → Round) (left : ℕ)
    (report : CleanupReport) (s : Sessions)
    → let round = rounds report.claimed in
      let claimed = claim_cleanup worker (30 * second) round.claim_time s in
      ((e : ErrorCode) → P (s, report, err e))
      → ((e : ErrorCode) → P (claimed.0, report, err e))
      → (claimed.1 ≡ ok none → P (claimed.0, report, ok tt))
      → ((c : CleanupClaim) (e : ErrorCode)
          → let ended = end_round round c (count_claimed report) claimed.0 in
            ended.2 ≡ err e → P (ended.0, ended.1, err e))
      → ((c : CleanupClaim)
          → let ended = end_round round c (count_claimed report) claimed.0 in
            ended.2 ≡ ok tt → P (drain_loop worker rounds left ended.1 ended.0))
      → P (drain_loop worker rounds (suc left) report s)
unfolding drain_loop
drain_loop_cases P worker rounds left report s cancelled failed idle stopped went_on =
    let round = rounds report.claimed in
    let claimed = claim_cleanup worker (30 * second) round.claim_time s in
    elim (Option-cases round.cancelled) [
      | inr (x, e) ↦ rw (e, drain_loop) (cancelled x)
      | inl e ↦ elim (Result-cases claimed.1) [
        | inr (x, f) ↦ rw (e, drain_loop) (rw f (failed x))
        | inl (found, f) ↦ elim (Option-cases found) [
          | inl g ↦ rw (e, drain_loop) (rw f (rw g (idle (f ∙ ap ok g))))
          | inr (c, g) ↦
              elim (Result-cases (end_round round c (count_claimed report) claimed.0).2) [
                | inr (x, k) ↦ rw (e, drain_loop) (rw f (rw g (rw k (stopped c x k))))
                | inl (u, k) ↦ rw (e, drain_loop) (rw f (rw g (rw k (went_on c k))))
              ]
        ]
      ]
    ]

drain_loop-Writes :
    (worker : ℕ) (rounds : ℕ → Round) (left : ℕ) (report : CleanupReport) (s : Sessions)
    → Sound s
    → Writes s (drain_loop worker rounds left report s).0
unfolding drain_loop
drain_loop-Writes worker rounds zero report s h = Writes.no_write
drain_loop-Writes worker rounds (suc left) report s h =
    let round = rounds report.claimed in
    let claimed = claim_cleanup worker (30 * second) round.claim_time s in
    let w = claim-Writes s h worker (30 * second) round.claim_time in
    let worked = λ (c : CleanupClaim).
      Writes-trans w
        (end_round-Writes round c (count_claimed report) claimed.0 (Writes-Sound s _ h w)) in
    drain_loop_cases (λ x. Writes s x.0) worker rounds left report s (λ e. Writes.no_write) (λ e. w)
      (λ e. w) (λ c e k. worked c)
      (λ c k.
        Writes-trans (worked c)
          (drain_loop-Writes worker rounds left _ _ (Writes-Sound s _ h (worked c))))

pub drain-Writes :
    (worker limit : ℕ) (rounds : ℕ → Round) (s : Sessions)
    → Sound s
    → Writes s (drain_cleanup worker limit rounds s).0
unfolding drain_cleanup
drain-Writes worker limit rounds s h = elim (Bool-cases (is_zero worker || ltb limit 1)) [
  | inl e ↦ rw e Writes.no_write
  | inr e ↦ rw e (drain_loop-Writes worker rounds (drain_limit limit) empty_report s h)
]
