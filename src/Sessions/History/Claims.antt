-- ===== src/Sessions/History/Claims.antt =====
-- claimAdmissionCleanupMemory, completeAdmissionCleanupMemory and retryAdmissionCleanupMemory of
-- runtime_session_admission.go: whose claim of a cleanup record counts.
use yuex.Prelude.{
  ℕ, ◌+◌, ◌*◌, ◌≡◌, ◌≢◌, ◌≤◌, ◌<◌, subst, ◌∙◌, sym, true, some, inl, inr, ok, err, ErrorCode,
  Option, Result, lookup, arith, Option-cases, Bool-cases, stale_fencing_token, lookup-insert_self,
  [], ◌∷◌, Map, All, All-select, All-sort, All-unit, is_zero, ◌||◌,
}
use yuex.Hosts.Types.{second}
use yuex.Sessions.Keys.{AdmissionKey}
use yuex.Sessions.Types.{CleanupClaim, CleanupRecord, Sessions}
use yuex.Sessions.Cleanup.{
  claim_cleanup, claim_first, claim_of, claimable, claimed_record, complete_cleanup, retry_cleanup,
  settle, claim_is_held, due_records, cleanup_is_due, sooner, retry_delay,
}
use yuex.Sessions.Release.{with_record}
use yuex.Sessions.System.{Reach, Steps}
use yuex.Sessions.System.Matching.{Matched-some}
use yuex.Sessions.System.Keeps.{Sound, Matched-absent, Writes-Sound}
use yuex.Sessions.System.Refines.{claim-Writes}
use yuex.Sessions.System.Invariants.{Reach-Sound, Steps-refines}
use yuex.Sessions.History.{Recorded, Writes-Recorded}

-- The record is due.
abbrev Due : ℕ → Sessions → ℕ × CleanupRecord → Type 0
Due now s p = cleanup_is_due now (lookup p.0 s.cleanup) ≡ true

claimable-lookup :
    (id : ℕ) (s : Sessions) (rec : CleanupRecord)
    → claimable id s ≡ some rec
    → lookup id s.cleanup ≡ some rec
unfolding claimable
claimable-lookup id s rec e = elim (Option-cases (lookup id s.cleanup)) [
  | inl f ↦ absurd (ground (arith, e, f))
  | inr (old, f) ↦ elim (Option-cases (lookup id s.items)) [
    | inl g ↦ absurd (ground (arith, e, f, g))
    | inr (a, g) ↦ ground (arith, e, f, g)
  ]
]

-- What a granted claim was made of.
pub record Granted (worker ttl now : ℕ) (s t : Sessions) (c : CleanupClaim) : Type 0 where
  pub id : ℕ
  pub old : CleanupRecord
  pub was : lookup id s.cleanup ≡ some old
  pub due : cleanup_is_due now (some old) ≡ true
  pub now_is : t ≡ with_record id (claimed_record worker now ttl old) s
  pub claim_is : c ≡ claim_of (claimed_record worker now ttl old)

claim_first-Granted :
    (worker now ttl : ℕ) (due : Map CleanupRecord) (s t : Sessions) (c : CleanupClaim)
    → All (Due now s) due
    → claim_first worker now ttl due s ≡ (t, ok (some c))
    → Granted worker ttl now s t c
unfolding claim_first claimable
claim_first-Granted worker now ttl [] s t c d g = absurd (ground (arith, g))
claim_first-Granted worker now ttl ((id, entry) ∷ rest) s t c (d, ds) g =
    elim (Option-cases (claimable id s)) [
      | inl e ↦ claim_first-Granted worker now ttl rest s t c ds (ground (arith, e, g))
      | inr (old, e) ↦
          let was : lookup id s.cleanup ≡ some old = claimable-lookup id s old e in
          record {
            id = id;
            old = old;
            was = was;
            due = subst (λ o. cleanup_is_due now o ≡ true) was d;
            now_is = ground (arith, e, g);
            claim_is = ground (arith, e, g);
          }
    ]

claim_cleanup-Granted :
    (worker ttl now : ℕ) (s t : Sessions) (c : CleanupClaim)
    → claim_cleanup worker ttl now s ≡ (t, ok (some c))
    → Granted worker ttl now s t c
unfolding claim_cleanup due_records
claim_cleanup-Granted worker ttl now s t c g = elim (Bool-cases (is_zero worker || is_zero ttl)) [
  | inl e ↦ absurd (ground (arith, e, g))
  | inr e ↦
      claim_first-Granted worker now ttl (due_records now s) s t c
        (All-sort (Due now s) sooner _
          (All-select (λ p. Unit {0}) (Due now s) _ (λ p u e. e) s.cleanup (All-unit s.cleanup)))
        (ground (arith, e, g))
]

-- A record's key is the identifier of its admission.
record-id :
    (s : Sessions) (id : ℕ) (rec : CleanupRecord)
    → Sound s
    → lookup id s.cleanup ≡ some rec
    → rec.admission.admission_id ≡ id
record-id s id rec h e = elim (Option-cases (lookup id s.items)) [
  | inl f ↦ absurd (ground (arith, Matched-absent _ _ f (h.matched id), e))
  | inr (a, f) ↦
      let (over, one) = Matched-some _ _ a rec f e (h.matched id) in one.same_id ∙ h.names id a f
]

-- A claim with a fence below the record's is refused.
settle-old :
    (change : CleanupRecord → CleanupRecord) (c : CleanupClaim) (now : ℕ) (s : Sessions)
    → Recorded c.admission.admission_id (c.fence + 1) s
    → settle change c now s ≡ (s, err stale_fencing_token)
unfolding settle claim_is_held
settle-old change c now s (rec, e, le) =
    elim (Option-cases (lookup c.admission.admission_id s.items)) [
      | inl f ↦ ground (arith, e, f)
      | inr (a, f) ↦ ground (arith, e, f, le)
    ]

Granted-Recorded :
    (worker ttl now : ℕ) (s t : Sessions) (c : CleanupClaim)
    → Sound s
    → Granted worker ttl now s t c
    → Recorded c.admission.admission_id c.fence t
unfolding claimed_record
Granted-Recorded worker ttl now s t c h g =
    let new = claimed_record worker now ttl g.old in
    let named = record-id s g.id g.old h g.was in
    (
      new,
      ground (arith, g.now_is, g.claim_is, named, lookup-insert_self g.id new s.cleanup),
      ground (arith, g.claim_is),
    )

after_claim :
    (worker ttl now : ℕ) (s t : Sessions) (found : Result (Option CleanupClaim))
    → Sound s
    → claim_cleanup worker ttl now s ≡ (t, found)
    → Sound t
after_claim worker ttl now s t found h e =
    subst (λ (x : Sessions × Result (Option CleanupClaim)). Sound x.0) e
      (Writes-Sound s _ h (claim-Writes s h worker ttl now))

-- A new claim stands above every fence that the record has had.
regranted-Recorded :
    (worker ttl now fence : ℕ) (s t : Sessions) (c : CleanupClaim)
    → Sound s
    → Recorded c.admission.admission_id fence s
    → Granted worker ttl now s t c
    → Recorded c.admission.admission_id (fence + 1) t
unfolding claimed_record
regranted-Recorded worker ttl now fence s t c h (rec, e, le) g =
    let new = claimed_record worker now ttl g.old in
    let named = record-id s g.id g.old h g.was in
    (
      new,
      ground (arith, g.now_is, g.claim_is, named, lookup-insert_self g.id new s.cleanup),
      ground (arith, g.was, g.claim_is, named, e, le),
    )

-- While a claim of a cleanup record has not run out, no worker is handed a second claim of the same
-- admission: a call in the state that the first one leaves claims another admission or none.
pub claim-excludes_claim :
    (name : AdmissionKey → ℕ → ℕ → ℕ) (worker ttl now worker' ttl' later : ℕ) (s t u : Sessions)
    (c c' : CleanupClaim)
    → Reach name s
    → claim_cleanup worker ttl now s ≡ (t, ok (some c))
    → claim_cleanup worker' ttl' later t ≡ (u, ok (some c'))
    → later < c.expires_at
    → c'.admission.admission_id ≢ c.admission.admission_id
unfolding claimed_record cleanup_is_due
claim-excludes_claim name worker ttl now worker' ttl' later s t u c c' r first second early k =
    let h = Reach-Sound name s r in
    let g = claim_cleanup-Granted worker ttl now s t c first in
    let g' = claim_cleanup-Granted worker' ttl' later t u c' second in
    let named = record-id s g.id g.old h g.was in
    let at_t = after_claim worker ttl now s t (ok (some c)) h first in
    let named' = record-id t g'.id g'.old at_t g'.was in
    let new = claimed_record worker now ttl g.old in
    let same_id : g'.id ≡ g.id = ground (arith, named, named', g.claim_is, g'.claim_is, k) in
    let stored : lookup g.id t.cleanup ≡ some new =
      ground (arith, g.now_is, lookup-insert_self g.id new s.cleanup) in
    let is : g'.old ≡ new = ground (arith, stored, g'.was, same_id) in
    ground (arith, g'.due, is, g.claim_is, early)

-- A claim of a cleanup record counts until the record is claimed again: once a later call has
-- handed out another claim of the same admission, the first one can neither complete nor retry the
-- cleanup, after any further calls without an overtaken bind, and an attempt changes nothing.
pub claim-fences_claim :
    (name : AdmissionKey → ℕ → ℕ → ℕ) (worker ttl now worker' ttl' later last : ℕ)
    (code : ErrorCode) (s t u v x : Sessions) (c c' : CleanupClaim)
    → Reach name s
    → claim_cleanup worker ttl now s ≡ (t, ok (some c))
    → Steps name t u
    → claim_cleanup worker' ttl' later u ≡ (v, ok (some c'))
    → c'.admission.admission_id ≡ c.admission.admission_id
    → Steps name v x
    → (complete_cleanup c last x ≡ (x, err stale_fencing_token))
      × (retry_cleanup c code last x ≡ (x, err stale_fencing_token))
unfolding complete_cleanup retry_cleanup
claim-fences_claim name worker ttl now worker' ttl' later last code s t u v x c c' r first before
      second same after =
    let h = Reach-Sound name s r in
    let at_t : Sound t = after_claim worker ttl now s t (ok (some c)) h first in
    let past = Steps-refines name t u at_t before in
    let at_u = Writes-Sound t u at_t past in
    let at_v : Sound v = after_claim worker' ttl' later u v (ok (some c')) at_u second in
    let held =
      Granted-Recorded worker ttl now s t c h (claim_cleanup-Granted worker ttl now s t c first) in
    let kept = subst (λ i. Recorded i c.fence u) (sym same) (Writes-Recorded _ _ t u held past) in
    let above =
      regranted-Recorded worker' ttl' later c.fence u v c' at_u kept
        (claim_cleanup-Granted worker' ttl' later u v c' second) in
    let beyond =
      subst (λ i. Recorded i (c.fence + 1) x) same
        (Writes-Recorded _ _ v x above (Steps-refines name v x at_v after)) in
    (settle-old _ c last x beyond, settle-old _ c last x beyond)

-- The delay before a failed cleanup is tried again grows with the attempts from 5 seconds up to one
-- minute.
pub retry_delay-bounded :
    (attempt more : ℕ)
    → attempt ≤ more
    → (5 * second ≤ retry_delay attempt)
      × (retry_delay attempt ≤ retry_delay more)
      × (retry_delay more ≤ 60 * second)
unfolding retry_delay
retry_delay-bounded attempt more h = (ground arith, ground arith, ground arith)
