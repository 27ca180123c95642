-- ===== src/Hosts/Lifecycle/Claims.antt =====
-- ClaimDispatchRecovery, AssertDispatchRecoveryClaim and AdvanceDispatchRecovery: who may recover a
-- dispatch, and when.
use yuex.Prelude.{
  ℕ, ◌≤◌, ◌<◌, ◌≡◌, ◌≢◌, ◌&&◌, All-unit, sym, true, some, inl, inr, arith, lookup, Option-cases, ok,
  length, length-take, All, All-take, All-sort, All-select, values, lookup-insert_self,
}
use yuex.Hosts.Types.{Dispatch, Repository, DispatchState, RecoveryClaim, active_dispatch_state}
use yuex.Hosts.Recovery.{
  claim_dispatch_recovery, claimed, assert_dispatch_recovery_claim, advance_dispatch_recovery,
  due_dispatches, recovery_is_due, claimed_by_other, recovery_claim_active, holds_claim,
  list_dispatch_recovery_candidates, batch_limit, advanced,
}
use yuex.Hosts.System.Keeps.{Sound}

-- What a granted claim leaves behind.
pub claim-ok :
    (c : RecoveryClaim) (now : ℕ) (r s : Repository)
    → Sound r
    → claim_dispatch_recovery c now r ≡ (s, ok tt)
    → (d : Dispatch) × (lookup c.dispatch_id r.dispatches ≡ some d)
      × (lookup c.dispatch_id s.dispatches ≡ some (claimed c now d))
      × (d.version ≡ c.expected_version)
      × (d.dispatch_id ≡ c.dispatch_id)
      × (c.owner_instance_id ≢ 0)
      × (1 ≤ c.fencing_token)
unfolding claim_dispatch_recovery
claim-ok c now r s h granted = elim (Option-cases (lookup c.dispatch_id r.dispatches)) [
  | inl e ↦ absurd (ground (arith, granted))
  | inr (d, e) ↦ (
    d,
    e,
    ground (
      arith,
      h.dispatch_keys c.dispatch_id d e,
      lookup-insert_self c.dispatch_id (claimed c now d) r.dispatches,
      granted,
    ),
    ground (arith, granted),
    h.dispatch_keys c.dispatch_id d e,
    ground (arith, granted),
    ground (arith, granted),
  )
]

-- A dispatch with a live claim of another owner cannot be claimed.
pub claim-held :
    (c : RecoveryClaim) (now : ℕ) (r : Repository) (d : Dispatch)
    → lookup c.dispatch_id r.dispatches ≡ some d
    → now < d.recovery_expires_at
    → d.recovery_owner_instance_id ≢ c.owner_instance_id
    → ((claim_dispatch_recovery c now r).1 ≢ ok tt) × ((claim_dispatch_recovery c now r).0 ≡ r)
unfolding claim_dispatch_recovery claimed_by_other
claim-held c now r d e live other = (λ k. ground (arith, e, k), ground (arith, e))

-- A dispatch of another version cannot be claimed.
pub claim-moved :
    (c : RecoveryClaim) (now : ℕ) (r : Repository) (d : Dispatch)
    → lookup c.dispatch_id r.dispatches ≡ some d
    → d.version ≢ c.expected_version
    → ((claim_dispatch_recovery c now r).1 ≢ ok tt) × ((claim_dispatch_recovery c now r).0 ≡ r)
unfolding claim_dispatch_recovery
claim-moved c now r d e other = (λ k. ground (arith, e, k), ground (arith, e))

-- In the state that a granted claim leaves, ClaimDispatchRecovery grants no other owner a claim of the
-- same dispatch at a time before that claim runs out: the call fails and changes nothing.
claim-excludes_next :
    (c c' : RecoveryClaim) (now later : ℕ) (r s : Repository)
    → Sound r
    → claim_dispatch_recovery c now r ≡ (s, ok tt)
    → c'.dispatch_id ≡ c.dispatch_id
    → c'.owner_instance_id ≢ c.owner_instance_id
    → later < c.expires_at
    → ((claim_dispatch_recovery c' later s).1 ≢ ok tt)
      × ((claim_dispatch_recovery c' later s).0 ≡ s)
unfolding claimed
claim-excludes_next c c' now later r s h granted same other early =
    let (d, e, after, v, key, owner, fencing) = claim-ok c now r s h granted in
    claim-held c' later s (claimed c now d) (rw same after) early (λ k. other (sym k))

assert-lookup :
    (c : RecoveryClaim) (now : ℕ) (r : Repository) (d : Dispatch)
    → lookup c.dispatch_id r.dispatches ≡ some d
    → recovery_claim_active d c now ≡ true
    → c.dispatch_id ≢ 0
    → c.expires_at ≢ 0
    → assert_dispatch_recovery_claim c now r ≡ ok tt
unfolding assert_dispatch_recovery_claim recovery_claim_active
assert-lookup c now r d e live named dated = ground (arith, e)

-- A granted claim is one that AssertDispatchRecoveryClaim accepts until it runs out, as long as the
-- dispatch stays as it is.
pub claim-asserts :
    (c : RecoveryClaim) (now later : ℕ) (r s : Repository)
    → Sound r
    → claim_dispatch_recovery c now r ≡ (s, ok tt)
    → later < c.expires_at
    → assert_dispatch_recovery_claim c later s ≡ ok tt
unfolding recovery_claim_active claimed claim_dispatch_recovery
claim-asserts c now later r s h granted early =
    let (d, e, after, v, key, owner, fencing) = claim-ok c now r s h granted in
    assert-lookup c later s (claimed c now d) after (ground arith) (ground (arith, granted))
      (omega (arith, early))

-- AdvanceDispatchRecovery ends the claim under which it is called: after its success the holder's
-- claim is no longer asserted, at any time, and a second advance by that claim fails and changes
-- nothing.
pub advance-ends_claim :
    (c : RecoveryClaim) (to to' : DispatchState) (next next' now later : ℕ) (r s : Repository)
    → Sound r
    → advance_dispatch_recovery c to next now r ≡ (s, ok tt)
    → (assert_dispatch_recovery_claim c later s ≢ ok tt)
      × ((advance_dispatch_recovery c to' next' later s).1 ≢ ok tt)
      × ((advance_dispatch_recovery c to' next' later s).0 ≡ s)
unfolding advance_dispatch_recovery assert_dispatch_recovery_claim advanced holds_claim
    recovery_claim_active
advance-ends_claim c to to' next next' now later r s h moved =
    elim (Option-cases (lookup c.dispatch_id r.dispatches)) [
      | inl e ↦ absurd (ground (arith, moved))
      | inr (d, e) ↦
          let after : lookup c.dispatch_id s.dispatches ≡ some (advanced to next now d) = ground (
            arith,
            moved,
            h.dispatch_keys c.dispatch_id d e,
            lookup-insert_self c.dispatch_id (advanced to next now d) r.dispatches,
          ) in
          (λ k. ground (arith, after, k), λ k. ground (arith, after, k), ground (arith, after))
    ]

-- Active, and due for recovery.
abbrev pub Due : ℕ → Dispatch → Type 0
Due now d = (active_dispatch_state d.state && recovery_is_due now d) ≡ true

-- At most 500 dispatches are returned by ListDispatchRecoveryCandidates, each of them active and due.
pub list_dispatch_recovery_candidates_sound :
    (now limit : ℕ) (r : Repository)
    → (length (list_dispatch_recovery_candidates now limit r) ≤ 500)
      × All (Due now) (list_dispatch_recovery_candidates now limit r)
unfolding list_dispatch_recovery_candidates due_dispatches batch_limit
list_dispatch_recovery_candidates_sound now limit r = (
  ground (arith, length-take (batch_limit limit) (due_dispatches now r)),
  All-take (Due now) (batch_limit limit) _ (
      All-sort (Due now) _ _ (
        All-select (λ d. Unit {0}) (Due now) _ (λ d u e. e) (values r.dispatches)
          (All-unit (values r.dispatches)))),
)
