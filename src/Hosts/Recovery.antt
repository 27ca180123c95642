-- ===== src/Hosts/Recovery.antt =====
-- The recovery of a dispatch: the list of candidates, the claim with its compare-and-set, its
-- assertion, its advance and its acceptance, and FinalizeDispatchAndReleaseSlot.
use yuex.Prelude.{
  ℕ, ◌+◌, Bool, true, false, not, ◌&&◌, ◌||◌, Option, none, some, List, ltb, leb, ◌==◌, is_zero,
  if◌then◌else◌, lookup, insert, values, select, sort, take, invalid_argument, stale_fencing_token,
  Done, ok, err,
}
use yuex.Hosts.Types.{
  Reservation, Dispatch, Repository, DispatchState, ReservationState, RecoveryClaim,
  TerminalCommand, RecoveryAcceptedCommand, active_dispatch_state, active_reservation_state,
  terminal_dispatch_state, is_reserved, initial_dispatch_recovery_delay,
}
use yuex.Hosts.Store.{fence_is_complete, reservation_fence_matches, dispatch_binding_matches}
use yuex.Hosts.Lease.{end_slot}
use yuex.Hosts.Accept.{accept_slot}
use yuex.Hosts.Dispatches.{state_eq, aborted_status}

abbrev pub is_created : DispatchState → Bool
is_created DispatchState.created = true
is_created _ = false

abbrev pub is_recovering : DispatchState → Bool
is_recovering DispatchState.recovering = true
is_recovering _ = false

-- The four reasons for which a dispatch is due.
unfoldable pub recovery_is_due : ℕ → Dispatch → Bool
recovery_is_due now d =
    (not (is_zero d.next_recovery_check_at) && leb d.next_recovery_check_at now)
    || (not (is_zero d.lease_expires_at) && leb d.lease_expires_at now)
    || (is_created d.state && is_zero d.next_recovery_check_at && leb d.updated_at now)
    || (not (is_created d.state)
        && is_zero d.next_recovery_check_at
        && leb (d.updated_at + initial_dispatch_recovery_delay) now)

older : Dispatch → Dispatch → Bool
older a b = ltb a.updated_at b.updated_at

-- A limit that is 0 or negative counts as 100; 0 stands for both.
unfoldable pub batch_limit : ℕ → ℕ
batch_limit limit =
    let positive = if is_zero limit then 100 else limit in
    if ltb 500 positive then 500 else positive

unfoldable pub due_dispatches : ℕ → Repository → List Dispatch
unfolding older
due_dispatches now r =
    sort older
      (select (λ d. active_dispatch_state d.state && recovery_is_due now d) (values r.dispatches))

-- ListDispatchRecoveryCandidates
unfoldable pub list_dispatch_recovery_candidates : ℕ → ℕ → Repository → List Dispatch
list_dispatch_recovery_candidates now limit r = take (batch_limit limit) (due_dispatches now r)

-- A claim of another owner that has not run out.
unfoldable pub claimed_by_other : ℕ → ℕ → Dispatch → Bool
claimed_by_other owner now d =
    not (is_zero d.recovery_expires_at)
    && ltb now d.recovery_expires_at
    && not (d.recovery_owner_instance_id == owner)

unfoldable pub claimed : RecoveryClaim → ℕ → Dispatch → Dispatch
claimed c now d = record d {
  state = DispatchState.recovering;
  recovery_owner_instance_id = c.owner_instance_id;
  recovery_fencing_token = c.fencing_token;
  recovery_expires_at = c.expires_at;
  recovery_attempt = d.recovery_attempt + 1;
  version = d.version + 1;
  updated_at = now;
}

claim_found : RecoveryClaim → ℕ → Option Dispatch → Repository → Repository × Done
claim_found c now none r = (r, err stale_fencing_token)
claim_found c now (some d) r =
    if not (state_eq d.state c.expected_state)
      || not (d.version == c.expected_version)
      || not (active_dispatch_state d.state)
      || claimed_by_other c.owner_instance_id now d
    then (r, err stale_fencing_token)
    else (record r { dispatches = insert d.dispatch_id (claimed c now d) r.dispatches }, ok tt)

-- ClaimDispatchRecovery; the expected state is always given, so only its version is tested.
unfoldable pub claim_dispatch_recovery : RecoveryClaim → ℕ → Repository → Repository × Done
unfolding claim_found
claim_dispatch_recovery c now r =
    if is_zero c.dispatch_id
      || is_zero c.owner_instance_id
      || ltb c.fencing_token 1
      || is_zero c.expires_at
      || ltb c.expected_version 1
    then (r, err invalid_argument)
    else claim_found c now (lookup c.dispatch_id r.dispatches) r

-- dispatchRecoveryClaimActive
unfoldable pub recovery_claim_active : Dispatch → RecoveryClaim → ℕ → Bool
recovery_claim_active d c now =
    c.dispatch_id == d.dispatch_id
    && not (is_zero c.owner_instance_id)
    && ltb 0 c.fencing_token
    && is_recovering d.state
    && d.recovery_owner_instance_id == c.owner_instance_id
    && d.recovery_fencing_token == c.fencing_token
    && ltb now d.recovery_expires_at

-- AssertDispatchRecoveryClaim
unfoldable pub assert_dispatch_recovery_claim : RecoveryClaim → ℕ → Repository → Done
assert_dispatch_recovery_claim c now r =
    if is_zero c.dispatch_id
      || is_zero c.owner_instance_id
      || ltb c.fencing_token 1
      || is_zero c.expires_at
    then err invalid_argument
    else elim (lookup c.dispatch_id r.dispatches) [
      | none ↦ err stale_fencing_token
      | some d ↦ if recovery_claim_active d c now then ok tt else err stale_fencing_token
    ]

-- The states to which AdvanceDispatchRecovery leads.
abbrev pub advances_to : DispatchState → Bool
advances_to DispatchState.orphaned = true
advances_to DispatchState.retry_new_attempt = true
advances_to state = active_dispatch_state state

-- The test of a live claim in AdvanceDispatchRecovery, which does not look at the state.
unfoldable pub holds_claim : Dispatch → RecoveryClaim → ℕ → Bool
holds_claim d c now =
    d.recovery_owner_instance_id == c.owner_instance_id
    && d.recovery_fencing_token == c.fencing_token
    && ltb now d.recovery_expires_at

unfoldable pub advanced : DispatchState → ℕ → ℕ → Dispatch → Dispatch
advanced to next_check now d = record d {
  state = to;
  next_recovery_check_at = next_check;
  recovery_expires_at = 0;
  version = d.version + 1;
  updated_at = now;
}

advance_found :
    RecoveryClaim → DispatchState → ℕ → ℕ → Option Dispatch → Repository → Repository × Done
advance_found c to next_check now none r = (r, err stale_fencing_token)
advance_found c to next_check now (some d) r =
    if holds_claim d c now
    then (
      record r { dispatches = insert d.dispatch_id (advanced to next_check now d) r.dispatches },
      ok tt,
    )
    else (r, err stale_fencing_token)

-- AdvanceDispatchRecovery
unfoldable pub advance_dispatch_recovery :
    RecoveryClaim → DispatchState → ℕ → ℕ → Repository → Repository × Done
unfolding advance_found
advance_dispatch_recovery c to next_check now r =
    if advances_to to
    then advance_found c to next_check now (lookup c.dispatch_id r.dispatches) r
    else (r, err invalid_argument)

unfoldable pub resumed : RecoveryAcceptedCommand → ℕ → Dispatch → Dispatch
resumed c now d = record d {
  state = DispatchState.accepted;
  runtime_request_id =
      if is_zero d.runtime_request_id then c.runtime_request_id else d.runtime_request_id;
  next_recovery_check_at = c.next_check_at;
  recovery_expires_at = 0;
  version = d.version + 1;
  updated_at = now;
}

-- The slot of a dispatch that turns out to be accepted.
unfoldable pub accept_if_reserved : ℕ → ℕ → Reservation → Repository → Repository
accept_if_reserved dispatch now item r =
    if is_reserved item.state then accept_slot dispatch now item r else r

recover_pair :
    RecoveryAcceptedCommand
    → ℕ
    → Option Dispatch
    → Option Reservation
    → Repository
    → Repository × Done
recover_pair c now none item r = (r, err stale_fencing_token)
recover_pair c now (some d) none r = (r, err stale_fencing_token)
recover_pair c now (some d) (some item) r =
    if not (
      is_recovering d.state
      && holds_claim d c.claim now
      && dispatch_binding_matches d c.fence
      && reservation_fence_matches item c.fence
      && active_reservation_state item.state)
    then (r, err stale_fencing_token)
    else let s = accept_if_reserved d.dispatch_id now item r in
      (record s { dispatches = insert d.dispatch_id (resumed c now d) s.dispatches }, ok tt)

-- RecoverDispatchAccepted
unfoldable pub recover_dispatch_accepted :
    RecoveryAcceptedCommand → ℕ → Repository → Repository × Done
unfolding recover_pair
recover_dispatch_accepted c now r =
    if is_zero c.claim.dispatch_id
      || not (fence_is_complete c.fence)
      || is_zero c.claim.owner_instance_id
      || ltb c.claim.fencing_token 1
    then (r, err invalid_argument)
    else recover_pair c now (lookup c.claim.dispatch_id r.dispatches)
        (lookup c.fence.reservation_id r.reservations) r

-- The arguments of a claim, where the command carries one.
claim_is_complete : ℕ → Option RecoveryClaim → Bool
claim_is_complete id none = true
claim_is_complete id (some c) =
    c.dispatch_id == id
    && not (is_zero c.owner_instance_id || ltb c.fencing_token 1 || is_zero c.expires_at)

unfoldable pub claim_holds : Dispatch → Option RecoveryClaim → ℕ → Bool
claim_holds d none now = true
claim_holds d (some c) now = recovery_claim_active d c now

unfoldable pub closed : DispatchState → ℕ → Dispatch → Dispatch
closed final now d = record d {
  state = final;
  abort_status = aborted_status final d.abort_status;
  recovery_expires_at = 0;
  version = d.version + 1;
  updated_at = now;
}

-- The dispatch of a finished run; a terminal dispatch stays as it is.
unfoldable pub close_dispatch : DispatchState → ℕ → Dispatch → Repository → Repository
close_dispatch final now d r =
    if terminal_dispatch_state d.state
    then r
    else record r { dispatches = insert d.dispatch_id (closed final now d) r.dispatches }

-- A slot that has ended stays as it is.
unfoldable pub end_if_active : ℕ → Reservation → Repository → Repository
end_if_active now item r =
    if active_reservation_state item.state then end_slot ReservationState.released now item r else r

finalize_pair :
    TerminalCommand → ℕ → Option Dispatch → Option Reservation → Repository → Repository × Done
unfolding claim_holds
finalize_pair c now none item r = (r, err stale_fencing_token)
finalize_pair c now (some d) none r = (r, err stale_fencing_token)
finalize_pair c now (some d) (some item) r =
    if dispatch_binding_matches d c.fence
      && claim_holds d c.recovery_claim now
      && reservation_fence_matches item c.fence
    then (close_dispatch c.terminal_status now d (end_if_active now item r), ok tt)
    else (r, err stale_fencing_token)

-- FinalizeDispatchAndReleaseSlot
unfoldable pub finalize_dispatch_and_release_slot :
    TerminalCommand → ℕ → Repository → Repository × Done
unfolding claim_is_complete finalize_pair
finalize_dispatch_and_release_slot c now r =
    if is_zero c.dispatch_id
      || not (terminal_dispatch_state c.terminal_status)
      || not (claim_is_complete c.dispatch_id c.recovery_claim)
    then (r, err invalid_argument)
    else finalize_pair c now (lookup c.dispatch_id r.dispatches)
        (lookup c.fence.reservation_id r.reservations) r
