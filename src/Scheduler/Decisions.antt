-- ===== src/Scheduler/Decisions.antt =====
-- The decisions of classifyRuntimeDispatchRecovery in runtime_scheduler.go.
use yuex.Prelude.{
  ℕ, String, ◌≡◌, ◌≢◌, ◌⊎◌, inl, inr, refl, true, false, arith, Bool-cases, is_zero, lower_eq,
  trim_space,
}
use yuex.Hosts.Types.{Reservation, Dispatch}
use yuex.Hosts.Recovery.{is_created}
use yuex.Scheduler.{
  StatusReply, classify_dispatch_recovery, post_accept, release_before_accept, retry_same_host,
  deferred, answered, refused,
}

-- Once the slot or the dispatch says that the run was accepted, the classification never releases the
-- run as unaccepted and never submits it again, whatever the runtime answers.
pub classify-after_accept :
    (d : Dispatch) (item : Reservation) (reply : StatusReply)
    → post_accept d item ≡ true
    → ((classify_dispatch_recovery d item reply).action ≢ release_before_accept)
      × ((classify_dispatch_recovery d item reply).action ≢ retry_same_host)
unfolding classify_dispatch_recovery
classify-after_accept d item reply past =
    (λ k. ground (arith, past, k), λ k. ground (arith, past, k))

-- Without an answer from the runtime that settles the matter the classification defers: an error that
-- does not say that the run is unknown, or an answer about another run, changes nothing.
pub classify-defers :
    (d : Dispatch) (item : Reservation) (e run : ℕ) (status : String)
    → run ≢ 0
    → run ≢ d.run_id
    → ((classify_dispatch_recovery d item (refused e false)).action ≡ deferred)
      × ((classify_dispatch_recovery d item (answered status run)).action ≡ deferred)
unfolding classify_dispatch_recovery
classify-defers d item e run status named other = (refl, ground arith)

-- The runtime does not know the run: an error that says so, or one of two words, about this run or
-- about none by name, spaces and letter case aside.
abbrev pub Unknown : Dispatch → StatusReply → Type 0
Unknown d (refused e found) = found ≡ true
Unknown d (answered status run) =
    ((run ≡ 0) ⊎ (run ≡ d.run_id))
    × ((lower_eq (trim_space status) "not_found" ≡ true)
        ⊎ (lower_eq (trim_space status) "missing" ≡ true))

-- A run is submitted again only where neither its slot nor its dispatch says that it was accepted, its
-- dispatch has left the state created, and the runtime has said that it does not know the run.
pub classify-retry :
    (d : Dispatch) (item : Reservation) (reply : StatusReply)
    → (classify_dispatch_recovery d item reply).action ≡ retry_same_host
    → (post_accept d item ≡ false) × (is_created d.state ≡ false) × Unknown d reply
unfolding classify_dispatch_recovery
classify-retry d item (refused e false) h = absurd (ground (arith, h))
classify-retry d item (refused e true) h = (ground (arith, h), ground (arith, h), refl)
classify-retry d item (answered status run) h = (
  ground (arith, h),
  ground (arith, h),
  (
    elim (Bool-cases (is_zero run)) [
      | inl z ↦ inl (ground arith)
      | inr z ↦ inr (ground (arith, h))
    ],
    elim (Bool-cases (lower_eq (trim_space status) "not_found")) [
      | inl z ↦ inl z
      | inr z ↦ inr (ground (arith, h, z))
    ],
  ),
)
