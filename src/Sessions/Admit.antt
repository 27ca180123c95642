-- ===== src/Sessions/Admit.antt =====
-- Acquire, Renew, AssertActive and AssertActiveDispatchFence of runtime_session_admission.go. The
-- answers of the distributed lock manager, and the digest behind an admission's identifier, are
-- arguments.
use yuex.Prelude.{
  ℕ, ◌+◌, Bool, true, false, not, ◌&&◌, ◌||◌, none, some, List, [], ◌∷◌, Map, lookup, insert,
  values, select, any, ltb, ◌==◌, is_zero, if◌then◌else◌, ErrorCode, Result, Done, ok, err,
  invalid_argument, stale_fencing_token, runtime_session_busy,
}
use yuex.Sessions.Keys.{AdmissionKey, key_eq, key_is_valid, redis_key}
use yuex.Sessions.Types.{
  Admission, AdmissionState, AdmissionCommand, AdmissionLease, DistributedLease, Sessions,
  admission_active, admission_matches, is_dispatch_bound, lease_is_complete,
}

abbrev pub with_admission : ℕ → Admission → Sessions → Sessions
with_admission id a s = record s { items = insert id a s.items }

abbrev pub with_handle : ℕ → AdmissionLease → Sessions → Sessions
with_handle id h s = record s { handles = insert id h s.handles }

unfoldable pub command_is_complete : AdmissionCommand → Bool
command_is_complete c = not (
    is_zero c.binding_id
    || is_zero c.run_id
    || is_zero c.owner_instance_id
    || is_zero c.ttl
    || not (key_is_valid c.key))

-- Some admission of the session is active.
unfoldable pub session_is_busy : AdmissionKey → Map Admission → Bool
session_is_busy key items = any (λ a. key_eq a.key key && admission_active a.state) (values items)

unfoldable pub new_admission :
    (AdmissionKey → ℕ → ℕ → ℕ) → AdmissionCommand → DistributedLease → ℕ → Admission
new_admission name c lease now = record {
  admission_id = name c.key c.run_id lease.fencing_token;
  key = c.key;
  binding_id = c.binding_id;
  run_id = c.run_id;
  owner_instance_id = c.owner_instance_id;
  lease_token_hash = lease.token_hash;
  fencing_token = lease.fencing_token;
  state = AdmissionState.acquired;
  reservation_id = 0;
  dispatch_id = 0;
  expires_at = lease.expires_at;
  last_renewed_at = now;
  version = 1;
  created_at = now;
  updated_at = now;
}

-- Acquire, once the lock is held.
unfoldable pub admit :
    (AdmissionKey → ℕ → ℕ → ℕ)
    → AdmissionCommand
    → DistributedLease
    → ℕ
    → Sessions
    → Sessions × Result AdmissionLease
unfolding session_is_busy new_admission
admit name c lease now s =
    let a = new_admission name c lease now in
    let h : AdmissionLease = record { admission = a; lease = lease } in
    if session_is_busy c.key s.items
    then (s, err runtime_session_busy)
    else (with_handle a.admission_id h (with_admission a.admission_id a s), ok h)

-- What Acquire returns on an error of the lock manager.
abbrev pub lock_refusal : ErrorCode → ErrorCode
lock_refusal ErrorCode.service_busy = runtime_session_busy
lock_refusal e = e

-- Acquire
unfoldable pub acquire :
    (AdmissionKey → ℕ → ℕ → ℕ)
    → AdmissionCommand
    → Result DistributedLease
    → ℕ
    → Sessions
    → Sessions × Result AdmissionLease
unfolding command_is_complete admit
acquire name c lock now s =
    if not (command_is_complete c)
    then (s, err invalid_argument)
    else elim lock [ err e ↦ (s, err (lock_refusal e)) | ok lease ↦ admit name c lease now s ]

unfoldable pub renewed : DistributedLease → ℕ → Admission → Admission
renewed lease now a = record a {
  expires_at = lease.expires_at;
  last_renewed_at = now;
  updated_at = now;
  version = a.version + 1;
}

-- The stored admission is the handle's, and active.
unfoldable pub holds : AdmissionLease → Admission → Bool
holds h current = admission_matches current h.admission && admission_active current.state

-- Renew, once the lock is renewed.
unfoldable pub extend :
    AdmissionLease → DistributedLease → ℕ → Sessions → Sessions × Result AdmissionLease
unfolding renewed holds
extend h lease now s = elim (lookup h.admission.admission_id s.items) [
  | none ↦ (s, err stale_fencing_token)
  | some current ↦
      let a = renewed lease now current in
      let h' : AdmissionLease = record { admission = a; lease = lease } in
      if holds h current
      then (with_handle a.admission_id h' (with_admission a.admission_id a s), ok h')
      else (s, err stale_fencing_token)
]

-- Renew
unfoldable pub renew :
    AdmissionLease → ℕ → Result DistributedLease → ℕ → Sessions → Sessions × Result AdmissionLease
unfolding extend
renew h ttl lock now s =
    if is_zero ttl || not (lease_is_complete h)
    then (s, err invalid_argument)
    else elim lock [ err e ↦ (s, err e) | ok lease ↦ extend h lease now s ]

-- The part of AssertActive under the mutex.
unfoldable pub assert_stored : AdmissionLease → ℕ → Sessions → Done
unfolding holds
assert_stored h now s = elim (lookup h.admission.admission_id s.items) [
  | none ↦ err stale_fencing_token
  | some current ↦
      if holds h current && ltb now current.expires_at then ok tt else err stale_fencing_token
]

-- AssertActive
unfoldable pub assert_active : AdmissionLease → Done → ℕ → Sessions → Done
unfolding assert_stored
assert_active h lock now s =
    if not (lease_is_complete h)
    then err invalid_argument
    else elim lock [ err e ↦ err e | ok done ↦ assert_stored h now s ]

-- validRuntimeSessionAdmissionDispatchFence
unfoldable pub valid_dispatch_fence : ℕ → ℕ → ℕ → Admission → Bool
valid_dispatch_fence run reservation dispatch a =
    not (is_zero a.admission_id)
    && a.run_id == run
    && a.reservation_id == reservation
    && a.dispatch_id == dispatch
    && not (is_zero a.owner_instance_id)
    && not (is_zero a.lease_token_hash)
    && ltb 0 a.fencing_token
    && is_dispatch_bound a.state
    && not (is_zero a.expires_at)
    && key_is_valid a.key

-- runtimeSessionAdmissionDispatchFenceMatches
unfoldable pub dispatch_fence_matches : Admission → Admission → Bool
dispatch_fence_matches left right =
    left.admission_id == right.admission_id
    && key_eq left.key right.key
    && left.binding_id == right.binding_id
    && left.run_id == right.run_id
    && left.owner_instance_id == right.owner_instance_id
    && left.lease_token_hash == right.lease_token_hash
    && left.fencing_token == right.fencing_token
    && left.reservation_id == right.reservation_id
    && left.dispatch_id == right.dispatch_id
    && is_dispatch_bound left.state
    && is_dispatch_bound right.state

-- The only element of a list.
abbrev pub the_only : List Admission → Result Admission
the_only [] = err stale_fencing_token
the_only (a ∷ []) = ok a
the_only (a ∷ b ∷ more) = err stale_fencing_token

-- activeDispatchAdmission
unfoldable pub active_dispatch_admission : ℕ → ℕ → ℕ → ℕ → Sessions → Result Admission
unfolding valid_dispatch_fence
active_dispatch_admission run reservation dispatch now s = the_only (
    select (λ a. valid_dispatch_fence run reservation dispatch a && ltb now a.expires_at)
      (values s.items))

-- The second reading of AssertActiveDispatchFence against the first.
unfoldable pub still_bound : Admission → Result Admission → Done
unfolding dispatch_fence_matches
still_bound a (err e) = err e
still_bound a (ok current) =
    if dispatch_fence_matches a current then ok tt else err stale_fencing_token

abbrev pub is_empty : List ℕ → Bool
is_empty [] = true
is_empty (x ∷ xs) = false

-- AssertActiveDispatchFence. The mutex is free while the lock manager answers, so the second reading
-- may find other maps.
unfoldable pub assert_active_dispatch_fence :
    ℕ → ℕ → ℕ → (Admission → Done) → ℕ → Sessions → ℕ → Sessions → Done
unfolding active_dispatch_admission still_bound
assert_active_dispatch_fence run reservation dispatch lock now s later s' =
    if is_zero run || is_zero reservation || is_zero dispatch
    then err invalid_argument
    else elim (active_dispatch_admission run reservation dispatch now s) [
      | err e ↦ err e
      | ok a ↦ elim (if is_empty (redis_key a.key) then err stale_fencing_token else lock a) [
        | err e ↦ err e
        | ok done ↦ still_bound a (active_dispatch_admission run reservation dispatch later s')
      ]
    ]
