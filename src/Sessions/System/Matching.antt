-- ===== src/Sessions/System/Matching.antt =====
-- Admissions of runtime_session_admission.go against the cleanup records under their identifiers, and
-- one round of Recover and of the backfill where they match.
use yuex.Prelude.{
  ℕ, ◌≡◌, ◌≤◌, refl, ap, subst, ◌⊎◌, true, false, none, some, inl, inr, lookup, ok, arith, Option,
  Option-cases, Bool-cases, leb,
}
use yuex.Sessions.Keys.{key_eq}
use yuex.Sessions.Keys.RoundTrip.{key_eq_refl}
use yuex.Sessions.Types.{
  Admission, AdmissionState, CleanupRecord, CleanupOrigin, ReleaseReason, Sessions,
  admission_active, admission_ended, cleanup_identity_matches,
}
use yuex.Sessions.Admit.{with_admission}
use yuex.Sessions.Release.{
  recover_one, backfill_one, ensure_cleanup, with_record, new_record, ended_as,
}
use yuex.Sessions.System.{SameAdmission}

-- An admission and the record under its identifier: the record is there just when the admission has
-- ended, and it is about that admission.
abbrev pub Matched : Option Admission → Option CleanupRecord → Type 0
Matched none none = Unit
Matched none (some rec) = ⊥
Matched (some a) none = admission_active a.state ≡ true
Matched (some a) (some rec) = (admission_ended a.state ≡ true) × SameAdmission rec.admission a

active_or_ended :
    (state : AdmissionState)
    → ((admission_active state ≡ true) × (admission_ended state ≡ false))
      ⊎ ((admission_active state ≡ false) × (admission_ended state ≡ true))
active_or_ended AdmissionState.acquired = inl (refl, refl)
active_or_ended AdmissionState.reservation_bound = inl (refl, refl)
active_or_ended AdmissionState.dispatch_bound = inl (refl, refl)
active_or_ended AdmissionState.recovering = inl (refl, refl)
active_or_ended AdmissionState.released = inr (refl, refl)
active_or_ended AdmissionState.expired = inr (refl, refl)

pub active-unended :
    (state : AdmissionState) → admission_active state ≡ true → admission_ended state ≡ false
active-unended state h = elim (active_or_ended state) [
  | inl (a, e) ↦ e
  | inr (a, e) ↦ ground (arith, a, h)
]

pub matches-SameAdmission :
    (a b : Admission) → SameAdmission a b → cleanup_identity_matches a b ≡ true
unfolding cleanup_identity_matches
matches-SameAdmission a b same = ground (
  arith,
  same.same_id,
  key_eq_refl a.key,
  ap (key_eq a.key) same.same_key,
  same.same_binding,
  same.same_run,
  same.same_owner,
  same.same_hash,
  same.same_fencing,
)

pub Matched-none :
    (o : Option Admission) (p : Option CleanupRecord) (a : Admission)
    → o ≡ some a
    → p ≡ none
    → Matched o p
    → admission_active a.state ≡ true
Matched-none o p a e f m = subst (λ p. Matched (some a) p) f (subst (λ o. Matched o p) e m)

pub Matched-some :
    (o : Option Admission) (p : Option CleanupRecord) (a : Admission) (rec : CleanupRecord)
    → o ≡ some a
    → p ≡ some rec
    → Matched o p
    → (admission_ended a.state ≡ true) × SameAdmission rec.admission a
Matched-some o p a rec e f m = subst (λ p. Matched (some a) p) f (subst (λ o. Matched o p) e m)

-- The enqueue where no record is, and where the admission's own record is.
pub ensure_cleanup_new :
    (a : Admission) (origin : CleanupOrigin) (reason : ReleaseReason) (now : ℕ) (s : Sessions)
    → lookup a.admission_id s.cleanup ≡ none
    → ensure_cleanup a origin reason now s
      ≡ (with_record a.admission_id (new_record a origin reason now) s, ok tt)
unfolding ensure_cleanup
ensure_cleanup_new a origin reason now s e = ground (arith, e)

pub ensure_cleanup_again :
    (a : Admission) (rec : CleanupRecord) (origin : CleanupOrigin) (reason : ReleaseReason)
    (now : ℕ) (s : Sessions)
    → lookup a.admission_id s.cleanup ≡ some rec
    → SameAdmission rec.admission a
    → ensure_cleanup a origin reason now s ≡ (s, ok tt)
unfolding ensure_cleanup
ensure_cleanup_again a rec origin reason now s e same =
    ground (arith, e, matches-SameAdmission rec.admission a same)

-- One round of Recover where the records are matched: it ends an admission that is due, and the record
-- can be stored.
pub recover_one_lem :
    (now id : ℕ) (s : Sessions)
    → ((id : ℕ) (a : Admission) → lookup id s.items ≡ some a → a.admission_id ≡ id)
    → Matched (lookup id s.items) (lookup id s.cleanup)
    → (recover_one now id s ≡ none)
      ⊎ ((a : Admission) × (lookup id s.items ≡ some a)
          × (admission_active a.state ≡ true)
          × (a.expires_at ≤ now)
          × (lookup id s.cleanup ≡ none)
          × (recover_one now id s
              ≡ some (
                with_record id
                    (new_record
                      (ended_as AdmissionState.expired now a)
                      CleanupOrigin.lease_expiry
                      ReleaseReason.lease_expired
                      now)
                    (with_admission id (ended_as AdmissionState.expired now a) s),
                ok tt,
              )))
unfolding recover_one ended_as
recover_one_lem now id s names matched = elim (Option-cases (lookup id s.items)) [
  | inl e ↦ inl (ground (arith, e))
  | inr (a, e) ↦ elim (Option-cases (lookup id s.cleanup)) [
    | inr (rec, f) ↦
        let (over, one) = Matched-some _ _ a rec e f matched in
        inl (ground (arith, e, over, active-unended a.state))
    | inl f ↦ elim (Bool-cases (leb a.expires_at now)) [
      | inr g ↦ inl (ground (arith, e, g))
      | inl g ↦
          let live = Matched-none _ _ a e f matched in
          let b = ended_as AdmissionState.expired now a in
          inr (
            a,
            e,
            live,
            ground (arith, g),
            f,
            ground (
              arith,
              e,
              g,
              live,
              names id a e,
              f,
              ensure_cleanup_new b CleanupOrigin.lease_expiry ReleaseReason.lease_expired now
                  (with_admission id b s),
            ),
          )
    ]
  ]
]

-- One round of the backfill where the records are matched: nothing is missing.
pub backfill_one_lem :
    (now id : ℕ) (s : Sessions)
    → Matched (lookup id s.items) (lookup id s.cleanup)
    → backfill_one now id s ≡ none
unfolding backfill_one
backfill_one_lem now id s matched = elim (Option-cases (lookup id s.items)) [
  | inl e ↦ ground (arith, e)
  | inr (a, e) ↦ elim (Option-cases (lookup id s.cleanup)) [
    | inl f ↦
        let live = Matched-none _ _ a e f matched in
        ground (arith, e, f, live, active-unended a.state live)
    | inr (rec, f) ↦
        let (over, one) = Matched-some _ _ a rec e f matched in
        ground (arith, e, f, over, matches-SameAdmission rec.admission a one)
  ]
]
