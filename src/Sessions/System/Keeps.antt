-- ===== src/Sessions/System/Keeps.antt =====
-- The invariant of the admissions and their cleanup records, and the writes that keep it.
use yuex.Prelude.{
  ℕ, ◌≡◌, refl, ◌⊎◌, sym, ap, ◌∙◌, ◌≢◌, subst, true, false, none, some, inl, inr, [], ◌∷◌, Map,
  lookup, insert, values, arith, Option, Bool-cases, ◌==◌, any, lookup-insert,
}
use yuex.Sessions.Keys.{AdmissionKey}
use yuex.Sessions.Keys.RoundTrip.{key_eq_refl}
use yuex.Sessions.Types.{Admission, CleanupRecord, Sessions, admission_active, admission_ended}
use yuex.Sessions.Admit.{session_is_busy}
use yuex.Sessions.System.{SameAdmission, Write, Writes}
use yuex.Sessions.System.Matching.{Matched, active-unended}

-- At most one active admission for each product session, and a record for each admission that has
-- ended and for no other.
pub record Sound (s : Sessions) : Type 0 where
  pub names : (id : ℕ) (a : Admission) → lookup id s.items ≡ some a → a.admission_id ≡ id
  pub exclusive :
      (i j : ℕ) (a b : Admission)
      → lookup i s.items ≡ some a
      → lookup j s.items ≡ some b
      → admission_active a.state ≡ true
      → admission_active b.state ≡ true
      → a.key ≡ b.key
      → i ≡ j
  pub matched : (id : ℕ) → Matched (lookup id s.items) (lookup id s.cleanup)

-- No admission of a free session is active.
free-unused :
    (key : AdmissionKey) (items : Map Admission) (id : ℕ) (a : Admission)
    → session_is_busy key items ≡ false
    → lookup id items ≡ some a
    → a.key ≡ key
    → admission_active a.state ≡ false
unfolding session_is_busy any values lookup
free-unused key [] id a free e same = absurd (ground (arith, e))
free-unused key ((at, x) ∷ more) id a free e same =
    ground (arith, free-unused key more id a, key_eq_refl key, same, e)

pub SameAdmission-refl : (a b : Admission) → a ≡ b → SameAdmission a b
SameAdmission-refl a b e =
    subst (λ c. SameAdmission a c) e
      (record {
        same_id = refl;
        same_key = refl;
        same_binding = refl;
        same_run = refl;
        same_owner = refl;
        same_hash = refl;
        same_fencing = refl;
      })

pub Matched-absent :
    (o : Option Admission) (p : Option CleanupRecord) → o ≡ none → Matched o p → p ≡ none
Matched-absent o none e m = refl
Matched-absent o (some rec) e m = absurd (subst (λ o. Matched o (some rec)) e m)

Matched-marked :
    (o : Option Admission) (p : Option CleanupRecord) (rec rec' : CleanupRecord)
    → p ≡ some rec
    → rec'.admission ≡ rec.admission
    → Matched o p
    → Matched o (some rec')
Matched-marked none p rec rec' e same m = subst (Matched none) e m
Matched-marked (some a) p rec rec' e same m =
    let (over, one) = subst (Matched (some a)) e m in
    (over, subst (λ b. SameAdmission b a) (sym same) one)

Matched-changed :
    (o : Option Admission) (p : Option CleanupRecord) (a b : Admission)
    → o ≡ some a
    → admission_active a.state ≡ true
    → admission_active b.state ≡ true
    → Matched o p
    → Matched (some b) p
Matched-changed o none a b e was is m = is
Matched-changed o (some rec) a b e was is m =
    let (over, one) = subst (λ o. Matched o (some rec)) e m in
    absurd (ground (arith, active-unended a.state was, over))

module _ (s : Sessions) (h : Sound s) where
  -- The stored admission `a` gives way to `b` of the same session, which is active only if `a` is.
  module _ (id : ℕ) (a b : Admission) (e : lookup id s.items ≡ some a) (same : SameAdmission b a)
      (live : admission_active b.state ≡ true → admission_active a.state ≡ true) where
    put_names :
        (i : ℕ) (x : Admission) → lookup i (insert id b s.items) ≡ some x → x.admission_id ≡ i
    put_names i x p =
        ground (arith, lookup-insert id i b s.items, h.names i x, h.names id a e, same.same_id)

    -- Each active admission after the write stood for its session before.
    stood :
        (i : ℕ) (x : Admission)
        → lookup i (insert id b s.items) ≡ some x
        → admission_active x.state ≡ true
        → (y : Admission) × (lookup i s.items ≡ some y)
          × (admission_active y.state ≡ true)
          × (y.key ≡ x.key)
    stood i x p l = elim (Bool-cases (id == i)) [
      | inr g ↦ (x, ground (arith, lookup-insert id i b s.items), l, refl)
      | inl g ↦
          let here : b ≡ x = ground (arith, lookup-insert id i b s.items) in
          (
            a,
            ground (arith, e),
            live (ground (arith, here)),
            sym same.same_key ∙ ap (λ (z : Admission). z.key) here,
          )
    ]

    put_exclusive :
        (i j : ℕ) (x y : Admission)
        → lookup i (insert id b s.items) ≡ some x
        → lookup j (insert id b s.items) ≡ some y
        → admission_active x.state ≡ true
        → admission_active y.state ≡ true
        → x.key ≡ y.key
        → i ≡ j
    put_exclusive i j x y p q lx ly k =
        let (x', p', lx', kx) = stood i x p lx in
        let (y', q', ly', ky) = stood j y q ly in
        h.exclusive i j x' y' p' q' lx' ly' (kx ∙ k ∙ sym ky)

  change-Matched :
      (a b : Admission)
      → lookup b.admission_id s.items ≡ some a
      → admission_active a.state ≡ true
      → admission_active b.state ≡ true
      → (i : ℕ) → Matched (lookup i (insert b.admission_id b s.items)) (lookup i s.cleanup)
  change-Matched a b e was is i = elim (Bool-cases (b.admission_id == i)) [
    | inl g ↦
        rw (lookup-insert b.admission_id i b s.items)
          (rw g (Matched-changed _ _ a b (ground (arith, e)) was is (h.matched i)))
    | inr g ↦ rw (lookup-insert b.admission_id i b s.items) (rw g (h.matched i))
  ]

  put-Matched :
      (id : ℕ) (b : Admission) (rec : CleanupRecord)
      → admission_ended b.state ≡ true
      → SameAdmission rec.admission b
      → (i : ℕ) → Matched (lookup i (insert id b s.items)) (lookup i (insert id rec s.cleanup))
  put-Matched id b rec over one i = elim (Bool-cases (id == i)) [
    | inl g ↦
        rw (lookup-insert id i b s.items) (rw (lookup-insert id i rec s.cleanup) (rw g (over, one)))
    | inr g ↦
        rw (lookup-insert id i b s.items)
          (rw (lookup-insert id i rec s.cleanup) (rw g (h.matched i)))
  ]

  -- The new admission of a free session.
  module _ (a : Admission) (fresh : lookup a.admission_id s.items ≡ none)
      (free : session_is_busy a.key s.items ≡ false) (live : admission_active a.state ≡ true) where
    unused :
        (i : ℕ) (x : Admission)
        → lookup i s.items ≡ some x
        → admission_active x.state ≡ true
        → x.key ≢ a.key
    unused i x p l k = ground (arith, free-unused a.key s.items i x free p k)

    newcomer :
        (i : ℕ) (x : Admission)
        → lookup i (insert a.admission_id a s.items) ≡ some x
        → ((x ≡ a) × (a.admission_id ≡ i)) ⊎ (lookup i s.items ≡ some x)
    newcomer i x p = elim (Bool-cases (a.admission_id == i)) [
      | inl g ↦ inl (ground (arith, lookup-insert a.admission_id i a s.items), ground arith)
      | inr g ↦ inr (ground (arith, lookup-insert a.admission_id i a s.items))
    ]

    admit_exclusive :
        (i j : ℕ) (x y : Admission)
        → lookup i (insert a.admission_id a s.items) ≡ some x
        → lookup j (insert a.admission_id a s.items) ≡ some y
        → admission_active x.state ≡ true
        → admission_active y.state ≡ true
        → x.key ≡ y.key
        → i ≡ j
    admit_exclusive i j x y p q lx ly k = elim (newcomer i x p) [
      | inl (ex, ei) ↦ elim (newcomer j y q) [
        | inl (ey, ej) ↦ sym ei ∙ ej
        | inr old ↦ absurd (unused j y old ly (sym k ∙ ap (λ (z : Admission). z.key) ex))
      ]
      | inr old ↦ elim (newcomer j y q) [
        | inl (ey, ej) ↦ absurd (unused i x old lx (k ∙ ap (λ (z : Admission). z.key) ey))
        | inr old' ↦ h.exclusive i j x y old old' lx ly k
      ]
    ]

    admit-Matched :
        (i : ℕ) → Matched (lookup i (insert a.admission_id a s.items)) (lookup i s.cleanup)
    admit-Matched i = elim (Bool-cases (a.admission_id == i)) [
      | inl g ↦
          let none_at : lookup i s.items ≡ none = ground (arith, fresh) in
          rw (lookup-insert a.admission_id i a s.items)
            (rw g (rw (Matched-absent _ _ none_at (h.matched i)) live))
      | inr g ↦ rw (lookup-insert a.admission_id i a s.items) (rw g (h.matched i))
    ]

  mark-Matched :
      (id : ℕ) (rec rec' : CleanupRecord)
      → lookup id s.cleanup ≡ some rec
      → rec'.admission ≡ rec.admission
      → (i : ℕ) → Matched (lookup i s.items) (lookup i (insert id rec' s.cleanup))
  mark-Matched id rec rec' e same i = elim (Bool-cases (id == i)) [
    | inl g ↦
        rw (lookup-insert id i rec' s.cleanup)
          (rw g (Matched-marked _ _ rec rec' (ground (arith, e)) same (h.matched i)))
    | inr g ↦ rw (lookup-insert id i rec' s.cleanup) (rw g (h.matched i))
  ]

-- Each write keeps the invariant.
pub Write-Sound : (s t : Sessions) → Sound s → Write s t → Sound t
Write-Sound s t h (Write.handles l) = record {
  names = h.names;
  exclusive = h.exclusive;
  matched = h.matched;
}
Write-Sound s t h (Write.admits a l fresh free live) = record {
  names = λ i x p. ground (arith, lookup-insert a.admission_id i a s.items, h.names i x);
  exclusive = admit_exclusive s h a fresh free live;
  matched = admit-Matched s h a fresh free live;
}
Write-Sound s t h (Write.changes a b l e was is same) = record {
  names = put_names s h b.admission_id a b e same (λ p. was);
  exclusive = put_exclusive s h b.admission_id a b e same (λ p. was);
  matched = change-Matched s h a b e was is;
}
Write-Sound s t h (Write.ends id a b rec e was over same none_yet one) =
    let dead = λ (p : admission_active b.state ≡ true). was in
    record {
      names = put_names s h id a b e same dead;
      exclusive = put_exclusive s h id a b e same dead;
      matched = put-Matched s h id b rec over (SameAdmission-refl rec.admission b one);
    }
Write-Sound s t h (Write.marks id rec rec' e same fence) = record {
  names = h.names;
  exclusive = h.exclusive;
  matched = mark-Matched s h id rec rec' e same;
}

pub Writes-Sound : (s t : Sessions) → Sound s → Writes s t → Sound t
Writes-Sound s t h Writes.no_write = h
Writes-Sound s t h (Writes.then_write {t = u} more w) = Write-Sound u t (Writes-Sound s u h more) w
