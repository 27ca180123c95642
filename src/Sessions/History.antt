-- ===== src/Sessions/History.antt =====
-- What the later calls of RuntimeSessionAdmissionService leave of an admission that has ended and of
-- a cleanup claim that was handed out.
pub mod Ended
pub mod Overtaken
pub mod Claims
use yuex.Prelude.{
  ℕ, ◌+◌, ◌≤◌, ◌≡◌, refl, sym, ap, ◌∙◌, Bool, true, false, none, some, inl, inr, lookup, insert,
  arith, Bool-cases, ◌==◌, lookup-insert,
}
use yuex.Sessions.Types.{Admission, CleanupRecord, Sessions, admission_active, admission_ended}
use yuex.Sessions.System.{SameAdmission, Write, Writes}
use yuex.Sessions.System.Matching.{active-unended}

-- The record under `id` stays, with a fence that does not fall.
abbrev pub Recorded : ℕ → ℕ → Sessions → Type 0
Recorded id fence s = (rec : CleanupRecord) × (lookup id s.cleanup ≡ some rec) × (fence ≤ rec.fence)

Write-Recorded :
    (id fence : ℕ) (s t : Sessions) → Recorded id fence s → Write s t → Recorded id fence t
Write-Recorded id fence s t (rec, e, le) (Write.handles h) = (rec, e, le)
Write-Recorded id fence s t (rec, e, le) (Write.admits a h fresh free live) = (rec, e, le)
Write-Recorded id fence s t (rec, e, le) (Write.changes a b h f was is same) = (rec, e, le)
Write-Recorded id fence s t (rec, e, le) (Write.ends i a b new f was over same free one) =
    (rec, ground (arith, lookup-insert i id new s.cleanup, e, free), le)
Write-Recorded id fence s t (rec, e, le) (Write.marks i old new f one fences) =
    elim (Bool-cases (i == id)) [
      | inl g ↦
          let here : old ≡ rec = ground (arith, e, f) in
          (
            new,
            ground (arith, lookup-insert i id new s.cleanup),
            omega (arith, le, fences, ap (λ (r : CleanupRecord). r.fence) here),
          )
      | inr g ↦ (rec, ground (arith, lookup-insert i id new s.cleanup, e), le)
    ]

pub Writes-Recorded :
    (id fence : ℕ) (s t : Sessions) → Recorded id fence s → Writes s t → Recorded id fence t
Writes-Recorded id fence s t r Writes.no_write = r
Writes-Recorded id fence s t r (Writes.then_write {t = u} more w) =
    Write-Recorded id fence u t (Writes-Recorded id fence s u r more) w

-- The admission under `id` has ended.
abbrev pub EndedAt : ℕ → Sessions → Type 0
EndedAt id s = (a : Admission) × (lookup id s.items ≡ some a) × (admission_ended a.state ≡ true)

Write-EndedAt : (id : ℕ) (s t : Sessions) → EndedAt id s → Write s t → EndedAt id t
Write-EndedAt id s t (x, e, over) (Write.handles h) = (x, e, over)
Write-EndedAt id s t (x, e, over) (Write.admits a h fresh free live) =
    (x, ground (arith, lookup-insert a.admission_id id a s.items, e, fresh), over)
Write-EndedAt id s t (x, e, over) (Write.changes a b h f was is same) =
    let unended = active-unended a.state was in
    (x, ground (arith, lookup-insert b.admission_id id b s.items, e, f, unended, over), over)
Write-EndedAt id s t (x, e, over) (Write.ends i a b new f was dead same free one) =
    let unended = active-unended a.state was in
    (x, ground (arith, lookup-insert i id b s.items, e, f, unended, over), over)
Write-EndedAt id s t (x, e, over) (Write.marks i old new f one fences) = (x, e, over)

pub Writes-EndedAt : (id : ℕ) (s t : Sessions) → EndedAt id s → Writes s t → EndedAt id t
Writes-EndedAt id s t r Writes.no_write = r
Writes-EndedAt id s t r (Writes.then_write {t = u} more w) =
    Write-EndedAt id u t (Writes-EndedAt id s u r more) w
