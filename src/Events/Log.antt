-- ===== src/Events/Log.antt =====
-- AppendRunEventAndAdvanceCursor of runtime_host_concurrency.go against a log that only grows.
use yuex.Prelude.{
  Result-cases, ℕ, ◌+◌, ◌≡◌, inl, inr, refl, Bool, not, ◌||◌, Option, none, some, List, [], ◌∷◌,
  ◌++◌, Map, lookup, length, select, ◌==◌, if◌then◌else◌, arith, Result, Done, ok, err,
  Option-cases, Bool-cases, runtime_event_gap, not_found, ErrorCode,
}
use yuex.Hosts.Types.{Dispatch}
use yuex.Events.Tools.{ToolAudit, ToolInvocation, project_invocation}
use yuex.Events.{
  RunEvent, EventLog, events_of, cursor_of, find_event, store_event, append_run_event, append_for,
  append_new, project, repeated, starts_late, is_gap,
}

-- The stored events of a dispatch, in the order of their appends.
unfoldable pub stored_for : ℕ → ℕ → EventLog → List RunEvent
stored_for run dispatch log = select (λ e. e.dispatch_id == dispatch) (events_of run log)

-- The source sequences count up from `from`.
abbrev pub Numbered : ℕ → List RunEvent → Type 0
Numbered from [] = Unit
Numbered from (e ∷ more) = (e.source_sequence ≡ from) × Numbered (from + 1) more

pub Numbered-append :
    (from : ℕ) (es : List RunEvent) (e : RunEvent)
    → Numbered from es
    → e.source_sequence ≡ from + length es
    → Numbered from (es ++ (e ∷ []))
Numbered-append from [] e h same = (omega (arith, same), tt)
Numbered-append from (x ∷ es) e (h, hs) same =
    (h, Numbered-append (from + 1) es e hs (omega (arith, same)))

pub select-append :
    (p : RunEvent → Bool) (es : List RunEvent) (e : RunEvent)
    → select p (es ++ (e ∷ [])) ≡ (if p e then select p es ++ (e ∷ []) else select p es)
unfolding select
select-append p [] e = refl
select-append p (x ∷ es) e = ground (arith, select-append p es e)

pub length-append : (es : List RunEvent) (e : RunEvent) → length (es ++ (e ∷ [])) ≡ length es + 1
length-append [] e = omega arith
length-append (x ∷ es) e = omega (arith, length-append es e)

-- The event as it is stored.
abbrev pub numbered : EventLog → RunEvent → RunEvent
numbered log e = record e { sequence = length (events_of e.run_id log) + 1 }

project-ok :
    (name : ℕ → ℕ → ℕ) (run : ℕ) (audit : Option ToolAudit) (log t : EventLog)
    → project name run audit log ≡ ok t
    → (invocations : Map ToolInvocation) × (t ≡ record log { invocations = invocations })
unfolding project
project-ok name run none log t e = (log.invocations, ground (arith, e))
project-ok name run (some audit) log t e =
    elim (Result-cases (project_invocation name run audit log.run_records log.invocations)) [
      | inl (invocations, f) ↦ (invocations, ground (arith, e, f))
      | inr (x, f) ↦ absurd (ground (arith, e, f))
    ]

-- The case of a new source sequence.
append_new_cases {ℓ} :
    (P : EventLog × Done → Type ℓ) (name : ℕ → ℕ → ℕ) (e : RunEvent) (audit : Option ToolAudit)
    (previous : ℕ) (d : Dispatch) (log : EventLog)
    → e.source_sequence ≡ previous + 1
    → ((x : ErrorCode) → P (log, err x))
    → ((invocations : Map ToolInvocation)
        → cursor_of e.dispatch_id log + 1 ≡ e.source_sequence
        → P (store_event e (record log { invocations = invocations }), ok tt))
    → P (append_new name e audit previous d log)
unfolding append_new
append_new_cases P name e audit previous d log next refused appends =
    elim (Bool-cases (starts_late audit d log || not (cursor_of e.dispatch_id log == previous))) [
      | inl g ↦ rw (g, append_new) (refused runtime_event_gap)
      | inr g ↦ elim (Result-cases (project name e.run_id audit log)) [
        | inr (x, f) ↦ rw (g, append_new) (rw f (refused x))
        | inl (t, f) ↦
            let (invocations, is) = project-ok name e.run_id audit log t f in
            rw (g, append_new) (rw f (rw is (appends invocations (ground (arith, g, next)))))
      ]
    ]

append_for_cases {ℓ} :
    (P : EventLog × Done → Type ℓ) (name : ℕ → ℕ → ℕ) (e : RunEvent) (audit : Option ToolAudit)
    (previous : ℕ) (d : Dispatch) (log : EventLog)
    → e.source_sequence ≡ previous + 1
    → ((x : ErrorCode) → P (log, err x))
    → ((old : RunEvent)
        → find_event e.dispatch_id e.source_sequence (events_of e.run_id log) ≡ some old
        → P (log, repeated e old))
    → ((invocations : Map ToolInvocation)
        → e.run_id ≡ d.run_id
        → cursor_of e.dispatch_id log + 1 ≡ e.source_sequence
        → find_event e.dispatch_id e.source_sequence (events_of e.run_id log) ≡ none
        → P (store_event e (record log { invocations = invocations }), ok tt))
    → P (append_for name e audit previous d log)
unfolding append_for
append_for_cases P name e audit previous d log next refused repeats appends =
    elim (Bool-cases (not (e.run_id == d.run_id) || not (e.runtime_host_id == d.runtime_host_id))) [
      | inl g ↦ rw (g, append_for) (refused runtime_event_gap)
      | inr g ↦
          elim (Option-cases
            (find_event e.dispatch_id e.source_sequence (events_of e.run_id log))) [
              | inr (old, f) ↦ rw (g, append_for) (rw f (repeats old f))
              | inl f ↦
                  rw (g, append_for)
                    (rw f (
                      append_new_cases P name e audit previous d log next refused
                        (λ invocations next. appends invocations (ground (arith, g)) next f)))
            ]
    ]

-- A refusal leaves the log; a repeated event too; a new event goes behind the others.
pub append_cases {ℓ} :
    (P : EventLog × Done → Type ℓ) (name : ℕ → ℕ → ℕ) (e : RunEvent)
    (audit : Result (Option ToolAudit)) (previous : ℕ) (dispatches : Map Dispatch) (log : EventLog)
    → ((x : ErrorCode) → P (log, err x))
    → ((d : Dispatch) (old : RunEvent)
        → lookup e.dispatch_id dispatches ≡ some d
        → find_event e.dispatch_id e.source_sequence (events_of e.run_id log) ≡ some old
        → P (log, repeated e old))
    → ((d : Dispatch) (invocations : Map ToolInvocation)
        → lookup e.dispatch_id dispatches ≡ some d
        → e.run_id ≡ d.run_id
        → cursor_of e.dispatch_id log + 1 ≡ e.source_sequence
        → find_event e.dispatch_id e.source_sequence (events_of e.run_id log) ≡ none
        → P (store_event e (record log { invocations = invocations }), ok tt))
    → P (append_run_event name e audit previous dispatches log)
unfolding append_run_event append_for append_new
append_cases P name e audit previous dispatches log refused repeats appends =
    elim (Bool-cases (is_gap e previous)) [
      | inl g ↦ rw (g, append_run_event) (refused runtime_event_gap)
      | inr g ↦ elim (Result-cases audit) [
        | inr (x, f) ↦ rw (g, append_run_event) (rw f (refused x))
        | inl (found, f) ↦ elim (Option-cases (lookup e.dispatch_id dispatches)) [
          | inl k ↦ rw (g, append_run_event) (rw f (rw k (refused not_found)))
          | inr (d, k) ↦
              rw (g, append_run_event)
                (rw f (
                  rw k (
                    append_for_cases P name e found previous d log (ground (arith, g)) refused
                      (λ old. repeats d old k) (λ invocations. appends d invocations k))))
        ]
      ]
    ]

-- A new event is found behind the others.
pub find-append :
    (es : List RunEvent) (e stored : RunEvent)
    → find_event e.dispatch_id e.source_sequence es ≡ none
    → stored.dispatch_id ≡ e.dispatch_id
    → stored.source_sequence ≡ e.source_sequence
    → find_event e.dispatch_id e.source_sequence (es ++ (stored ∷ [])) ≡ some stored
unfolding find_event
find-append [] e stored h d s = ground (arith, d, s)
find-append (x ∷ es) e stored h d s = ground (arith, h, find-append es e stored, d, s)
