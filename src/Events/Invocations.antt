-- ===== src/Events/Invocations.antt =====
-- What tool events of runtime_tool_audit.go leave of a tool invocation that has ended.
use yuex.Prelude.{
  ℕ, ◌≡◌, false, some, inl, inr, Map, lookup, lookup-insert, lookup-map_values, arith, ok,
  Option-cases,
}
use yuex.Events.Tools.{
  ToolAudit, ToolInvocation, RunRecord, is_started, project_invocation, project_stored,
  abort_outstanding, aborted_invocation, new_invocation, finished_invocation,
}

project_stored-keeps :
    (id at workspace : ℕ) (stored other : ToolInvocation) (e : ToolAudit) (m t : Map ToolInvocation)
    → lookup id m ≡ some stored
    → lookup at m ≡ some other
    → is_started stored.status ≡ false
    → project_stored at other workspace e m ≡ ok t
    → lookup id t ≡ some stored
unfolding project_stored
project_stored-keeps id at workspace stored other e m t found found' ended done =
    ground (arith, lookup-insert at id (finished_invocation e other) m, found, found', ended, done)

project_invocation-keeps :
    (name : ℕ → ℕ → ℕ) (run id : ℕ) (stored : ToolInvocation) (e : ToolAudit)
    (records : Map RunRecord) (m t : Map ToolInvocation)
    → lookup id m ≡ some stored
    → is_started stored.status ≡ false
    → project_invocation name run e records m ≡ ok t
    → lookup id t ≡ some stored
unfolding project_invocation
project_invocation-keeps name run id stored e records m t found ended done =
    elim (Option-cases (lookup run records)) [
      | inl f ↦ absurd (ground (arith, f, done))
      | inr (kept, f) ↦
          let at = name run e.tool_call_hash in
          elim (Option-cases (lookup at m)) [
            | inl g ↦ ground (
              arith,
              lookup-insert at id (new_invocation at run kept.workspace_version e) m,
              found,
              f,
              g,
              done,
            )
            | inr (other, g) ↦
                project_stored-keeps id at kept.workspace_version stored other e m t found g ended
                  (ground (arith, f, g, done))
          ]
    ]

-- A tool invocation that has ended keeps its outcome and all else: neither an event that is projected
-- with success, of the same call or of another one, nor the abort of a run's open invocations changes
-- it.
pub ended-invocation_stays :
    (name : ℕ → ℕ → ℕ) (run id code : ℕ) (stored : ToolInvocation) (e : ToolAudit)
    (records : Map RunRecord) (m t : Map ToolInvocation)
    → lookup id m ≡ some stored
    → is_started stored.status ≡ false
    → project_invocation name run e records m ≡ ok t
    → (lookup id t ≡ some stored) × (lookup id (abort_outstanding run code t) ≡ some stored)
unfolding abort_outstanding aborted_invocation
ended-invocation_stays name run id code stored e records m t found ended done =
    let kept = project_invocation-keeps name run id stored e records m t found ended done in
    (kept, ground (arith, lookup-map_values (aborted_invocation run code) id t, kept, ended))
