-- ===== src/Events/History.antt =====
-- The histories of the event log of runtime_host_concurrency.go, against an abstract log for each
-- dispatch.
use yuex.Prelude.{
  ℕ, ◌+◌, ◌≡◌, ◌≢◌, refl, ◌∙◌, Option, none, some, List, [], ◌∷◌, ◌++◌, select, subst, sym,
  lookup-insert_self, Map, lookup, length, arith, Result, Done, ok,
}
use yuex.Hosts.Types.{Dispatch}
use yuex.Events.Tools.{ToolAudit, ToolInvocation, RunRecord}
use yuex.Events.{
  RunEvent, EventLog, cursor_of, events_of, store_event, append_run_event, empty_log, find_event,
  get_dispatch_event_cursor,
}
use yuex.Events.Log.{stored_for, Numbered, numbered, append_cases, find-append}
use yuex.Events.Order.{InOrder, stored_here, store-InOrder}

module _ (name : ℕ → ℕ → ℕ) (run_of : ℕ → ℕ) where
  -- Every dispatch of the map has the run that is its own for good.
  abbrev pub KeepsRuns : Map Dispatch → Type 0
  KeepsRuns dispatches =
      (id : ℕ) (d : Dispatch) → lookup id dispatches ≡ some d → d.run_id ≡ run_of id

  -- The logs that appends reach, whatever happens to run records and tool invocations between them.
  pub data LogReach : EventLog → Type 0 where
    empty : LogReach empty_log
    append :
        {log : EventLog} (e : RunEvent) (audit : Result (Option ToolAudit)) (previous : ℕ)
        (dispatches : Map Dispatch)
        → LogReach log
        → KeepsRuns dispatches
        → LogReach (append_run_event name e audit previous dispatches log).0
    change :
        {log : EventLog} (records : Map RunRecord) (invocations : Map ToolInvocation)
        → LogReach log
        → LogReach (record log { run_records = records; invocations = invocations })

  LogReach-InOrder : (log : EventLog) → LogReach log → InOrder run_of log
  unfolding stored_for lookup select
  LogReach-InOrder log LogReach.empty = λ d. (tt, refl)
  LogReach-InOrder t (LogReach.append {log = log} e audit previous dispatches r runs) =
      let h = LogReach-InOrder log r in
      append_cases (λ x. InOrder run_of x.0) name e audit previous dispatches log (λ x. h)
        (λ d old k f. h)
        (λ d invocations k run next unseen.
          store-InOrder run_of e (record log { invocations = invocations }) h
            (run ∙ runs e.dispatch_id d k) next)
  LogReach-InOrder t (LogReach.change {log = log} records invocations r) = LogReach-InOrder log r

  -- The abstract log of a dispatch: an append does nothing, or puts one event behind the others.
  pub data Extends (e : RunEvent) : List RunEvent → List RunEvent → Type 0 where
    nothing : {es : List RunEvent} → Extends e es es
    behind :
        {es : List RunEvent} (stored : RunEvent)
        → stored.source_sequence ≡ e.source_sequence
        → stored.event_type ≡ e.event_type
        → stored.payload_hash ≡ e.payload_hash
        → e.source_sequence ≡ length es + 1
        → Extends e es (es ++ (stored ∷ []))

  -- The log of a dispatch in which the event is stored.
  abbrev pub Holds : RunEvent → EventLog → Type 0
  Holds e log =
      (stored : RunEvent) × (find_event e.dispatch_id e.source_sequence (events_of e.run_id log)
        ≡ some stored)
      × (stored.event_type ≡ e.event_type)
      × (stored.payload_hash ≡ e.payload_hash)

  Refined : RunEvent → EventLog → EventLog × Done → Type 0
  Refined e log x =
      ((d : ℕ) → d ≢ e.dispatch_id → stored_for (run_of d) d x.0 ≡ stored_for (run_of d) d log)
      × Extends e (stored_for (run_of e.dispatch_id) e.dispatch_id log)
          (stored_for (run_of e.dispatch_id) e.dispatch_id x.0)
      × (x.1 ≢ ok tt → x.0 ≡ log)
      × (x.1 ≡ ok tt → Holds e x.0)

  -- The event of an append that stores it.
  store-Refined :
      (e : RunEvent) (log : EventLog) (invocations : Map ToolInvocation)
      → InOrder run_of log
      → e.run_id ≡ run_of e.dispatch_id
      → cursor_of e.dispatch_id log + 1 ≡ e.source_sequence
      → find_event e.dispatch_id e.source_sequence (events_of e.run_id log) ≡ none
      → Refined e log (store_event e (record log { invocations = invocations }), ok tt)
  unfolding Refined stored_for store_event
  store-Refined e log invocations h run next unseen =
      let log' : EventLog = record log { invocations = invocations } in
      let es = stored_for (run_of e.dispatch_id) e.dispatch_id log in
      let grown : stored_for (run_of e.dispatch_id) e.dispatch_id (store_event e log')
          ≡ es ++ (numbered log e ∷ []) =
        ground (arith, stored_here run_of e log' run e.dispatch_id) in
      (
        (λ d other. ground (arith, stored_here run_of e log' run d, other)),
        subst (Extends e es) (sym grown) (
            Extends.behind (numbered log e) refl refl refl
              (omega (arith, next, (h e.dispatch_id).1))),
        (λ k. absurd (k refl)),
        λ k. (
          numbered log e,
          ground (
            arith,
            lookup-insert_self e.run_id (events_of e.run_id log ++ (numbered log e ∷ []))
                log.events,
            find-append (events_of e.run_id log) e (numbered log e) unseen refl refl,
          ),
          refl,
          refl,
        ),
      )

  -- In every log that appends reach, an append leaves the events of the other dispatches as they are,
  -- and does to those of its own what the abstract log does: nothing, or one event behind the others
  -- that has the next number. An append that fails changes nothing at all, and after one that succeeds
  -- an event with its number, type and payload is stored.
  pub append-refines :
      (e : RunEvent) (audit : Result (Option ToolAudit)) (previous : ℕ) (dispatches : Map Dispatch)
      (log : EventLog)
      → LogReach log
      → KeepsRuns dispatches
      → let x = append_run_event name e audit previous dispatches log in
        ((d : ℕ) → d ≢ e.dispatch_id → stored_for (run_of d) d x.0 ≡ stored_for (run_of d) d log)
        × Extends e
            (stored_for (run_of e.dispatch_id) e.dispatch_id log)
            (stored_for (run_of e.dispatch_id) e.dispatch_id x.0)
        × (x.1 ≢ ok tt → x.0 ≡ log)
        × (x.1 ≡ ok tt → Holds e x.0)
  unfolding Refined
  append-refines e audit previous dispatches log r runs =
      let h = LogReach-InOrder log r in
      append_cases (Refined e log) name e audit previous dispatches log
        (λ x. ((λ d other. refl), Extends.nothing, (λ k. refl), λ k. absurd (ground (arith, k))))
        (λ d old k f. (
          (λ d other. refl),
          Extends.nothing,
          (λ k. refl),
          λ same. (old, f, ground (arith, same), ground (arith, same)),
        ))
        (λ d invocations k run next unseen.
          store-Refined e log invocations h (run ∙ runs e.dispatch_id d k) next unseen)

  -- In every log that appends reach, GetDispatchEventCursor gives the number of the dispatch's stored
  -- events, and these have the source sequences from 1 up to it in order: none is missing, and none
  -- stands twice.
  pub cursor-counts :
      (id : ℕ) (d : Dispatch) (dispatches : Map Dispatch) (log : EventLog)
      → LogReach log
      → id ≢ 0
      → lookup id dispatches ≡ some d
      → let stored = stored_for (run_of id) id log in
        (get_dispatch_event_cursor id dispatches log
          ≡ ok (record { dispatch_id = id; last_sequence = length stored; lower_bound = 1 }))
        × Numbered 1 stored
  unfolding get_dispatch_event_cursor
  cursor-counts id d dispatches log r named found =
      let h = LogReach-InOrder log r id in (ground (arith, named, found, h.1), h.0)
