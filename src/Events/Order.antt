-- ===== src/Events/Order.antt =====
-- The events that AppendRunEventAndAdvanceCursor of runtime_host_concurrency.go stores for a dispatch,
-- and the cursor that GetDispatchEventCursor gives.
use yuex.Prelude.{
  ℕ, ◌+◌, ◌≡◌, inl, inr, sym, ap, ◌∙◌, ◌&&◌, [], ◌∷◌, ◌++◌, lookup-insert, length, ◌==◌,
  if◌then◌else◌, arith, Bool-cases,
}
use yuex.Events.{RunEvent, EventLog, events_of, cursor_of, store_event}
use yuex.Events.Log.{stored_for, Numbered, Numbered-append, select-append, length-append, numbered}

stored-store :
    (e : RunEvent) (log : EventLog) (run dispatch : ℕ)
    → stored_for run dispatch (store_event e log) ≡ (
        if e.run_id == run && e.dispatch_id == dispatch
        then stored_for run dispatch log ++ (numbered log e ∷ [])
        else stored_for run dispatch log)
unfolding stored_for store_event
stored-store e log run dispatch = elim (Bool-cases (e.run_id == run)) [
  | inl g ↦ ground (
    arith,
    lookup-insert e.run_id run (events_of e.run_id log ++ (numbered log e ∷ [])) log.events,
    select-append (λ x. x.dispatch_id == dispatch) (events_of e.run_id log) (numbered log e),
  )
  | inr g ↦ ground (
    arith,
    lookup-insert e.run_id run (events_of e.run_id log ++ (numbered log e ∷ [])) log.events,
  )
]

cursor-store :
    (e : RunEvent) (log : EventLog) (d : ℕ)
    → cursor_of d (store_event e log)
      ≡ (if e.dispatch_id == d then e.source_sequence else cursor_of d log)
unfolding store_event
cursor-store e log d = ground (arith, lookup-insert e.dispatch_id d e.source_sequence log.cursors)

module _ (run_of : ℕ → ℕ) where
  -- The stored events of each dispatch count up from 1 to its cursor.
  abbrev pub InOrder : EventLog → Type 0
  InOrder log =
      (d : ℕ)
      → Numbered 1 (stored_for (run_of d) d log)
        × (cursor_of d log ≡ length (stored_for (run_of d) d log))

  -- The event goes behind its dispatch's events, and leaves those of the others.
  pub stored_here :
      (e : RunEvent) (log : EventLog)
      → e.run_id ≡ run_of e.dispatch_id
      → (d : ℕ)
      → stored_for (run_of d) d (store_event e log) ≡ (
          if e.dispatch_id == d
          then stored_for (run_of d) d log ++ (numbered log e ∷ [])
          else stored_for (run_of d) d log)
  stored_here e log run d = elim (Bool-cases (e.dispatch_id == d)) [
    | inl g ↦
        let same : e.dispatch_id ≡ d = ground (arith, g) in
        ground (arith, stored-store e log (run_of d) d, g, run, ap run_of same)
    | inr g ↦ ground (arith, stored-store e log (run_of d) d, g)
  ]

  pub store-InOrder :
      (e : RunEvent) (log : EventLog)
      → InOrder log
      → e.run_id ≡ run_of e.dispatch_id
      → cursor_of e.dispatch_id log + 1 ≡ e.source_sequence
      → InOrder (store_event e log)
  store-InOrder e log h run next d = elim (Bool-cases (e.dispatch_id == d)) [
    | inl g ↦
        let same : e.dispatch_id ≡ d = ground (arith, g) in
        let es = stored_for (run_of d) d log in
        let at : cursor_of d log + 1 ≡ e.source_sequence =
          ap (λ i. cursor_of i log + 1) (sym same) ∙ next in
        rw (stored_here e log run d) (
          rw (cursor-store e log d) (
            rw g (
              Numbered-append 1 es (numbered log e) (h d).0 (omega (arith, at, (h d).1)),
              omega (arith, at, (h d).1, length-append es (numbered log e)),
            )))
    | inr g ↦ rw (stored_here e log run d) (rw (cursor-store e log d) (rw g (h d)))
  ]
