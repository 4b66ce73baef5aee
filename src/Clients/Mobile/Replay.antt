-- ===== src/Clients/Mobile/Replay.antt =====
-- Events that a client has already applied.
use noudle_agents.Base.{
  ℕ, ◌≤◌, ◌≡◌, refl, String, Option, none, some, List, [], ◌∷◌, true, arith, leb, ltb, All, false,
  ap, sym, ◌∙◌, subst, ◌<◌, ◌==◌, eq_iff, if◌then◌else◌, Bool-cases, inl, inr,
}
use noudle_agents.Protocol.{Agent, Message, Task, Approval, RelayEvent, EventType, Value}
use noudle_agents.Clients.Mobile.{
  RelayState, RelayAction, relay_reducer, apply_event, apply_payload, put_agent, put_message,
  put_task, put_approval, upsert, payload_value,
}

-- The state after the events of a stream.
unfoldable pub apply_events : ℕ → RelayState → List RelayEvent → RelayState
apply_events at s [] = s
apply_events at s (e ∷ es) = apply_events at (relay_reducer at s (RelayAction.event e)) es

put_agent-cursor : (o : Option Agent) (s : RelayState) → (put_agent o s).cursor ≡ s.cursor
unfolding put_agent
put_agent-cursor none s = refl
put_agent-cursor (some x) s = refl

put_message-cursor : (o : Option Message) (s : RelayState) → (put_message o s).cursor ≡ s.cursor
unfolding put_message
put_message-cursor none s = refl
put_message-cursor (some x) s = refl

put_task-cursor : (o : Option Task) (s : RelayState) → (put_task o s).cursor ≡ s.cursor
unfolding put_task
put_task-cursor none s = refl
put_task-cursor (some x) s = refl

put_approval-cursor : (o : Option Approval) (s : RelayState) → (put_approval o s).cursor ≡ s.cursor
unfolding put_approval
put_approval-cursor none s = refl
put_approval-cursor (some x) s = refl

apply_payload-cursor :
    (type : EventType) (p : List (String × Value)) (s : RelayState)
    → (apply_payload type p s).cursor ≡ s.cursor
unfolding apply_payload put_agent put_message put_task put_approval
apply_payload-cursor EventType.agent_created p s = put_agent-cursor _ s
apply_payload-cursor EventType.agent_updated p s = put_agent-cursor _ s
apply_payload-cursor EventType.agent_deleted p s = put_agent-cursor _ s
apply_payload-cursor EventType.agent_status_changed p s = put_agent-cursor _ s
apply_payload-cursor EventType.conversation_created p s = refl
apply_payload-cursor EventType.conversation_updated p s = refl
apply_payload-cursor EventType.conversation_deleted p s = refl
apply_payload-cursor EventType.message_created p s = put_message-cursor _ s
apply_payload-cursor EventType.message_delta p s = refl
apply_payload-cursor EventType.run_created p s = refl
apply_payload-cursor EventType.run_started p s = refl
apply_payload-cursor EventType.run_completed p s = refl
apply_payload-cursor EventType.run_interrupted p s = refl
apply_payload-cursor EventType.run_failed p s = refl
apply_payload-cursor EventType.task_created p s = put_task-cursor _ s
apply_payload-cursor EventType.task_updated p s = put_task-cursor _ s
apply_payload-cursor EventType.task_delegated p s = put_task-cursor _ s
apply_payload-cursor EventType.task_completed p s = put_task-cursor _ s
apply_payload-cursor EventType.task_blocked p s = put_task-cursor _ s
apply_payload-cursor EventType.approval_requested p s = put_approval-cursor _ s
apply_payload-cursor EventType.approval_resolved p s = put_approval-cursor _ s
apply_payload-cursor EventType.artifact_created p s = refl
apply_payload-cursor EventType.artifact_updated p s = refl
apply_payload-cursor EventType.tool_started p s = refl
apply_payload-cursor EventType.tool_output p s = refl
apply_payload-cursor EventType.tool_completed p s = refl
apply_payload-cursor EventType.computer_updated p s = refl
apply_payload-cursor EventType.connector_updated p s = refl
apply_payload-cursor EventType.schedule_created p s = refl
apply_payload-cursor EventType.schedule_updated p s = refl
apply_payload-cursor EventType.schedule_deleted p s = refl
apply_payload-cursor EventType.schedule_triggered p s = refl

-- The later of the position `c` and those of the events.
unfoldable pub latest : ℕ → List RelayEvent → ℕ
latest c [] = c
latest c (e ∷ es) = latest (if ltb c e.cursor then e.cursor else c) es

apply_event-cursor :
    (s : RelayState) (e : RelayEvent)
    → (apply_event s e).cursor ≡ (if ltb s.cursor e.cursor then e.cursor else s.cursor)
unfolding apply_event
apply_event-cursor s e = elim (Bool-cases (leb e.cursor s.cursor)) [
  | inl old ↦ rw old (ground arith)
  | inr new ↦ rw (new, apply_payload-cursor) (ground arith)
]

-- Seen events change nothing.
seen-same :
    (at : ℕ) (s : RelayState) (es : List RelayEvent)
    → All (λ (e : RelayEvent). e.cursor ≤ s.cursor) es
    → apply_events at s es ≡ s
unfolding apply_events relay_reducer apply_event
seen-same at s [] h = refl
seen-same at s (e ∷ es) h =
    let old : leb e.cursor s.cursor ≡ true = ground (arith, h.0) in rw old (seen-same at s es h.1)

apply_events-cursor :
    (at : ℕ) (s : RelayState) (es : List RelayEvent)
    → (apply_events at s es).cursor ≡ latest s.cursor es
unfolding apply_events relay_reducer latest
apply_events-cursor at s [] = refl
apply_events-cursor at s (e ∷ es) =
    apply_events-cursor at (apply_event s e) es ∙ ap (λ c. latest c es) (apply_event-cursor s e)

-- After a stream of events, in any order, the cursor is the latest of the old one and the events'
-- cursors; and any events sent afterwards whose cursors are not beyond that, in any order, known or
-- not, leave the state exactly as it is.
pub apply_events-latest :
    (at later : ℕ) (s : RelayState) (es fs : List RelayEvent)
    → All (λ (f : RelayEvent). f.cursor ≤ latest s.cursor es) fs
    → ((apply_events at s es).cursor ≡ latest s.cursor es)
      × (apply_events later (apply_events at s es) fs ≡ apply_events at s es)
apply_events-latest at later s es fs h =
    let reached = apply_events-cursor at s es in
    (
      reached,
      seen-same later (apply_events at s es) fs
          (subst (λ c. All (λ (f : RelayEvent). f.cursor ≤ c) fs) (sym reached) h),
    )

-- The first item with the id.
unfoldable pub first_with {ℓ} : {A : Type ℓ} → (A → String) → String → List A → Option A
first_with key id [] = none
first_with key id (x ∷ xs) = let rest = first_with key id xs in if key x == id then some x else rest

first_with-upsert {ℓ} :
    {A : Type ℓ} (key : A → String) (id : String) (xs : List A) (v : A)
    → first_with key id (upsert key xs v) ≡ (if key v == id then some v else first_with key id xs)
unfolding first_with upsert
first_with-upsert key id [] v = refl
first_with-upsert key id (x ∷ xs) v = elim (Bool-cases (key x == key v)) [
  | inl t ↦ ground (arith, t, (eq_iff (key x) (key v)).0 t)
  | inr t ↦ ground (
    arith,
    t,
    eq_iff (key x) (key v),
    eq_iff (key x) id,
    eq_iff (key v) id,
    first_with-upsert key id xs v,
  )
]

abbrev pub message_with : String → RelayState → Option Message
message_with id s = first_with (λ (m : Message). m.id) id s.messages

-- An event beyond the cursor that tells of a message moves the cursor to the event, and afterwards
-- the message is found under its id, and under every other id what was found before; agents, tasks
-- and approvals stay as they are.
pub message_received :
    (at : ℕ) (s : RelayState) (e : RelayEvent) (m : Message) (id : String)
    → s.cursor < e.cursor
    → e.type ≡ EventType.message_created
    → payload_value e.payload "message" ≡ some (Value.message m)
    → let s' = relay_reducer at s (RelayAction.event e) in
      (message_with id s' ≡ (if m.id == id then some m else message_with id s))
      × (s'.cursor ≡ e.cursor)
      × (s'.agents ≡ s.agents)
      × (s'.tasks ≡ s.tasks)
      × (s'.approvals ≡ s.approvals)
unfolding relay_reducer apply_event apply_payload put_message
message_received at s e m id new created told =
    let fresh : leb e.cursor s.cursor ≡ false = ground arith in
    rw (fresh, created, told)
      (first_with-upsert (λ (x : Message). x.id) id s.messages m, refl, refl, refl, refl)
