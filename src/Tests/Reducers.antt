-- ===== src/Tests/Reducers.antt =====
-- The properties of the clients' reducers and of the event buffer, applied to small states.
use noudle_agents.Base.{◌≡◌, List, [], ◌∷◌, false, All, ◌==◌, contains, is_empty}
use noudle_agents.Protocol.{Agent, Conversation, RelayEvent, EventType, ActorType, Value}
use noudle_agents.Base.{some, refl, if◌then◌else◌, String, ℕ, ◌≤◌, ◌+◌, length, arith}
use noudle_agents.Codex.EventBuffer.{Json, Fields, new_buffer, append, trimmed, after}
use noudle_agents.Codex.EventBuffer.Window.{IsWindow, append_all, after-append_all}
use noudle_agents.Clients.Desktop
use noudle_agents.Clients.Desktop.{RelaySnapshot, ConnectionMode, create_initial_state}
use noudle_agents.Clients.Desktop.Removal.{IsSelection, remove_agent_gone, snapshot-IsSelection}
use noudle_agents.Clients.Mobile
use noudle_agents.Clients.Mobile.{initial_relay_state, relay_reducer}
use noudle_agents.Clients.Mobile.Replay.{
  apply_events, latest, apply_events-latest, message_with, message_received,
}
use noudle_agents.Tests.Samples.{agent, conversation, message, agent_event}

abbrev events : List RelayEvent
events = agent_event 1 ∷ agent_event 2 ∷ []

again-seen : All (λ (f : RelayEvent). f.cursor ≤ latest initial_relay_state.cursor events) events
unfolding latest
again-seen = (omega arith, (omega arith, tt))

apply_events-latest_example :
    ((apply_events 10 initial_relay_state events).cursor ≡ latest initial_relay_state.cursor events)
    × (apply_events 20 (apply_events 10 initial_relay_state events) events
        ≡ apply_events 10 initial_relay_state events)
apply_events-latest_example = apply_events-latest 10 20 initial_relay_state events events again-seen

abbrev spoken : RelayEvent
spoken = record {
  event = record {
    workspace_id = "ws";
    aggregate_type = "message";
    aggregate_id = "m1";
    type = EventType.message_created;
    actor_type = ActorType.user;
    actor_id = some "owner";
    payload = ("message", Value.message (message "m1" "c1")) ∷ [];
  };
  id = "e";
  cursor = 3;
  sequence = 1;
  created_at = 10;
}

message_received_example :
    let s' = relay_reducer 10 initial_relay_state (Mobile.RelayAction.event spoken) in
    (message_with "m1" s' ≡ (
      if (message "m1" "c1").id == "m1"
      then some (message "m1" "c1")
      else message_with "m1" initial_relay_state))
    × (s'.cursor ≡ spoken.cursor)
    × (s'.agents ≡ initial_relay_state.agents)
    × (s'.tasks ≡ initial_relay_state.tasks)
    × (s'.approvals ≡ initial_relay_state.approvals)
message_received_example =
    message_received 10 initial_relay_state spoken (message "m1" "c1") "m1" (omega arith) refl refl

abbrev snapshot : RelaySnapshot
snapshot = record {
  agents = agent "a1" ∷ agent "a2" ∷ [];
  conversations = conversation "c1" ("a1" ∷ []) ∷ conversation "c2" ("a2" ∷ []) ∷ [];
  messages = message "m1" "c1" ∷ [];
  tasks = [];
  approvals = [];
  cursor = 7;
}

abbrev shown : Desktop.RelayState
shown =
    Desktop.relay_reducer (create_initial_state snapshot) (Desktop.RelayAction.remove_agent "a1")

remove_agent_gone_example :
    All (λ (a : Agent). (a.id == "a1") ≡ false) shown.agents
    × All (λ (c : Conversation). contains "a1" c.member_agent_ids ≡ false) shown.conversations
    × All (λ (c : Conversation). is_empty c.member_agent_ids ≡ false) shown.conversations
    × IsSelection shown.conversations shown.selected_conversation_id
remove_agent_gone_example = remove_agent_gone (create_initial_state snapshot) "a1"

abbrev refreshed : Desktop.RelayState
refreshed =
    Desktop.relay_reducer (create_initial_state snapshot)
      (Desktop.RelayAction.snapshot snapshot ConnectionMode.live)

snapshot-IsSelection_example :
    (refreshed.conversations ≡ snapshot.conversations)
    × IsSelection refreshed.conversations refreshed.selected_conversation_id
snapshot-IsSelection_example =
    snapshot-IsSelection (create_initial_state snapshot) snapshot ConnectionMode.live

abbrev news : List (String × Json × ℕ)
news =
    ("turn/started", Json.object (Fields.field "threadId" (Json.text "t1") Fields.no_field), 5)
    ∷ ("turn/completed", Json.null, 6)
    ∷ []

seen : 1 ≤ (append_all news new_buffer).cursor
unfolding append_all append
seen = omega arith

within : (append_all news new_buffer).cursor ≤ 1 + length (append_all news new_buffer).events
unfolding append_all append trimmed
within = omega arith

after-append_all_example :
    let b = append_all news new_buffer in IsWindow b × (length (after 1 b) + 1 ≡ b.cursor)
after-append_all_example = after-append_all news 1 seen within
