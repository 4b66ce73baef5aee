-- ===== src/Relay/Events.antt =====
-- Identifiers and events: `id`, `newEvent`, `emit`.
use noudle_agents.Base.{String, Option, some, List}
use noudle_agents.Base.Text
use noudle_agents.Protocol.{NewEvent, RelayEvent, EventType, ActorType, Creator, actor, Value}
use noudle_agents.Repository.EventLog.{append_event}
use noudle_agents.App.{App, config, publish, random_uuid, for_each, pure, ◌>>=◌, ◌>>◌}

-- `this.id(prefix)`.
unfoldable pub new_id : String → App String
new_id prefix = do uuid ← random_uuid; pure (Text.append prefix (Text.append "_" uuid))

unfoldable pub new_event :
    String → String → EventType → List (String × Value) → ActorType → Option String → App NewEvent
new_event aggregate_type aggregate_id type payload actor_type actor_id = do
  c ← config
  pure (record {
    workspace_id = c.workspace_id;
    aggregate_type = aggregate_type;
    aggregate_id = aggregate_id;
    type = type;
    actor_type = actor_type;
    actor_id = actor_id;
    payload = payload;
  })

-- `newEvent` with its defaults: the owner acts.
unfoldable pub owner_event : String → String → EventType → List (String × Value) → App NewEvent
owner_event aggregate_type aggregate_id type payload = do
  c ← config
  new_event aggregate_type aggregate_id type payload ActorType.user (some c.owner_id)

unfoldable pub emit : NewEvent → App RelayEvent
emit event = do stored ← append_event event; publish stored; pure stored

-- `await this.emit(this.newEvent(…, actorType, actorId))`.
unfoldable pub announce :
    String → String → EventType → List (String × Value) → Creator → String → App (Unit {0})
announce aggregate_type aggregate_id type payload actor_type actor_id = do
  event ← new_event aggregate_type aggregate_id type payload (actor actor_type) (some actor_id)
  emit event
  pure tt

-- `for (const event of result.events) this.events.publish(event)`.
unfoldable pub publish_all : List RelayEvent → App (Unit {0})
publish_all events = for_each publish events
