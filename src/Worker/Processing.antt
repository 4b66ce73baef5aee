-- ===== src/Worker/Processing.antt =====
-- `process`: one job, from the start of its run to the settling of the job. The runtime and the push
-- service, which call other processes, are arguments.
use noudle_agents.Base.{String, Option, none, some, List, [], ◌∷◌, ◌++◌}
use noudle_agents.Base.Text
use noudle_agents.Protocol.{
  Agent, AgentStatus, Message, MessageResponsePart, Run, Task, TaskStatus, ComposerSettings,
  NewEvent, EventType, ActorType, Creator, Value, parse_agent,
}
use noudle_agents.Repository.State.{EntityKind}
use noudle_agents.Repository.Entities
use noudle_agents.Relay.Events.{emit}
use noudle_agents.Relay.Tasks.{create_task, update_task, no_patch}
use noudle_agents.Relay.Collaboration.{DelegateRole, create_delegated_child}
use noudle_agents.App.{App, Result, ok, err, Failure, config, now, parsed, pure, ◌>>=◌, ◌>>◌}

pub record RuntimeContext : Type 0 where
  pub run : Run
  pub agent : Agent
  pub trigger : Message
  pub task : Option Task
  pub settings : Option ComposerSettings

pub data RuntimeEventType : Type 0 where
  message_delta tool_started tool_output tool_completed approval_requested : RuntimeEventType

pub record RuntimeEvent : Type 0 where
  pub type : RuntimeEventType
  pub payload : List (String × Value)

pub record SuggestedDelegation : Type 0 where
  pub role : DelegateRole
  pub title : String
  pub objective : String

pub record RuntimeResult : Type 0 where
  pub content : String
  pub summary : String
  pub response_parts : Option (List MessageResponsePart)
  pub suggested_delegation : Option SuggestedDelegation

-- What the worker is given: the runtime's name and its `execute`, the push service, `String(error)`,
-- and the worker's own id.
pub record Worker : Type 0 where
  pub id : String
  pub runtime_name : String
  pub execute : RuntimeContext → (RuntimeEvent → App (Unit {0})) → App RuntimeResult
  pub notify : Message → Agent → App (Unit {0})
  pub error_text : Failure → String

module _ {ℓ κ} {A : Type ℓ} {B : Type κ} where
  abbrev pub settle : Result A → (Failure → App B) → (A → App B) → App B
  settle (ok a) handler next = next a
  settle (err x) handler next = handler x

  -- A step inside `try`: what it throws goes to the handler, what it returns to the rest.
  unfoldable pub guarded : App A → (Failure → App B) → (A → App B) → App B
  guarded m handler next e w = let (r, w') = m e w in settle r handler next e w'

-- `promise.catch(() => undefined)`.
unfoldable pub quietly : App (Unit {0}) → App (Unit {0})
quietly m = guarded m (λ x. pure tt) pure

abbrev event_type : RuntimeEventType → EventType
event_type RuntimeEventType.message_delta = EventType.message_delta
event_type RuntimeEventType.tool_started = EventType.tool_started
event_type RuntimeEventType.tool_output = EventType.tool_output
event_type RuntimeEventType.tool_completed = EventType.tool_completed
event_type RuntimeEventType.approval_requested = EventType.approval_requested

unfoldable pub emit_runtime : Run → Agent → RuntimeEvent → App (Unit {0})
emit_runtime run agent event = do
  emit (record {
    workspace_id = run.workspace_id;
    aggregate_type = "run";
    aggregate_id = run.id;
    type = event_type event.type;
    actor_type = ActorType.agent;
    actor_id = some agent.id;
    payload = event.payload;
  })
  pure tt

abbrev status_text : AgentStatus → String
status_text AgentStatus.idle = "idle"
status_text AgentStatus.queued = "queued"
status_text AgentStatus.planning = "planning"
status_text AgentStatus.working = "working"
status_text AgentStatus.waiting_agent = "waiting_agent"
status_text AgentStatus.waiting_user = "waiting_user"
status_text AgentStatus.blocked = "blocked"
status_text AgentStatus.paused = "paused"
status_text AgentStatus.failed = "failed"
status_text AgentStatus.completed = "completed"

abbrev pub run_event :
    Run → EventType → ActorType → Option String → List (String × Value) → NewEvent
run_event run type actor_type actor_id payload = record {
  workspace_id = run.workspace_id;
  aggregate_type = "run";
  aggregate_id = run.id;
  type = type;
  actor_type = actor_type;
  actor_id = actor_id;
  payload = payload;
}

unfoldable pub set_agent_status : Agent → AgentStatus → Option String → App Agent
set_agent_status agent status task_id = do
  at ← now
  updated ←
      parsed
        (parse_agent (record agent { status = status; current_task_id = task_id; updated_at = at }))
  Entities.put EntityKind.agents updated
  emit (record {
    workspace_id = updated.workspace_id;
    aggregate_type = "agent";
    aggregate_id = updated.id;
    type = EventType.agent_status_changed;
    actor_type = ActorType.system;
    actor_id = none;
    payload =
        ("agent", Value.agent updated)
        ∷ ("previousStatus", Value.text (status_text agent.status))
        ∷ [];
  })
  pure updated

abbrev pub set_agent_running : Agent → Option String → App Agent
set_agent_running agent task_id = set_agent_status agent AgentStatus.working task_id

abbrev pub set_agent_idle : Agent → App Agent
set_agent_idle agent = set_agent_status agent AgentStatus.idle none

-- `updateTask(id, patch)`, which the owner calls.
unfoldable pub owner_updates : String → TaskStatus → String → App (Unit {0})
owner_updates id status summary = do
  c ← config
  update_task id (record no_patch { status = some status; result_summary = some (some summary) })
      Creator.user c.owner_id
  pure tt

-- `parentTask ??= await this.service.createTask(…)`.
unfoldable pub task_of : Option Task → Run → Agent → Message → App Task
task_of (some task) run agent trigger = pure task
task_of none run agent trigger =
    create_task
      (record {
        title = Text.append "Handle: " (Text.slice_to 80 trigger.content);
        objective = trigger.content;
        acceptance_criteria = none;
        owner_agent_id = some agent.id;
        parent_task_id = none;
        conversation_id = some run.conversation_id;
        priority = none;
        budget = none;
      })
      Creator.agent agent.id

abbrev owner_text : Option String → String
owner_text none = "null"
owner_text (some id) = id

unfoldable pub await_delegate : Task → Option Task → App (Unit {0})
await_delegate parent none = pure tt
await_delegate parent (some child) = owner_updates parent.id TaskStatus.waiting_agent (
    Text.append "Delegated "
      (Text.append child.title (Text.append " to " (owner_text child.owner_agent_id))))

unfoldable pub finish_task : Option Task → String → App (Option Task)
finish_task none summary = pure none
finish_task (some task) summary = owner_updates task.id TaskStatus.completed summary >> pure none

-- From the runtime's result to `delegatedTask`.
unfoldable pub delegation :
    Option SuggestedDelegation → String → Option Task → Run → Agent → Message → App (Option Task)
delegation none summary task run agent trigger = finish_task task summary
delegation (some d) summary task run agent trigger = do
  parent ← task_of task run agent trigger
  delegated ← create_delegated_child parent agent d.role d.title d.objective
  await_delegate parent delegated
  pure delegated

abbrev pub suffix_of : Option Task → String
suffix_of none = ""
suffix_of (some task) = Text.append "\n\nDelegated “" (Text.append task.title "” to another agent.")

abbrev suffix_part : Option Task → List MessageResponsePart
suffix_part none = []
suffix_part (some task) = MessageResponsePart.text (suffix_of (some task)) ∷ []

abbrev pub parts_of :
    Option (List MessageResponsePart) → Option Task → Option (List MessageResponsePart)
parts_of none delegated = none
parts_of (some []) delegated = none
parts_of (some (p ∷ ps)) delegated = some ((p ∷ ps) ++ suffix_part delegated)
