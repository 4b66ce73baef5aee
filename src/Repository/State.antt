-- ===== src/Repository/State.antt =====
-- `MemoryRepositoryState` and the tables by entity kind.
use noudle_agents.Base.{ℕ, String, List, [], Option}
use noudle_agents.Base.Map.{Map}
use noudle_agents.Protocol.{
  Agent, Conversation, Message, Task, Run, Approval, Schedule, Workspace, QueueJob, RelayEvent,
}

-- `EntityKind` and `EntityMap`, for the kinds that the modelled services store.
pub data EntityKind : Type 0 where
  agents conversations messages tasks runs approvals schedules : EntityKind

abbrev pub EntityMap : EntityKind → Type 0
EntityMap EntityKind.agents = Agent
EntityMap EntityKind.conversations = Conversation
EntityMap EntityKind.messages = Message
EntityMap EntityKind.tasks = Task
EntityMap EntityKind.runs = Run
EntityMap EntityKind.approvals = Approval
EntityMap EntityKind.schedules = Schedule

abbrev pub id_of : (k : EntityKind) → EntityMap k → String
id_of EntityKind.agents v = v.id
id_of EntityKind.conversations v = v.id
id_of EntityKind.messages v = v.id
id_of EntityKind.tasks v = v.id
id_of EntityKind.runs v = v.id
id_of EntityKind.approvals v = v.id
id_of EntityKind.schedules v = v.id

abbrev pub workspace_of : (k : EntityKind) → EntityMap k → String
workspace_of EntityKind.agents v = v.workspace_id
workspace_of EntityKind.conversations v = v.workspace_id
workspace_of EntityKind.messages v = v.workspace_id
workspace_of EntityKind.tasks v = v.workspace_id
workspace_of EntityKind.runs v = v.workspace_id
workspace_of EntityKind.approvals v = v.workspace_id
workspace_of EntityKind.schedules v = v.workspace_id

abbrev pub created_of : (k : EntityKind) → EntityMap k → ℕ
created_of EntityKind.agents v = v.created_at
created_of EntityKind.conversations v = v.created_at
created_of EntityKind.messages v = v.created_at
created_of EntityKind.tasks v = v.created_at
created_of EntityKind.runs v = v.created_at
created_of EntityKind.approvals v = v.created_at
created_of EntityKind.schedules v = v.created_at

pub record IdempotentMessageResult : Type 0 where
  pub message : Message
  pub run_id : String

pub record ScheduleLock : Type 0 where
  pub locked_at : ℕ
  pub locked_by : String

pub data Platform : Type 0 where
  ios android : Platform

pub record PushSubscription : Type 0 where
  pub token : String
  pub workspace_id : String
  pub platform : Platform
  pub device_id : Option String
  pub created_at : ℕ
  pub updated_at : ℕ

pub record Repository : Type 0 where
  pub workspace : Map Workspace
  pub agents : Map Agent
  pub conversations : Map Conversation
  pub messages : Map Message
  pub tasks : Map Task
  pub runs : Map Run
  pub approvals : Map Approval
  pub schedules : Map Schedule
  pub events : List RelayEvent
  pub jobs : Map QueueJob
  pub idempotency : Map IdempotentMessageResult
  pub schedule_locks : Map ScheduleLock
  pub push_subscriptions : Map PushSubscription
  pub cursor : ℕ

abbrev pub create_memory_state : Repository
create_memory_state = record {
  workspace = [];
  agents = [];
  conversations = [];
  messages = [];
  tasks = [];
  runs = [];
  approvals = [];
  schedules = [];
  events = [];
  jobs = [];
  idempotency = [];
  schedule_locks = [];
  push_subscriptions = [];
  cursor = 0;
}

-- `state.entities[kind]`.
abbrev pub table : (k : EntityKind) → Repository → Map (EntityMap k)
table EntityKind.agents r = r.agents
table EntityKind.conversations r = r.conversations
table EntityKind.messages r = r.messages
table EntityKind.tasks r = r.tasks
table EntityKind.runs r = r.runs
table EntityKind.approvals r = r.approvals
table EntityKind.schedules r = r.schedules

abbrev pub set_table : (k : EntityKind) → Map (EntityMap k) → Repository → Repository
set_table EntityKind.agents m r = record r { agents = m }
set_table EntityKind.conversations m r = record r { conversations = m }
set_table EntityKind.messages m r = record r { messages = m }
set_table EntityKind.tasks m r = record r { tasks = m }
set_table EntityKind.runs m r = record r { runs = m }
set_table EntityKind.approvals m r = record r { approvals = m }
set_table EntityKind.schedules m r = record r { schedules = m }
