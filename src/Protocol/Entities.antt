-- ===== src/Protocol/Entities.antt =====
-- The stored entities. Timestamps are the milliseconds that `toISOString` prints in a fixed
-- width, so that the order of the texts is the order of the numbers. A value of type `unknown`
-- or a free record of such is kept as its JSON text.
use Prim.Native.Nat.{ℕ}
use Prim.Native.String.{String}
use mathlib.Core.Bool.{Bool}
use mathlib.Core.Option.{Option}
use mathlib.Core.List.{List}
use noudle_agents.Protocol.Enums.{
  AgentStatus, TaskStatus, RunStatus, MessageRole, ConversationKind, Risk, Priority, ApprovalStatus,
  TriggerType, ToolStatus, JobStatus, ActorType, Creator, EventType, ModelName, Reasoning, Speed,
}

pub record Agent : Type 0 where
  pub id : String
  pub workspace_id : String
  pub name : String
  pub role : String
  pub description : String
  pub instructions : String
  pub avatar : String
  pub color : String
  pub capabilities : List String
  pub status : AgentStatus
  pub current_task_id : Option String
  pub codex_thread_id : Option String
  pub created_at : ℕ
  pub updated_at : ℕ

pub record Conversation : Type 0 where
  pub id : String
  pub workspace_id : String
  pub kind : ConversationKind
  pub title : String
  pub member_agent_ids : List String
  pub task_id : Option String
  pub last_message_at : Option ℕ
  pub created_at : ℕ
  pub updated_at : ℕ

pub record MessageAttachment : Type 0 where
  pub artifact_id : String
  pub name : String
  pub mime_type : String
  pub size : ℕ
  pub path : String

pub data MessageResponsePart : Type 0 where
  text : (text : String) → MessageResponsePart
  tool : (id tool_type : String) (status : ToolStatus) (content : String) → MessageResponsePart

pub record Message : Type 0 where
  pub id : String
  pub workspace_id : String
  pub conversation_id : String
  pub role : MessageRole
  pub author_id : Option String
  pub content : String
  pub response_parts : Option (List MessageResponsePart)
  pub attachments : Option (List MessageAttachment)
  pub reply_to_message_id : Option String
  pub client_operation_id : Option String
  pub created_at : ℕ

pub record TaskBudget : Type 0 where
  pub max_tokens : ℕ
  pub max_wall_seconds : ℕ
  pub max_child_tasks : ℕ

pub record Task : Type 0 where
  pub id : String
  pub workspace_id : String
  pub parent_task_id : Option String
  pub conversation_id : Option String
  pub title : String
  pub objective : String
  pub acceptance_criteria : List String
  pub owner_agent_id : Option String
  pub created_by_type : Creator
  pub created_by_id : String
  pub status : TaskStatus
  pub priority : Priority
  pub depth : ℕ
  pub budget : TaskBudget
  pub blocker : Option String
  pub result_summary : Option String
  pub created_at : ℕ
  pub updated_at : ℕ

pub record Run : Type 0 where
  pub id : String
  pub workspace_id : String
  pub agent_id : String
  pub conversation_id : String
  pub task_id : Option String
  pub trigger_message_id : Option String
  pub status : RunStatus
  pub codex_turn_id : Option String
  pub error : Option String
  pub started_at : Option ℕ
  pub completed_at : Option ℕ
  pub created_at : ℕ
  pub updated_at : ℕ

pub record Approval : Type 0 where
  pub id : String
  pub workspace_id : String
  pub run_id : String
  pub task_id : Option String
  pub agent_id : String
  pub tool : String
  pub risk : Risk
  pub title : String
  pub description : String
  pub normalized_arguments : String
  pub signature : String
  pub status : ApprovalStatus
  pub expires_at : ℕ
  pub decided_at : Option ℕ
  pub created_at : ℕ

pub record Schedule : Type 0 where
  pub id : String
  pub workspace_id : String
  pub trigger_type : TriggerType
  pub agent_id : String
  pub conversation_id : String
  pub title : String
  pub prompt : String
  pub cron_expression : String
  pub timezone : String
  pub enabled : Bool
  pub next_run_at : Option ℕ
  pub last_run_at : Option ℕ
  pub latest_run_id : Option String
  pub webhook_token : Option String
  pub created_by_type : Creator
  pub created_by_id : String
  pub created_at : ℕ
  pub updated_at : ℕ

pub record Workspace : Type 0 where
  pub id : String
  pub name : String
  pub owner_id : String
  pub profile : List (String × String)
  pub created_at : ℕ
  pub updated_at : ℕ

pub record ComposerSettings : Type 0 where
  pub model : ModelName
  pub reasoning : Reasoning
  pub speed : Speed

pub record JobPayload : Type 0 where
  pub run_id : Option String
  pub settings : Option ComposerSettings

pub record QueueJob : Type 0 where
  pub id : String
  pub workspace_id : String
  pub kind : String
  pub payload : JobPayload
  pub status : JobStatus
  pub attempts : ℕ
  pub available_at : ℕ
  pub locked_at : Option ℕ
  pub locked_by : Option String
  pub error : Option String
  pub created_at : ℕ
  pub updated_at : ℕ

-- What the program puts in an event's `payload`.
pub data Value : Type 0 where
  agent : Agent → Value
  conversation : Conversation → Value
  message : Message → Value
  task : Task → Value
  run : Run → Value
  approval : Approval → Value
  schedule : Schedule → Value
  text : String → Value
  texts : List String → Value
  null : Value

pub record NewEvent : Type 0 where
  pub workspace_id : String
  pub aggregate_type : String
  pub aggregate_id : String
  pub type : EventType
  pub actor_type : ActorType
  pub actor_id : Option String
  pub payload : List (String × Value)

pub record RelayEvent : Type 0 where
  pub event : NewEvent
  pub open event use *
  pub id : String
  pub cursor : ℕ
  pub sequence : ℕ
  pub created_at : ℕ
