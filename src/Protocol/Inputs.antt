-- ===== src/Protocol/Inputs.antt =====
-- The inputs of the service: an absent field is `none`. A patch field that may also be set to
-- null has type `Option (Option A)`: `none` is undefined, `some none` is null.
use Prim.Native.Nat.{ℕ}
use Prim.Native.String.{String}
use mathlib.Core.Bool.{Bool}
use mathlib.Core.Option.{Option}
use mathlib.Core.List.{List}
use noudle_agents.Protocol.Enums.{AgentStatus, TaskStatus, ConversationKind, Priority, TriggerType}
use noudle_agents.Protocol.Entities.{ComposerSettings}

pub record CreateAgentInput : Type 0 where
  pub name : String
  pub role : String
  pub description : Option String
  pub instructions : Option String
  pub avatar : Option String
  pub color : Option String
  pub capabilities : Option (List String)

pub record CreateConversationInput : Type 0 where
  pub kind : ConversationKind
  pub title : String
  pub member_agent_ids : List String
  pub task_id : Option String

pub record SendMessageInput : Type 0 where
  pub content : String
  pub attachment_ids : List String
  pub agent_id : String
  pub task_id : Option String
  pub reply_to_message_id : Option String
  pub client_operation_id : String
  pub settings : Option ComposerSettings

pub record BudgetPatch : Type 0 where
  pub max_tokens : Option ℕ
  pub max_wall_seconds : Option ℕ
  pub max_child_tasks : Option ℕ

pub record CreateTaskInput : Type 0 where
  pub title : String
  pub objective : String
  pub acceptance_criteria : Option (List String)
  pub owner_agent_id : Option String
  pub parent_task_id : Option String
  pub conversation_id : Option String
  pub priority : Option Priority
  pub budget : Option BudgetPatch

pub record DelegateTaskInput : Type 0 where
  pub agent_id : String
  pub message : String
  pub context_refs : List String

pub record AgentPatch : Type 0 where
  pub name : Option String
  pub role : Option String
  pub description : Option String
  pub instructions : Option String
  pub avatar : Option String
  pub color : Option String
  pub capabilities : Option (List String)
  pub status : Option AgentStatus
  pub codex_thread_id : Option (Option String)

pub record ConversationPatch : Type 0 where
  pub title : Option String
  pub member_agent_ids : Option (List String)

pub record TaskPatch : Type 0 where
  pub title : Option String
  pub objective : Option String
  pub acceptance_criteria : Option (List String)
  pub owner_agent_id : Option (Option String)
  pub parent_task_id : Option (Option String)
  pub conversation_id : Option (Option String)
  pub status : Option TaskStatus
  pub priority : Option Priority
  pub budget : Option BudgetPatch
  pub blocker : Option (Option String)
  pub result_summary : Option (Option String)

pub record UserProfilePatch : Type 0 where
  pub values : List (String × String)
  pub remove : List String

pub record CreateScheduleInput : Type 0 where
  pub trigger_type : Option TriggerType
  pub agent_id : String
  pub conversation_id : Option String
  pub title : String
  pub prompt : String
  pub cron_expression : Option String
  pub timezone : Option String
  pub enabled : Option Bool

pub record UpdateScheduleInput : Type 0 where
  pub trigger_type : Option TriggerType
  pub agent_id : Option String
  pub conversation_id : Option String
  pub title : Option String
  pub prompt : Option String
  pub cron_expression : Option String
  pub timezone : Option String
  pub enabled : Option Bool
