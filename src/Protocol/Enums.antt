-- ===== src/Protocol/Enums.antt =====
-- The enumerations of packages/protocol/src/index.ts and services/api/src/model.ts.
-- Types share constructor names: other modules write `TaskStatus.completed`.
use mathlib.Core.Bool.{Bool, true, false}

pub data AgentStatus : Type 0 where
  idle queued planning working waiting_agent waiting_user blocked paused failed completed :
      AgentStatus

pub data TaskStatus : Type 0 where
  draft queued accepted running waiting_agent waiting_user blocked paused completed failed
        cancelled :
      TaskStatus

pub data RunStatus : Type 0 where
  queued starting running waiting_approval waiting_user completed interrupted failed : RunStatus

pub data MessageRole : Type 0 where
  user agent system : MessageRole

pub data ConversationKind : Type 0 where
  direct group task : ConversationKind

pub data Risk : Type 0 where
  external_communication publish purchase delete overwrite permission production : Risk
  authentication sensitive_data custom : Risk

pub data Priority : Type 0 where
  low normal high urgent : Priority

pub data ApprovalStatus : Type 0 where
  pending approved denied expired : ApprovalStatus

pub data TriggerType : Type 0 where
  cron webhook : TriggerType

pub data ToolStatus : Type 0 where
  running completed failed : ToolStatus

pub data JobStatus : Type 0 where
  queued running completed failed : JobStatus

pub data ActorType : Type 0 where
  user agent system : ActorType

-- `"user" | "agent"`, the actors that call the service.
pub data Creator : Type 0 where
  user agent : Creator

abbrev pub actor : Creator → ActorType
actor Creator.user = ActorType.user
actor Creator.agent = ActorType.agent

pub data EventType : Type 0 where
  agent_created agent_updated agent_deleted agent_status_changed : EventType
  conversation_created conversation_updated conversation_deleted : EventType
  message_created message_delta : EventType
  run_created run_started run_completed run_interrupted run_failed : EventType
  task_created task_updated task_delegated task_completed task_blocked : EventType
  approval_requested approval_resolved : EventType
  artifact_created artifact_updated : EventType
  tool_started tool_output tool_completed : EventType
  computer_updated connector_updated : EventType
  schedule_created schedule_updated schedule_deleted schedule_triggered : EventType

pub data ModelName : Type 0 where
  sol terra luna : ModelName

pub data Reasoning : Type 0 where
  low medium high xhigh : Reasoning

pub data Speed : Type 0 where
  balanced extra_fast : Speed

-- `terminalTaskStatuses.has(status)`.
abbrev pub is_terminal : TaskStatus → Bool
is_terminal TaskStatus.completed = true
is_terminal TaskStatus.failed = true
is_terminal TaskStatus.cancelled = true
is_terminal _ = false

-- `activeRunStatuses.has(status)`.
abbrev pub is_active : RunStatus → Bool
is_active RunStatus.completed = false
is_active RunStatus.interrupted = false
is_active RunStatus.failed = false
is_active _ = true

abbrev pub is_direct : ConversationKind → Bool
is_direct ConversationKind.direct = true
is_direct _ = false
