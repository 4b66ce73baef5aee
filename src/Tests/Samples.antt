-- ===== src/Tests/Samples.antt =====
-- A small workspace: its environment, and entities of each kind that the examples store.
use noudle_agents.Base.{ℕ, zero, suc, ◌+◌, String, Option, none, some, List, [], ◌∷◌, true}
use noudle_agents.Protocol.{
  Agent, AgentStatus, Conversation, ConversationKind, Message, MessageRole, Task, TaskStatus,
  TaskBudget, Priority, Run, RunStatus, Approval, ApprovalStatus, Risk, QueueJob, JobStatus,
  Schedule, TriggerType, Creator, RelayEvent, EventType, ActorType, Value, CreateAgentInput,
  CreateTaskInput,
}
use noudle_agents.Repository.State.{Repository, create_memory_state}
use noudle_agents.Repository.Commit.{MessageRunCommit}
use noudle_agents.App.{Env, World, LocalTime}
use Prim.Native.Char.{code}
use noudle_agents.Base.{◌*◌, ◌-◌, ◌/◌, ◌%◌, leb, ◌&&◌, ◌==◌, if◌then◌else◌}

abbrev uuid_text : ℕ → String
uuid_text zero = "u0"
uuid_text (suc zero) = "u1"
uuid_text (suc (suc zero)) = "u2"
uuid_text _ = "u"

-- Decimal numbers, and nothing else.
abbrev decimal_from : ℕ → String → Option ℕ
decimal_from n String.[] = some n
decimal_from n (String.◌∷◌ c s) =
    let rest = decimal_from (n * 10 + (code c - b'0')) s in
    if leb b'0' (code c) && leb (code c) b'9' then rest else none

abbrev decimal : String → Option ℕ
decimal s = decimal_from 0 s

-- The days of 1970, in months of 31 days.
abbrev pub utc : ℕ → LocalTime
utc at = record {
  minute = (at / 60000) % 60;
  hour = (at / 3600000) % 24;
  day = (at / 86400000) % 31 + 1;
  month = (at / 86400000) / 31 % 12 + 1;
  weekday = (at / 86400000 + 4) % 7;
}

abbrev pub env : Env
env = record {
  config = record { workspace_id = "ws"; owner_id = "owner"; max_delegation_depth = 3 };
  lower_case = λ s. s;
  upper_case = λ s. s;
  integer_of = decimal;
  zone = λ name. if name == "UTC" then some utc else none;
  iso = λ n. "2026";
  uuid = uuid_text;
  clock = λ n. 1000 + n;
}

abbrev pub world : Repository → World
world r = record { repo = r; published = []; aborted = []; draws = 0; ticks = 0 }

abbrev pub empty_world : World
empty_world = world create_memory_state

abbrev pub budget : TaskBudget
budget = record { max_tokens = 1000; max_wall_seconds = 60; max_child_tasks = 2 }

abbrev pub task : String → Option String → ℕ → Task
task id parent depth = record {
  id = id;
  workspace_id = "ws";
  parent_task_id = parent;
  conversation_id = none;
  title = "Plan";
  objective = "Write a plan";
  acceptance_criteria = [];
  owner_agent_id = none;
  created_by_type = Creator.user;
  created_by_id = "owner";
  status = TaskStatus.draft;
  priority = Priority.normal;
  depth = depth;
  budget = budget;
  blocker = none;
  result_summary = none;
  created_at = 1;
  updated_at = 1;
}

abbrev pub agent : String → Agent
agent id = record {
  id = id;
  workspace_id = "ws";
  name = "Ada";
  role = "Research";
  description = "";
  instructions = "";
  avatar = "AD";
  color = "#D7FF64";
  capabilities = [];
  status = AgentStatus.idle;
  current_task_id = none;
  codex_thread_id = none;
  created_at = 1;
  updated_at = 1;
}

abbrev pub agent_input : CreateAgentInput
agent_input = record {
  name = "Ada";
  role = "Research";
  description = none;
  instructions = none;
  avatar = some "AD";
  color = none;
  capabilities = none;
}

abbrev pub conversation : String → List String → Conversation
conversation id members = record {
  id = id;
  workspace_id = "ws";
  kind = ConversationKind.direct;
  title = "Ada";
  member_agent_ids = members;
  task_id = none;
  last_message_at = none;
  created_at = 1;
  updated_at = 1;
}

abbrev pub message : String → String → Message
message id conversation_id = record {
  id = id;
  workspace_id = "ws";
  conversation_id = conversation_id;
  role = MessageRole.user;
  author_id = some "owner";
  content = "hello";
  response_parts = none;
  attachments = none;
  reply_to_message_id = none;
  client_operation_id = some "op";
  created_at = 2;
}

abbrev pub run : String → Run
run id = record {
  id = id;
  workspace_id = "ws";
  agent_id = "a1";
  conversation_id = "c1";
  task_id = none;
  trigger_message_id = some "m1";
  status = RunStatus.queued;
  codex_turn_id = none;
  error = none;
  started_at = none;
  completed_at = none;
  created_at = 2;
  updated_at = 2;
}

abbrev pub job : String → QueueJob
job id = record {
  id = id;
  workspace_id = "ws";
  kind = "agent.run";
  payload = record { run_id = some "r1"; settings = none };
  status = JobStatus.queued;
  attempts = 0;
  available_at = 2;
  locked_at = none;
  locked_by = none;
  error = none;
  created_at = 2;
  updated_at = 2;
}

abbrev pub approval : Approval
approval = record {
  id = "p1";
  workspace_id = "ws";
  run_id = "r1";
  task_id = none;
  agent_id = "a1";
  tool = "send_mail";
  risk = Risk.external_communication;
  title = "Send a mail";
  description = "";
  normalized_arguments = "{}";
  signature = "0123456789abcdef";
  status = ApprovalStatus.pending;
  expires_at = 5000;
  decided_at = none;
  created_at = 3;
}

abbrev pub schedule : String → Schedule
schedule id = record {
  id = id;
  workspace_id = "ws";
  trigger_type = TriggerType.cron;
  agent_id = "a1";
  conversation_id = "c1";
  title = "Daily";
  prompt = "Report";
  cron_expression = "0 9 * * *";
  timezone = "UTC";
  enabled = true;
  next_run_at = some 900;
  last_run_at = none;
  latest_run_id = none;
  webhook_token = none;
  created_by_type = Creator.user;
  created_by_id = "owner";
  created_at = 1;
  updated_at = 1;
}

abbrev pub commit : String → MessageRunCommit
commit id = record {
  message = message id "c1";
  run = run "r1";
  job = job "j1";
  idempotency_key = "op";
  events = [];
}

abbrev pub agent_event : ℕ → RelayEvent
agent_event n = record {
  event = record {
    workspace_id = "ws";
    aggregate_type = "agent";
    aggregate_id = "a1";
    type = EventType.agent_created;
    actor_type = ActorType.user;
    actor_id = some "owner";
    payload = ("agent", Value.agent (agent "a1")) ∷ [];
  };
  id = "e";
  cursor = n;
  sequence = n;
  created_at = 1;
}

abbrev pub child_input : CreateTaskInput
child_input = record {
  title = "Search";
  objective = "Find sources";
  acceptance_criteria = none;
  owner_agent_id = none;
  parent_task_id = some "t2";
  conversation_id = none;
  priority = none;
  budget = none;
}
