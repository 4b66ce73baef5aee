-- ===== src/Relay/Messages.antt =====
-- `listMessages` and `sendMessage`.
use noudle_agents.Base.{
  ℕ, String, Option, none, some, List, [], ◌∷◌, Bool, not, ◌==◌, keep, contains, is_empty, truthy,
  if◌then◌else◌,
}
use noudle_agents.Protocol.{
  Conversation, Message, MessageAttachment, MessageRole, Run, RunStatus, QueueJob, JobStatus,
  ComposerSettings, SendMessageInput, EventType, Value, parse_message, parse_run,
}
use noudle_agents.Repository.State.{EntityKind}
use noudle_agents.Repository.Entities
use noudle_agents.Repository.Commit.{commit_message_run}
use noudle_agents.Relay.Events.{new_id, owner_event, publish_all}
use noudle_agents.Relay.Lookup.{get_agent, get_conversation}
use noudle_agents.Relay.Conversations.{check_optional}
use noudle_agents.App.{App, Failure, config, now, parsed, pure, throw, throw_if, ◌>>=◌, ◌>>◌}

unfoldable pub list_messages : String → App (List Message)
list_messages conversation_id = do
  get_conversation conversation_id
  c ← config
  messages ← Entities.list EntityKind.messages c.workspace_id
  pure (keep (λ m. m.conversation_id == conversation_id) messages)

abbrev pub invalid_reply : Failure
invalid_reply = Failure.domain 400 "invalid_reply"

-- The reply target is a message of this conversation.
unfoldable pub reply_in : String → Option Message → App (Unit {0})
reply_in conversation_id none = throw invalid_reply
reply_in conversation_id (some m) =
    throw_if (not (m.conversation_id == conversation_id)) invalid_reply

unfoldable pub check_reply_to : String → Option String → App (Unit {0})
check_reply_to conversation_id none = pure tt
check_reply_to conversation_id (some id) = do
  reply ← Entities.get EntityKind.messages id
  reply_in conversation_id reply

unfoldable pub check_reply : String → Option String → App (Unit {0})
check_reply conversation_id id = check_reply_to conversation_id (truthy id)

-- `resolveAttachments`, which the artifact service provides.
abbrev pub Resolver : Type 0
Resolver = String → List String → App (List MessageAttachment)

unfoldable pub resolve_some : Option Resolver → String → List String → App (List MessageAttachment)
resolve_some none message_id ids = throw (Failure.domain 500 "attachment_service_unavailable")
resolve_some (some resolve) message_id ids = resolve message_id ids

unfoldable pub resolve_attachments :
    Option Resolver → String → List String → App (List MessageAttachment)
resolve_attachments resolve message_id ids =
    if is_empty ids then pure [] else resolve_some resolve message_id ids

-- A run that waits in the queue, and the job that makes the worker take it up.
abbrev pub queued_run : String → String → String → String → Option String → String → ℕ → Run
queued_run id workspace_id agent_id conversation_id task_id trigger at = record {
  id = id;
  workspace_id = workspace_id;
  agent_id = agent_id;
  conversation_id = conversation_id;
  task_id = task_id;
  trigger_message_id = some trigger;
  status = RunStatus.queued;
  codex_turn_id = none;
  error = none;
  started_at = none;
  completed_at = none;
  created_at = at;
  updated_at = at;
}

abbrev pub run_job : String → String → String → Option ComposerSettings → ℕ → QueueJob
run_job id workspace_id run_id settings at = record {
  id = id;
  workspace_id = workspace_id;
  kind = "agent.run";
  payload = record { run_id = some run_id; settings = settings };
  status = JobStatus.queued;
  attempts = 0;
  available_at = at;
  locked_at = none;
  locked_by = none;
  error = none;
  created_at = at;
  updated_at = at;
}

abbrev pub touched : ℕ → Conversation → Conversation
touched at c = record c { last_message_at = some at; updated_at = at }

-- `if (result.created) await this.repository.put("conversations", …)`.
unfoldable pub touch_if : Bool → ℕ → Conversation → App (Unit {0})
touch_if created at conversation =
    if created then Entities.put EntityKind.conversations (touched at conversation) else pure tt

pub record Sent : Type 0 where
  pub message : Message
  pub run_id : String

unfoldable pub send_message : String → SendMessageInput → Option Resolver → App Sent
send_message conversation_id input resolve = do
  conversation ← get_conversation conversation_id
  agent ← get_agent input.agent_id
  throw_if (not (contains agent.id conversation.member_agent_ids))
      (Failure.domain 400 "agent_not_in_conversation")
  check_optional EntityKind.tasks input.task_id
  check_reply conversation_id input.reply_to_message_id
  at ← now
  message_id ← new_id "msg"
  attachments ← resolve_attachments resolve message_id input.attachment_ids
  c ← config
  message ← parsed (
      parse_message (record {
        id = message_id;
        workspace_id = c.workspace_id;
        conversation_id = conversation_id;
        role = MessageRole.user;
        author_id = some c.owner_id;
        content = input.content;
        response_parts = none;
        attachments = some attachments;
        reply_to_message_id = input.reply_to_message_id;
        client_operation_id = some input.client_operation_id;
        created_at = at;
      }))
  run_id ← new_id "run"
  run ← parsed (
      parse_run
        (queued_run run_id c.workspace_id agent.id conversation_id input.task_id message.id at))
  job_id ← new_id "job"
  message_event ←
      owner_event "message" message.id EventType.message_created
        (("message", Value.message message) ∷ [])
  run_event ← owner_event "run" run.id EventType.run_created (("run", Value.run run) ∷ [])
  result ← commit_message_run (record {
    message = message;
    run = run;
    job = run_job job_id c.workspace_id run.id input.settings at;
    idempotency_key = input.client_operation_id;
    events = message_event ∷ run_event ∷ [];
  })
  publish_all result.events
  touch_if result.created at conversation
  pure (record { message = result.message; run_id = result.run_id })
