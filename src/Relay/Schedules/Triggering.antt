-- ===== src/Relay/Schedules/Triggering.antt =====
-- `triggerSchedule` and `triggerWebhook`.
use noudle_agents.Base.{
  ℕ, String, Option, none, some, [], ◌∷◌, Bool, false, not, ◌&&◌, ◌==◌, truthy,
}
use noudle_agents.Base.Text
use noudle_agents.Protocol.{
  Conversation, MessageRole, Schedule, ActorType, EventType, Value, parse_schedule, parse_message,
  parse_run,
}
use noudle_agents.Repository.State.{EntityKind}
use noudle_agents.Repository.Entities
use noudle_agents.Repository.Commit.{commit_message_run}
use noudle_agents.Schedules.Occurrence.{next_cron_occurrence}
use noudle_agents.Relay.Events.{new_id, new_event, emit, publish_all}
use noudle_agents.Relay.Messages.{queued_run, run_job, touched, Sent}
use noudle_agents.Relay.Schedules.{get_schedule, next_if, is_cron}
use noudle_agents.App.{
  App, asks, config, conflict, not_found, now, parsed, pure, random_uuid, throw_if, ◌>>=◌, ◌>>◌,
}

pub data Source : Type 0 where
  cron webhook : Source

abbrev source_text : Source → String
source_text Source.cron = "cron"
source_text Source.webhook = "webhook"

abbrev opening : Source → String
opening Source.cron = "Scheduled task: "
opening Source.webhook = "Webhook-triggered task: "

-- The payload of a webhook, as `JSON.stringify` prints it.
abbrev payload_text : Source → Option String → String
payload_text Source.cron payload = ""
payload_text Source.webhook none = ""
payload_text Source.webhook (some json) = Text.append "\n\nWebhook payload:\n" json

-- `if (conversation) await this.repository.put("conversations", …)`.
unfoldable pub touch_found : ℕ → Option Conversation → App (Unit {0})
touch_found at none = pure tt
touch_found at (some c) = Entities.put EntityKind.conversations (touched at c)

-- `nextCronOccurrence(schedule.cronExpression, schedule.timezone, new Date())`.
unfoldable pub next_run : Schedule → App ℕ
next_run schedule = do at ← now; next_cron_occurrence schedule.cron_expression schedule.timezone at

-- `operation_id` is `operationId`, which the callers compute.
unfoldable pub trigger_schedule : Schedule → ℕ → Source → Option String → String → App Sent
trigger_schedule schedule triggered_at source payload operation_id = do
  at ← now
  c ← config
  message_id ← new_id "msg"
  message ← parsed (
      parse_message (record {
        id = message_id;
        workspace_id = c.workspace_id;
        conversation_id = schedule.conversation_id;
        role = MessageRole.system;
        author_id = none;
        content =
            Text.append (opening source)
              (Text.append schedule.prompt (payload_text source payload));
        response_parts = none;
        attachments = none;
        reply_to_message_id = none;
        client_operation_id = some operation_id;
        created_at = at;
      }))
  run_id ← new_id "run"
  run ← parsed (
      parse_run (
        queued_run run_id c.workspace_id schedule.agent_id schedule.conversation_id none message.id
          at))
  job_id ← new_id "job"
  message_event ←
      new_event "message" message.id EventType.message_created
        (("message", Value.message message) ∷ []) ActorType.system none
  run_event ←
      new_event "run" run.id EventType.run_created (("run", Value.run run) ∷ []) ActorType.system
        none
  result ← commit_message_run (record {
    message = message;
    run = run;
    job = run_job job_id c.workspace_id run.id none at;
    idempotency_key = operation_id;
    events = message_event ∷ run_event ∷ [];
  })
  publish_all result.events
  next ← next_if (schedule.enabled && is_cron schedule.trigger_type) (next_run schedule)
  next_schedule ← parsed (
      parse_schedule (record schedule {
        last_run_at = some triggered_at;
        latest_run_id = some result.run_id;
        next_run_at = next;
        updated_at = at;
      }))
  Entities.put EntityKind.schedules next_schedule
  event ←
      new_event "schedule" schedule.id EventType.schedule_triggered
        (("schedule", Value.schedule next_schedule)
          ∷ ("runId", Value.text result.run_id)
          ∷ ("source", Value.text (source_text source))
          ∷ [])
        ActorType.system none
  emit event
  conversation ← Entities.get EntityKind.conversations schedule.conversation_id
  touch_found at conversation
  pure (record { message = result.message; run_id = result.run_id })

-- The default of `operationId`.
unfoldable pub trigger_due : Schedule → ℕ → App Sent
trigger_due schedule triggered_at = do
  iso ← asks (λ e. e.iso triggered_at)
  trigger_schedule schedule triggered_at Source.cron none
      (Text.append "schedule:" (Text.append schedule.id (Text.append ":" iso)))

-- `schedule.triggerType !== "webhook" || !schedule.webhookToken`, and the comparison of the tokens.
abbrev pub opens : Schedule → String → Bool
opens schedule token = elim (truthy schedule.webhook_token) [
  | none ↦ false
  | some expected ↦ not (is_cron schedule.trigger_type) && expected == token
]

unfoldable pub trigger_webhook : String → String → Option String → App String
trigger_webhook id token payload = do
  schedule ← get_schedule id
  throw_if (not (opens schedule token)) not_found
  throw_if (not schedule.enabled) (conflict "webhook_disabled")
  at ← now
  uuid ← random_uuid
  result ←
      trigger_schedule schedule at Source.webhook payload
        (Text.append "webhook:" (Text.append schedule.id (Text.append ":" uuid)))
  pure result.run_id
