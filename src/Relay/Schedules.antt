-- ===== src/Relay/Schedules.antt =====
-- Scheduled runs: `listSchedules`, `getSchedule`, `createSchedule`, `updateSchedule`,
-- `deleteSchedule`; its child has `triggerSchedule` and `triggerWebhook`.
pub mod Triggering
pub mod Webhooks
pub mod Keeping
pub mod Untouched
pub mod Standing
use noudle_agents.Base.{
  ℕ, String, Option, none, some, List, [], ◌∷◌, Bool, true, false, not, ◌&&◌, ◌||◌, ◌==◌, contains,
  find, truthy, is, ◌otherwise◌, if◌then◌else◌,
}
use noudle_agents.Base.Text
use noudle_agents.Protocol.{
  Agent, Conversation, Message, MessageRole, Run, Schedule, TriggerType, CreateScheduleInput,
  UpdateScheduleInput, Creator, ActorType, EventType, Value, parse_schedule, parse_message,
  parse_run,
}
use noudle_agents.Repository.State.{EntityKind}
use noudle_agents.Repository.Entities
use noudle_agents.Repository.Commit.{commit_message_run}
use noudle_agents.Schedules.Occurrence.{normalize, validate_timezone, next_cron_occurrence}
use noudle_agents.Relay.Events.{new_id, new_event, emit, announce, publish_all}
use noudle_agents.Relay.Lookup.{require, list_all, get_agent, get_conversation, list_conversations}
use noudle_agents.Relay.Conversations.{is_direct_with}
use noudle_agents.Relay.Messages.{queued_run, run_job, touched, Sent}
use noudle_agents.App.{
  App, Failure, asks, config, conflict, not_found, now, or_throw, parsed, pure, random_uuid, throw,
  throw_if, ◌>>=◌, ◌>>◌,
}

unfoldable pub parse_all : List Schedule → App (List Schedule)
parse_all [] = pure []
parse_all (s ∷ more) = do
  stored ← parsed (parse_schedule s)
  rest ← parse_all more
  pure (stored ∷ rest)

unfoldable pub list_schedules : App (List Schedule)
list_schedules = do stored ← list_all EntityKind.schedules; parse_all stored

-- `parseStoredSchedule` of what is found: here the trigger and the token are always there.
unfoldable pub get_schedule : String → App Schedule
get_schedule id = do found ← require EntityKind.schedules id; parsed (parse_schedule found)

unfoldable pub given_conversation : String → String → App Conversation
given_conversation agent_id id = do
  conversation ← get_conversation id
  throw_if (not (contains agent_id conversation.member_agent_ids))
      (Failure.domain 400 "agent_not_in_conversation")
  pure conversation

unfoldable pub own_conversation : String → App Conversation
own_conversation agent_id = do
  conversations ← list_conversations
  or_throw (Failure.domain 400 "schedule_conversation_required")
      (find (is_direct_with agent_id) conversations)

unfoldable pub conversation_from : String → Option String → App Conversation
conversation_from agent_id none = own_conversation agent_id
conversation_from agent_id (some id) = given_conversation agent_id id

unfoldable pub schedule_conversation : String → Option String → App Conversation
schedule_conversation agent_id id = conversation_from agent_id (truthy id)

abbrev pub is_cron : TriggerType → Bool
is_cron TriggerType.cron = true
is_cron TriggerType.webhook = false

abbrev pub some_time : App ℕ → App (Option ℕ)
some_time m = m >>= λ t. pure (some t)

-- `enabled && triggerType === "cron" ? … : null`.
unfoldable pub next_if : Bool → App ℕ → App (Option ℕ)
next_if wanted next = if wanted then some_time next else pure none

unfoldable pub new_token : App (Option String)
new_token = do uuid ← random_uuid; pure (some (Text.without_char b'-' uuid))

unfoldable pub token_for : TriggerType → App (Option String)
token_for TriggerType.cron = pure none
token_for TriggerType.webhook = new_token

abbrev acting : Creator → String → String → String
acting Creator.agent actor_id agent_id = actor_id
acting Creator.user actor_id agent_id = agent_id

unfoldable pub create_schedule : CreateScheduleInput → Creator → String → App Schedule
create_schedule input actor_type actor_id = do
  agent ← get_agent (acting actor_type actor_id input.agent_id)
  conversation ← schedule_conversation agent.id input.conversation_id
  at ← now
  let trigger_type = input.trigger_type otherwise TriggerType.cron
  cron_expression ← normalize (input.cron_expression otherwise "0 9 * * *")
  timezone ← validate_timezone (input.timezone otherwise "UTC")
  let enabled = input.enabled otherwise true
  id ← new_id "sch"
  next ←
      next_if (enabled && is_cron trigger_type) (next_cron_occurrence cron_expression timezone at)
  token ← token_for trigger_type
  c ← config
  schedule ← parsed (
      parse_schedule (record {
        id = id;
        workspace_id = c.workspace_id;
        trigger_type = trigger_type;
        agent_id = agent.id;
        conversation_id = conversation.id;
        title = input.title;
        prompt = input.prompt;
        cron_expression = cron_expression;
        timezone = timezone;
        enabled = enabled;
        next_run_at = next;
        last_run_at = none;
        latest_run_id = none;
        webhook_token = token;
        created_by_type = actor_type;
        created_by_id = actor_id;
        created_at = at;
        updated_at = at;
      }))
  Entities.put EntityKind.schedules schedule
  announce "schedule" schedule.id EventType.schedule_created
      (("schedule", Value.schedule schedule) ∷ []) actor_type actor_id
  pure schedule

-- `value !== undefined && value !== id`.
abbrev other_than : Option String → String → Bool
other_than none id = false
other_than (some value) id = not (value == id)

abbrev pub forbidden_to : Creator → String → Option String → Schedule → Bool
forbidden_to Creator.user actor_id agent_id current = false
forbidden_to Creator.agent actor_id agent_id current =
    not (current.agent_id == actor_id) || other_than agent_id actor_id

abbrev same_trigger : TriggerType → TriggerType → Bool
same_trigger TriggerType.cron t = is_cron t
same_trigger TriggerType.webhook t = not (is_cron t)

-- The conversation that an update names or keeps.
abbrev kept_conversation : UpdateScheduleInput → String → Schedule → Option String
kept_conversation input agent_id current = elim input.conversation_id [
  | some id ↦ some id
  | none ↦ if agent_id == current.agent_id then some current.conversation_id else none
]

unfoldable pub retimed : Bool → Option ℕ → App ℕ → App (Option ℕ)
retimed true current next = some_time next
retimed false none next = some_time next
retimed false (some at) next = pure (some at)

unfoldable pub next_or_kept : Bool → Bool → Option ℕ → App ℕ → App (Option ℕ)
next_or_kept wanted timing_changed current next =
    if wanted then retimed timing_changed current next else pure none

unfoldable pub kept_token : TriggerType → Schedule → App (Option String)
kept_token TriggerType.cron current = pure none
kept_token TriggerType.webhook current =
    if is_cron current.trigger_type then new_token else pure current.webhook_token

unfoldable pub update_schedule : String → UpdateScheduleInput → Creator → String → App Schedule
update_schedule id input actor_type actor_id = do
  current ← get_schedule id
  throw_if (forbidden_to actor_type actor_id input.agent_id current)
      (Failure.domain 403 "schedule_owner_forbidden")
  let agent_id = acting actor_type actor_id (input.agent_id otherwise current.agent_id)
  get_agent agent_id
  conversation ← schedule_conversation agent_id (kept_conversation input agent_id current)
  let trigger_type = input.trigger_type otherwise current.trigger_type
  cron_expression ← normalize (input.cron_expression otherwise current.cron_expression)
  timezone ← validate_timezone (input.timezone otherwise current.timezone)
  let enabled = input.enabled otherwise current.enabled
  at ← now
  let timing_changed =
      not (same_trigger trigger_type current.trigger_type)
      || not (cron_expression == current.cron_expression)
      || not (timezone == current.timezone)
      || (not current.enabled && enabled)
  next ←
      next_or_kept (enabled && is_cron trigger_type) timing_changed current.next_run_at
        (next_cron_occurrence cron_expression timezone at)
  token ← kept_token trigger_type current
  schedule ← parsed (
      parse_schedule (record current {
        trigger_type = trigger_type;
        agent_id = agent_id;
        conversation_id = conversation.id;
        title = input.title otherwise current.title;
        prompt = input.prompt otherwise current.prompt;
        cron_expression = cron_expression;
        timezone = timezone;
        enabled = enabled;
        next_run_at = next;
        webhook_token = token;
        updated_at = at;
      }))
  Entities.put EntityKind.schedules schedule
  announce "schedule" schedule.id EventType.schedule_updated
      (("schedule", Value.schedule schedule) ∷ []) actor_type actor_id
  pure schedule

unfoldable pub delete_schedule : String → Creator → String → App (Unit {0})
delete_schedule id actor_type actor_id = do
  schedule ← get_schedule id
  throw_if (forbidden_to actor_type actor_id none schedule)
      (Failure.domain 403 "schedule_owner_forbidden")
  Entities.delete EntityKind.schedules id
  announce "schedule" id EventType.schedule_deleted (("scheduleId", Value.text id) ∷ []) actor_type
      actor_id
