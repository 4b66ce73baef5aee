-- ===== src/Worker/Jobs.antt =====
-- `process`: one job, from the start of its run to the settling of the job.
pub mod Settling
use noudle_agents.Base.{
  ℕ, ◌+◌, ◌*◌, ◌^◌, String, Option, none, some, [], ◌∷◌, Bool, true, false, ◌||◌, ltb, contains,
  drop, length, truthy, if◌then◌else◌,
}
use noudle_agents.Base.Text
use noudle_agents.Protocol.{
  Agent, Message, MessageRole, Run, RunStatus, Task, QueueJob, ComposerSettings, EventType,
  ActorType, Value, parse_message, parse_run,
}
use noudle_agents.Repository.State.{EntityKind, EntityMap}
use noudle_agents.Repository.Entities
use noudle_agents.Repository.Jobs.{complete_job, fail_job}
use noudle_agents.Relay.Events.{new_id, emit}
use noudle_agents.Relay.Schedules.Triggering.{touch_found}
use noudle_agents.App.{App, Failure, gets, now, parsed, pure, ◌>>=◌, ◌>>◌}
use noudle_agents.Worker.Processing.{
  Worker, RuntimeResult, guarded, quietly, run_event, emit_runtime, set_agent_running,
  set_agent_idle, delegation, suffix_of, parts_of,
}

-- The response, and the end of a run that succeeded.
unfoldable pub respond : RuntimeResult → Option Task → Run → Agent → Message → ℕ → App Message
respond result delegated run agent trigger at = do
  id ← new_id "msg"
  response ← parsed (
      parse_message (record {
        id = id;
        workspace_id = run.workspace_id;
        conversation_id = run.conversation_id;
        role = MessageRole.agent;
        author_id = some agent.id;
        content = Text.append result.content (suffix_of delegated);
        response_parts = parts_of result.response_parts delegated;
        attachments = none;
        reply_to_message_id = some trigger.id;
        client_operation_id = none;
        created_at = at;
      }))
  Entities.put EntityKind.messages response
  emit (record {
    workspace_id = response.workspace_id;
    aggregate_type = "message";
    aggregate_id = response.id;
    type = EventType.message_created;
    actor_type = ActorType.agent;
    actor_id = some agent.id;
    payload = ("message", Value.message response) ∷ [];
  })
  pure response

unfoldable pub complete_run : Run → Agent → String → ℕ → App (Unit {0})
complete_run run agent summary at = do
  completed ← parsed (
      parse_run
        (record run { status = RunStatus.completed; completed_at = some at; updated_at = at }))
  Entities.put EntityKind.runs completed
  emit (
      run_event run EventType.run_completed ActorType.agent (some agent.id)
        (("run", Value.run completed) ∷ ("summary", Value.text summary) ∷ []))
  pure tt

-- The `try` block, up to `setAgentRunning`.
unfoldable pub start_run : Worker → Run → Agent → App Agent
start_run worker run agent = do
  Entities.put EntityKind.runs run
  emit (
      run_event run EventType.run_started ActorType.agent (some agent.id)
        (("run", Value.run run) ∷ ("runtime", Value.text worker.runtime_name) ∷ []))
  set_agent_running agent run.task_id

-- The rest of the `try` block.
unfoldable pub execute_run :
    Worker → String → Run → Agent → Message → Option Task → Option ComposerSettings → App (Unit {0})
execute_run worker job_id run agent trigger task settings = do
  result ←
      worker.execute
        (record { run = run; agent = agent; trigger = trigger; task = task; settings = settings })
        (emit_runtime run agent)
  delegated ← delegation result.suggested_delegation result.summary task run agent trigger
  at ← now
  response ← respond result delegated run agent trigger at
  conversation ← Entities.get EntityKind.conversations run.conversation_id
  touch_found at conversation
  complete_run run agent result.summary at
  quietly (worker.notify response agent)
  set_agent_idle agent
  complete_job job_id

-- `job.attempts < 3 ? new Date(Date.now() + 250 * 2 ** job.attempts) : null`.
abbrev pub retry_at : ℕ → ℕ → Option ℕ
retry_at attempts at = if ltb attempts 3 then some (at + 250 * 2 ^ attempts) else none

unfoldable pub fail_run : Worker → QueueJob → Run → Agent → String → App (Unit {0})
fail_run worker job run agent error = do
  at ← now
  failed ← parsed (
      parse_run (record run {
        status = RunStatus.failed;
        error = some error;
        completed_at = some at;
        updated_at = at;
      }))
  Entities.put EntityKind.runs failed
  emit (
      run_event run EventType.run_failed ActorType.system none
        (("run", Value.run failed) ∷ ("error", Value.text error) ∷ []))
  set_agent_idle agent
  retry ← now
  fail_job job.id error (retry_at job.attempts retry)

abbrev is_interrupted : RunStatus → Bool
is_interrupted RunStatus.interrupted = true
is_interrupted _ = false

abbrev was_interrupted : Option Run → Bool
was_interrupted none = false
was_interrupted (some run) = is_interrupted run.status

-- The `catch` block. The controller is aborted when the interrupt handler was called for this run
-- since the job was taken up, after `calls` calls.
unfoldable pub recover : Worker → QueueJob → ℕ → Run → Agent → Failure → App (Unit {0})
recover worker job calls run agent error = do
  latest ← Entities.get EntityKind.runs run.id
  is_aborted ← gets (λ w. contains run.id (drop calls w.aborted))
  if is_aborted || was_interrupted latest
      then complete_job job.id
      else fail_run worker job run agent (worker.error_text error)

-- `run` and `activeAgent` are what the `catch` block sees of them at each stage of the `try` block.
unfoldable pub attempt : Worker → QueueJob → Run → Agent → Message → Option Task → App (Unit {0})
attempt worker job run agent trigger task = do
  calls ← gets (λ w. length w.aborted)
  at ← now
  guarded
      (parsed (
        parse_run
          (record run { status = RunStatus.running; started_at = some at; updated_at = at })))
      (recover worker job calls run agent)
      (λ started.
        guarded (start_run worker started agent) (recover worker job calls started agent) (λ active.
          guarded (execute_run worker job.id started active trigger task job.payload.settings)
            (recover worker job calls started active) pure))

-- `id ? this.repository.get(kind, id) : null`.
unfoldable pub get_optional : (k : EntityKind) → Option String → App (Option (EntityMap k))
get_optional k none = pure none
get_optional k (some id) = Entities.get k id

unfoldable pub attempt_found :
    Worker → QueueJob → Run → Option Agent → Option Message → Option Task → App (Unit {0})
attempt_found worker job run (some agent) (some trigger) task =
    attempt worker job run agent trigger task
attempt_found worker job run (some agent) none task =
    fail_job job.id "Run references missing agent or trigger message" none
attempt_found worker job run none trigger task =
    fail_job job.id "Run references missing agent or trigger message" none

unfoldable pub process_run : Worker → QueueJob → Run → App (Unit {0})
process_run worker job run = do
  agent ← Entities.get EntityKind.agents run.agent_id
  trigger ← get_optional EntityKind.messages (truthy run.trigger_message_id)
  task ← get_optional EntityKind.tasks (truthy run.task_id)
  attempt_found worker job run agent trigger task

unfoldable pub process_found : Worker → QueueJob → Option Run → App (Unit {0})
process_found worker job none = complete_job job.id
process_found worker job (some run) =
    if is_interrupted run.status then complete_job job.id else process_run worker job run

unfoldable pub process_id : Worker → QueueJob → Option String → App (Unit {0})
process_id worker job none = fail_job job.id "Job has no runId" none
process_id worker job (some id) = do
  run ← Entities.get EntityKind.runs id
  process_found worker job run

unfoldable pub process : Worker → QueueJob → App (Unit {0})
process worker job = process_id worker job (truthy job.payload.run_id)
